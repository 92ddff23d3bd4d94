-- ===== src/Dry/Candidates/Clone.antt =====
-- What makes a group a clone: two disjoint places with the same tokens.
use reporigor.Dry.Candidates.{CandidateBuilder, Occurrence, ExactCandidateKey, location}
use reporigor.Dry.Locations.{
  Location, Duplicate, overlaps, ordered_disjoint_locations, compare_location_key,
}
use reporigor.Dry.Tokens.{TokenRecord, TokenPair}
use reporigor.Dry.Tokens.Extend.{IsMaximalMatch}
use reporigor.Prelude.Order.{is_lt}
use reporigor.Prelude.{
  ℕ, ◌≡◌, ◌∙◌, ◌⊎◌, inl, inr, false, some, List, [], ◌∷◌, arith, Bool-cases, All, Text, text_eq_iff,
  get_or,
}

-- What a builder reads and never writes.
pub record Input : Type 0 where
  pub files : List Text
  pub token_sets : List (List TokenRecord)
  pub min_tokens : ℕ

abbrev pub input : CandidateBuilder → Input
input b = record { files = b.files; token_sets = b.token_sets; min_tokens = b.min_tokens }

abbrev pub stream : Input → ℕ → List TokenRecord
stream i index = get_or i.token_sets index []

abbrev pub pair_of : Input → Occurrence → Occurrence → TokenPair
pair_of i left right = record {
  left = stream i left.file_index;
  left_start = left.start;
  right = stream i right.file_index;
  right_start = right.start;
}

abbrev pub place : Input → Occurrence → ℕ → ℕ → Location
place i at start size =
    location (get_or i.files at.file_index []) (stream i at.file_index) start size

-- The two locations are the two sides of a maximal match around two equal windows, and do not
-- overlap.
pub record IsClone (i : Input) (d : Duplicate) : Type 0 where
  pub left : Occurrence
  pub right : Occurrence
  pub left_start : ℕ
  pub right_start : ℕ
  pub maximal :
      IsMaximalMatch (pair_of i left right) i.min_tokens left_start right_start d.token_count
  pub first : Location
  pub second : Location
  pub both : d.locations ≡ first ∷ second ∷ []
  pub disjoint : overlaps first second ≡ false
  pub sides :
      ((first ≡ place i left left_start d.token_count)
        × (second ≡ place i right right_start d.token_count))
      ⊎ ((first ≡ place i right right_start d.token_count)
          × (second ≡ place i left left_start d.token_count))

abbrev pub IsSound : CandidateBuilder → Type 0
IsSound b = All (λ (c : ExactCandidateKey × Duplicate). IsClone (input b) c.1) b.candidates

overlaps_sym : (a b : Location) → overlaps a b ≡ overlaps b a
unfolding overlaps
overlaps_sym a b = ground (arith, text_eq_iff a.file b.file, text_eq_iff b.file a.file)

pub record OrderedFrom (a b first second : Location) : Type 0 where
  pub disjoint : overlaps first second ≡ false
  pub sides : ((first ≡ a) × (second ≡ b)) ⊎ ((first ≡ b) × (second ≡ a))

pub ordered_disjoint_locations-OrderedFrom :
    (a b first second : Location)
    → ordered_disjoint_locations a b ≡ some (first, second)
    → OrderedFrom a b first second
unfolding ordered_disjoint_locations
ordered_disjoint_locations-OrderedFrom a b first second e = elim (Bool-cases (overlaps a b)) [
  | inl clash ↦ absurd (cc (rw clash at e))
  | inr clear ↦ elim (Bool-cases (is_lt (compare_location_key b a))) [
    | inl swapped ↦
        let e' = rw (clear, swapped) at e in
        let p : first ≡ b = cc (e') in
        let q : second ≡ a = cc (e') in
        record { disjoint = rw (p, q) (overlaps_sym b a ∙ clear); sides = inr (p, q) }
    | inr kept ↦
        let e' = rw (clear, kept) at e in
        let p : first ≡ a = cc (e') in
        let q : second ≡ b = cc (e') in record { disjoint = rw (p, q) clear; sides = inl (p, q) }
  ]
]
