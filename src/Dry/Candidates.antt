-- ===== src/Dry/Candidates.antt =====
-- crates/analysis-dry/src/lib.rs: `CandidateBuilder`, which compares the occurrences of each window
-- and extends the equal ones to maximal regions.
pub mod Steps
pub mod Clone
pub mod Sound
use reporigor.Dry.Fingerprint.{Fingerprint}
use reporigor.Dry.Limits.{DryError, CandidateWork, consume}
use reporigor.Dry.Tokens.{TokenRecord, TokenPair, token_at, windows_equal, extend_match}
use reporigor.Dry.Regions.{Region, covered, remember_extended_region}
use reporigor.Dry.Locations.{Location, Duplicate, ordered_disjoint_locations, compare_duplicates}
use reporigor.Dry.Identity.{normalized_evidence, exact_clone_group_id, exact_duplicate}
use reporigor.Prelude.Order.{
  Ord, nat_ord, list_ord, pair_ord, lookup, map_insert, sort_by, sort_with,
}
use reporigor.Prelude.{
  ℕ, ◌+◌, ◌-◌, Bool, none, some, List, [], ◌∷◌, map, ltb, leb, if◌then◌else◌, saturating_add,
  length, keep, Text, take, drop, get_or, Result, ◌>>=◌, ◌>>◌, ok,
}

pub record Occurrence : Type 0 where
  pub file_index : ℕ
  pub start : ℕ

-- The file indices, whether the right start is the later one, and how far the starts are apart.
abbrev pub Diagonal : Type 0
Diagonal = ℕ × (ℕ × (ℕ × ℕ))

abbrev pub ExactCandidateKey : Type 0
ExactCandidateKey = Text × (ℕ × (Text × (ℕ × ℕ)))

pub record CandidateBuilder : Type 0 where
  pub files : List Text
  pub token_sets : List (List TokenRecord)
  pub min_tokens : ℕ
  pub candidates : List (ExactCandidateKey × Duplicate)
  pub extended_regions : List (Diagonal × List Region)
  pub work : CandidateWork

-- `self.token_sets[index]` and `self.files[index]`; an index out of range, a panic, is an empty one.
abbrev pub tokens_of : CandidateBuilder → ℕ → List TokenRecord
tokens_of b index = get_or b.token_sets index []

abbrev pub file_of : CandidateBuilder → ℕ → Text
file_of b index = get_or b.files index []

abbrev pub token_pair : CandidateBuilder → Occurrence → Occurrence → TokenPair
token_pair b left right = record {
  left = tokens_of b left.file_index;
  left_start = left.start;
  right = tokens_of b right.file_index;
  right_start = right.start;
}

-- The flag `forward` is 1 or 0.
unfoldable pub diagonal_key : Occurrence → Occurrence → Diagonal
diagonal_key left right =
    if leb left.start right.start
    then (left.file_index, (right.file_index, (1, right.start - left.start)))
    else (left.file_index, (right.file_index, (0, left.start - right.start)))

-- `extended_regions.get(&diagonal)`, without a region where there is no entry.
unfoldable pub regions_of : CandidateBuilder → Diagonal → List Region
regions_of b diagonal = elim (lookup diagonal b.extended_regions) [
  | none ↦ []
  | some regions ↦ regions
]

unfoldable pub already_extended : CandidateBuilder → Diagonal → ℕ → Bool
unfolding regions_of covered
already_extended b diagonal start = covered (regions_of b diagonal) start

unfoldable pub extend_region :
    CandidateBuilder
    → Diagonal
    → Occurrence
    → Occurrence
    → Result DryError ((ℕ × ℕ × ℕ) × CandidateBuilder)
unfolding extend_match regions_of remember_extended_region
extend_region b diagonal left right = do
  ((left_start, right_start, size), work) ←
      extend_match (token_pair b left right) b.min_tokens b.work
  ok (
    (left_start, right_start, size),
    record b {
      work = work;
      extended_regions =
          map_insert diagonal
            (remember_extended_region (regions_of b diagonal) left_start
              (saturating_add left_start (size - b.min_tokens)))
            b.extended_regions;
    },
  )

unfoldable pub location : Text → List TokenRecord → ℕ → ℕ → Location
location file tokens start size = record {
  file = file;
  start_line = (token_at tokens start).line;
  end_line = (token_at tokens (start + size - 1)).line;
  stable_symbol = none;
  start_token = start;
  end_token = start + size;
}

abbrev pub exact_candidate_key : Location → Location → ℕ → ExactCandidateKey
exact_candidate_key first second size =
    (first.file, (first.start_token, (second.file, (second.start_token, size))))

-- `entry(key).or_insert_with(|| duplicate)`
unfoldable pub insert_new {ℓ κ} :
    {K : Type ℓ} {V : Type κ} ⦃o : Ord K⦄ → K → V → List (K × V) → List (K × V)
unfolding lookup map_insert
insert_new key value map = elim (lookup key map) [ none ↦ map_insert key value map | some _ ↦ map ]

-- The values of the tokens of a region.
abbrev pub values_in : List TokenRecord → ℕ → ℕ → List Text
values_in tokens start size =
    map (λ (token : TokenRecord). token.value) (take size (drop start tokens))

-- A fingerprint compares as its two lanes in order.
abbrev pub lanes : Fingerprint × List Occurrence → ℕ × ℕ
lanes (fingerprint, _) = (fingerprint.first, fingerprint.second)

module _ (sha256 : Text → Text) where
  unfoldable pub insert_region :
      CandidateBuilder → Occurrence → Occurrence → ℕ × ℕ × ℕ → CandidateBuilder
  unfolding location ordered_disjoint_locations normalized_evidence exact_clone_group_id insert_new
      exact_duplicate
  insert_region b left right (left_start, right_start, size) =
      let left_tokens = tokens_of b left.file_index in
      let right_tokens = tokens_of b right.file_index in
      elim (ordered_disjoint_locations
        (location (file_of b left.file_index) left_tokens left_start size)
        (location (file_of b right.file_index) right_tokens right_start size)) [
          | none ↦ b
          | some (first, second) ↦
              let evidence = normalized_evidence (values_in left_tokens left_start size) in
              let id = exact_clone_group_id sha256 (first ∷ second ∷ []) evidence in
              record b {
                candidates =
                    insert_new (exact_candidate_key first second size)
                      (exact_duplicate size (first ∷ second ∷ []) id) b.candidates;
              }
        ]

  unfoldable pub process_pair :
      CandidateBuilder → Occurrence → Occurrence → Result DryError CandidateBuilder
  unfolding consume already_extended windows_equal extend_region insert_region diagonal_key
  process_pair b left right = do
    work ← consume b.work 1
    let diagonal = diagonal_key left right
    if already_extended b diagonal left.start then ok (record b { work = work }) else (do
      (equal, compared) ← windows_equal (token_pair b left right) b.min_tokens work
      if equal
          then (do
            (region, extended) ← extend_region (record b { work = compared }) diagonal left right
            ok (insert_region extended left right region))
          else ok (record b { work = compared }))

  -- The inner and the outer loop of `process_bucket`.
  unfoldable pub process_rights :
      CandidateBuilder → Occurrence → List Occurrence → Result DryError CandidateBuilder
  unfolding process_pair
  process_rights b left [] = ok b
  process_rights b left (right ∷ rights) = do
    next ← process_pair b left right
    process_rights next left rights

  unfoldable pub process_bucket :
      CandidateBuilder → List Occurrence → Result DryError CandidateBuilder
  unfolding process_rights
  process_bucket b [] = ok b
  process_bucket b (left ∷ rights) = do
    next ← process_rights b left rights
    process_bucket next rights

  unfoldable pub process_buckets :
      CandidateBuilder → List (Fingerprint × List Occurrence) → Result DryError CandidateBuilder
  unfolding process_bucket
  process_buckets b [] = ok b
  process_buckets b ((_, occurrences) ∷ buckets) = do
    next ← process_bucket b occurrences
    process_buckets next buckets

  unfoldable pub build :
      CandidateBuilder → List (Fingerprint × List Occurrence) → Result DryError (List Duplicate)
  unfolding process_buckets compare_duplicates
  build b windows = do
    built ←
        process_buckets b
          (sort_by lanes (keep (λ (w : Fingerprint × List Occurrence). ltb 1 (length w.1)) windows))
    ok (
        sort_with compare_duplicates
          (map (λ (c : ExactCandidateKey × Duplicate). c.1) built.candidates))
