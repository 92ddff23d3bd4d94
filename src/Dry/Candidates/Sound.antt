-- ===== src/Dry/Candidates/Sound.antt =====
-- Every candidate that the builder makes is a clone.
use reporigor.Dry.Fingerprint.{Fingerprint}
use reporigor.Dry.Candidates.{
  CandidateBuilder, Occurrence, ExactCandidateKey, token_pair, tokens_of, file_of, location,
  insert_region, insert_new, process_pair, process_rights, diagonal_key, process_bucket, build,
  process_buckets, lanes,
}
use reporigor.Dry.Candidates.Clone.{IsClone, input, IsSound, ordered_disjoint_locations-OrderedFrom}
use reporigor.Dry.Candidates.Steps.{process_pair-Processed, remembered, skipped, differed, extended}
use reporigor.Dry.Locations.{Duplicate, ordered_disjoint_locations, compare_duplicates}
use reporigor.Dry.Tokens.Extend.{IsMaximalMatch, extend_match-IsMaximalMatch}
use reporigor.Prelude.Order.{
  Ord, lookup, All-map_insert, nat_ord, list_ord, pair_ord, All-sort_with, sort_by,
}
use reporigor.Prelude.{
  ℕ, ◌≡◌, refl, subst, ◌∙◌, inl, inr, List, [], ◌∷◌, map, ltb, Option-cases, length, keep, All,
  Text, >>=-eq-ok, ok_injective, ok,
}

record Step (b b' : CandidateBuilder) : Type 0 where
  same_input : input b' ≡ input b
  sound : IsSound b → IsSound b'

Step-trans : {a b c : CandidateBuilder} → Step a b → Step b c → Step a c
Step-trans s t = record {
  same_input = t.same_input ∙ s.same_input;
  sound = λ h. t.sound (s.sound h);
}

module _ {ℓ κ} {K : Type ℓ} {V : Type κ} ⦃o : Ord K⦄ where
  All-insert_new :
      (P : K × V → Type 0) (key : K) (value : V) (entries : List (K × V))
      → P (key, value)
      → All P entries
      → All P (insert_new key value entries)
  unfolding insert_new
  All-insert_new P key value entries h a = elim (Option-cases (lookup key entries)) [
    | inl gone ↦ rw (gone, insert_new) (All-map_insert P key value entries h a)
    | inr (_, old) ↦ rw (old, insert_new) a
  ]

module _ (sha256 : Text → Text) where
  insert_region-Step :
      (b : CandidateBuilder) (left right : Occurrence) (l r size : ℕ)
      → IsMaximalMatch (token_pair b left right) b.min_tokens l r size
      → Step b (insert_region sha256 b left right (l, r, size))
  unfolding insert_region
  insert_region-Step b left right l r size m =
      let a = location (file_of b left.file_index) (tokens_of b left.file_index) l size in
      let a' = location (file_of b right.file_index) (tokens_of b right.file_index) r size in
      elim (Option-cases (ordered_disjoint_locations a a')) [
        | inl clash ↦ rw (clash, insert_region) (record { same_input = refl; sound = λ h. h })
        | inr ((first, second), e) ↦
            let o = ordered_disjoint_locations-OrderedFrom a a' first second e in
            rw (e, insert_region)
              (record {
                same_input = refl;
                sound = λ h.
                    All-insert_new (λ (c : ExactCandidateKey × Duplicate). IsClone (input b) c.1) _
                      _ b.candidates
                      (record {
                        left = left;
                        right = right;
                        left_start = l;
                        right_start = r;
                        maximal = m;
                        first = first;
                        second = second;
                        both = refl;
                        disjoint = o.disjoint;
                        sides = o.sides;
                      })
                      h;
              })
      ]

  process_pair-Step :
      (b : CandidateBuilder) (left right : Occurrence) {b' : CandidateBuilder}
      → process_pair sha256 b left right ≡ ok b'
      → Step b b'
  process_pair-Step b left right {b'} e = elim (process_pair-Processed sha256 b left right b' e) [
    | skipped work _ made ↦ subst (Step b) made (record { same_input = refl; sound = λ h. h })
    | differed _ work _ made ↦ subst (Step b) made (record { same_input = refl; sound = λ h. h })
    | extended before compared work l r size same found made ↦
        let m =
          extend_match-IsMaximalMatch (token_pair b left right) b.min_tokens before compared same
            found in
        let grown = remembered b (diagonal_key left right) l size work in
        let s = insert_region-Step grown left right l r size m in
        subst (Step b) made (record { same_input = s.same_input; sound = s.sound })
  ]

  process_rights-Step :
      (b : CandidateBuilder) (left : Occurrence) (rights : List Occurrence) {b' : CandidateBuilder}
      → process_rights sha256 b left rights ≡ ok b'
      → Step b b'
  unfolding process_rights
  process_rights-Step b left [] e =
      subst (Step b) (ok_injective _ _ e) (record { same_input = refl; sound = λ h. h })
  process_rights-Step b left (right ∷ rights) e =
      let (next, first, e1) = >>=-eq-ok (process_pair sha256 b left right) _ e in
      Step-trans (process_pair-Step b left right first) (process_rights-Step next left rights e1)

  process_bucket-Step :
      (b : CandidateBuilder) (occurrences : List Occurrence) {b' : CandidateBuilder}
      → process_bucket sha256 b occurrences ≡ ok b'
      → Step b b'
  unfolding process_bucket
  process_bucket-Step b [] e =
      subst (Step b) (ok_injective _ _ e) (record { same_input = refl; sound = λ h. h })
  process_bucket-Step b (left ∷ rights) e =
      let (next, first, e1) = >>=-eq-ok (process_rights sha256 b left rights) _ e in
      Step-trans (process_rights-Step b left rights first) (process_bucket-Step next rights e1)

  process_buckets-Step :
      (b : CandidateBuilder) (buckets : List (Fingerprint × List Occurrence))
      {b' : CandidateBuilder}
      → process_buckets sha256 b buckets ≡ ok b'
      → Step b b'
  unfolding process_buckets
  process_buckets-Step b [] e =
      subst (Step b) (ok_injective _ _ e) (record { same_input = refl; sound = λ h. h })
  process_buckets-Step b ((key, occurrences) ∷ buckets) e =
      let (next, first, e1) = >>=-eq-ok (process_bucket sha256 b occurrences) _ e in
      Step-trans (process_bucket-Step b occurrences first) (process_buckets-Step next buckets e1)

  All-values :
      (P : Duplicate → Type 0) (entries : List (ExactCandidateKey × Duplicate))
      → All (λ (c : ExactCandidateKey × Duplicate). P c.1) entries
      → All P (map (λ (c : ExactCandidateKey × Duplicate). c.1) entries)
  All-values P [] h = tt
  All-values P (c ∷ cs) h = (h.0, All-values P cs h.1)

  -- What is built from a builder whose candidates are clones are clones, of its own input.
  pub build-IsClone :
      (b : CandidateBuilder) (windows : List (Fingerprint × List Occurrence)) {out : List Duplicate}
      → IsSound b
      → build sha256 b windows ≡ ok out
      → All (IsClone (input b)) out
  unfolding build
  build-IsClone b windows {out} h e =
      let buckets =
        sort_by lanes (keep (λ (w : Fingerprint × List Occurrence). ltb 1 (length w.1)) windows) in
      let (built, made, e1) = >>=-eq-ok (process_buckets sha256 b buckets) _ e in
      let s = process_buckets-Step b buckets made in
      let all =
        All-sort_with compare_duplicates (IsClone (input built)) _
          (All-values (IsClone (input built)) built.candidates (s.sound h)) in
      subst (λ (ds : List Duplicate). All (IsClone (input b)) ds) (ok_injective _ _ e1)
        (rw s.same_input at all)
