-- ===== src/Dry/CandidatePairs/Inside.antt =====
-- The candidate pairs are pairs of functions that there are.
use reporigor.Dry.Pairs.{add_pair, add_rights, add_bucket, shingles_of}
use reporigor.Dry.CandidatePairs.{
  function_candidate_pairs, pairs_of_index, pairs_of_variants, sort_by, index_key,
}
use reporigor.Dry.Fingerprint.Keeps.{for_each_fingerprinted_window-keeps}
use reporigor.Dry.Dice.{ShingleIdentity, can_reach_dice}
use reporigor.Dry.Exact.{same_fingerprint}
use reporigor.Dry.Limits.{
  DryWorkBudget, ensure_within_budget, fingerprint_buckets, CandidateWork, Floats,
  fingerprint_index_capacity, consume,
}
use reporigor.Dry.Fingerprint.{Fingerprint, for_each_fingerprinted_window, stable_token_fingerprint}
use reporigor.Dry.Shingles.{
  ShingleBucket, FunctionShingle, FunctionShingleIndex, Indexing, variants_of, set_variants,
  push_function, update_variant, variant_for, accept_shingle, find_variant, last_is,
  index_functions, build_function_shingle_index, required_windows,
}
use reporigor.Prelude.Order.{nat_ord, pair_ord, All-sort_by, contains, All-set_insert}
use reporigor.Prelude.{
  ℕ, zero, suc, ◌+◌, ◌≤◌, ◌<◌, ◌≡◌, subst, inl, inr, ◌&&◌, not, Option, none, some, List, [], ◌∷◌,
  ◌++◌, arith, ltb, Bool-cases, saturating_add, length, All, Text, >>=-eq-ok, ok_injective, ok,
}

module _ (n : ℕ) where
  abbrev pub Below : ℕ → Type 0
  Below index = index < n

  abbrev BucketInside : ShingleBucket → Type 0
  BucketInside bucket = All Below bucket.functions

  abbrev pub IndexInside : FunctionShingleIndex → Type 0
  IndexInside = All (λ (entry : Fingerprint × List ShingleBucket). All BucketInside entry.1)

  variants_of-Inside :
      (key : Fingerprint) (index : FunctionShingleIndex)
      → IndexInside index
      → All BucketInside (variants_of key index)
  unfolding variants_of
  variants_of-Inside key [] h = tt
  variants_of-Inside key ((other, variants) ∷ index) h =
      elim (Bool-cases (same_fingerprint other key)) [
        | inl same ↦ rw same h.0
        | inr different ↦ rw different (variants_of-Inside key index h.1)
      ]

  set_variants-Inside :
      (key : Fingerprint) (variants : List ShingleBucket) (index : FunctionShingleIndex)
      → All BucketInside variants
      → IndexInside index
      → IndexInside (set_variants key variants index)
  unfolding set_variants
  set_variants-Inside key variants [] h k = (h, tt)
  set_variants-Inside key variants ((other, old) ∷ index) h k =
      elim (Bool-cases (same_fingerprint other key)) [
        | inl same ↦ rw same (h, k.1)
        | inr different ↦ rw different (k.0, set_variants-Inside key variants index h k.1)
      ]

  All-last :
      {A : Type 0} (P : A → Type 0) (xs : List A) (x : A) → All P xs → P x → All P (xs ++ (x ∷ []))
  All-last P [] x h k = (k, tt)
  All-last P (y ∷ ys) x h k = (h.0, All-last P ys x h.1 k)

  push_function-Inside :
      (most index : ℕ) (bucket : ShingleBucket)
      → Below index
      → BucketInside bucket
      → BucketInside (push_function most index bucket)
  unfolding push_function
  push_function-Inside most index bucket h k =
      elim (Bool-cases
        (not (last_is index bucket.functions) && ltb (length bucket.functions) most)) [
          | inl pushed ↦ rw pushed (All-last Below bucket.functions index k h)
          | inr kept ↦ rw kept k
        ]

  update_variant-Inside :
      (most index : ℕ) (variants : List ShingleBucket) (variant : ℕ)
      → Below index
      → All BucketInside variants
      → All BucketInside (update_variant most index variants variant)
  update_variant-Inside most index [] variant h k = tt
  update_variant-Inside most index (b ∷ bs) zero h k =
      (push_function-Inside most index b h k.0, k.1)
  update_variant-Inside most index (b ∷ bs) (suc variant) h k =
      (k.0, update_variant-Inside most index bs variant h k.1)

  variant_for-Inside :
      (shingle : FunctionShingle) (budget : DryWorkBudget) (count : ℕ)
      (variants : List ShingleBucket) (found : Option ℕ) {out : ℕ × List ShingleBucket × ℕ}
      → All BucketInside variants
      → variant_for shingle budget count variants found ≡ ok out
      → All BucketInside out.1
  unfolding variant_for
  variant_for-Inside shingle budget count variants (some v) h e =
      subst (λ (o : ℕ × List ShingleBucket × ℕ). All BucketInside o.1) (ok_injective _ _ e) h
  variant_for-Inside shingle budget count variants none h e =
      let (_, _, e1) =
        >>=-eq-ok
          (ensure_within_budget fingerprint_buckets budget.max_fingerprint_buckets
            (saturating_add count 1))
          _ e in
      subst (λ (o : ℕ × List ShingleBucket × ℕ). All BucketInside o.1) (ok_injective _ _ e1)
        (All-last BucketInside variants _ h tt)

  accept_shingle-Inside :
      (functions : List (List Text)) (size most : ℕ) (budget : DryWorkBudget) (index start : ℕ)
      (key : Fingerprint) (s s' : Indexing)
      → Below index
      → IndexInside s.index
      → accept_shingle functions size most budget index start key s ≡ ok s'
      → IndexInside s'.index
  unfolding accept_shingle
  accept_shingle-Inside functions size most budget index start key s s' b h e =
      let ((found, spent), _, e1) =
        >>=-eq-ok (find_variant functions _ size 0 (variants_of key s.index) s.work) _ e in
      let ((variant, grown, count), made, e2) =
        >>=-eq-ok (variant_for _ budget s.exact_bucket_count (variants_of key s.index) found) _
          e1 in
      subst (λ (o : Indexing). IndexInside o.index) (ok_injective _ _ e2)
        (set_variants-Inside key _ s.index
          (update_variant-Inside most index grown variant b
            (variant_for-Inside _ budget _ _ found (variants_of-Inside key s.index h) made))
          h)

  index_functions-Inside :
      (functions : List (List Text)) (size most : ℕ) (budget : DryWorkBudget) (index : ℕ)
      (rest : List (List Text)) (s : Indexing) {shingles : List (List ShingleIdentity)}
      {last : Indexing}
      → index + length rest ≤ n
      → IndexInside s.index
      → index_functions functions size most budget index rest s ≡ ok (shingles, last)
      → IndexInside last.index
  unfolding index_functions
  index_functions-Inside functions size most budget index [] s room h e =
      subst (λ (o : List (List ShingleIdentity) × Indexing). IndexInside o.1.index)
        (ok_injective _ _ e) h
  index_functions-Inside functions size most budget index (tokens ∷ rest) s room h e =
      let (indexed, visited, e1) =
        >>=-eq-ok
          (for_each_fingerprinted_window tokens size stable_token_fingerprint
            (accept_shingle functions size most budget index) (record s { shingles = [] }))
          _ e in
      let inside =
        for_each_fingerprinted_window-keeps (λ (o : Indexing). IndexInside o.index)
          (accept_shingle functions size most budget index)
          (λ start key s s' h e.
            accept_shingle-Inside functions size most budget index start key s s'
              (omega (arith, room)) h e)
          tokens size stable_token_fingerprint (record s { shingles = [] }) h visited in
      let ((more, last), others, e2) =
        >>=-eq-ok (index_functions functions size most budget (index + 1) rest indexed) _ e1 in
      subst (λ (o : List (List ShingleIdentity) × Indexing). IndexInside o.1.index)
        (ok_injective _ _ e2)
        (index_functions-Inside functions size most budget (index + 1) rest indexed (omega arith)
          inside others)

  abbrev pub PairInside : ℕ × ℕ → Type 0
  PairInside (left, right) = (left < n) × (right < n)

  abbrev PairsInside : List (ℕ × ℕ) × CandidateWork → Type 0
  PairsInside out = All PairInside out.0

  module _ (f : Floats) (shingles : List (List ShingleIdentity)) (threshold : ℕ) where
    add_pair-Inside :
        (left right : ℕ) (pairs : List (ℕ × ℕ)) (work : CandidateWork)
        {out : List (ℕ × ℕ) × CandidateWork}
        → Below left
        → Below right
        → All PairInside pairs
        → add_pair f shingles threshold left right pairs work ≡ ok out
        → PairsInside out
    unfolding add_pair
    add_pair-Inside left right pairs work hl hr h e =
        elim (Bool-cases (
          can_reach_dice f (length (shingles_of shingles left))
            (length (shingles_of shingles right)) threshold
          && not (contains (left, right) pairs))) [
            | inl added ↦
                let (spent, _, e1) = >>=-eq-ok (consume work 1) _ (rw added at e) in
                subst PairsInside (ok_injective _ _ e1)
                  (All-set_insert PairInside (left, right) pairs (hl, hr) h)
            | inr known ↦ subst PairsInside (ok_injective _ _ (rw known at e)) h
          ]

    add_rights-Inside :
        (left : ℕ) (rights : List ℕ) (pairs : List (ℕ × ℕ)) (work : CandidateWork)
        {out : List (ℕ × ℕ) × CandidateWork}
        → Below left
        → All Below rights
        → All PairInside pairs
        → add_rights f shingles threshold left rights pairs work ≡ ok out
        → PairsInside out
    unfolding add_rights
    add_rights-Inside left [] pairs work hl hr h e = subst PairsInside (ok_injective _ _ e) h
    add_rights-Inside left (right ∷ rights) pairs work hl hr h e =
        let ((more, spent), first, e1) =
          >>=-eq-ok (add_pair f shingles threshold left right pairs work) _ e in
        add_rights-Inside left rights more spent hl hr.1
          (add_pair-Inside left right pairs work hl hr.0 h first) e1

    add_bucket-Inside :
        (functions : List ℕ) (pairs : List (ℕ × ℕ)) (work : CandidateWork)
        {out : List (ℕ × ℕ) × CandidateWork}
        → All Below functions
        → All PairInside pairs
        → add_bucket f shingles threshold functions pairs work ≡ ok out
        → PairsInside out
    unfolding add_bucket
    add_bucket-Inside [] pairs work b h e = subst PairsInside (ok_injective _ _ e) h
    add_bucket-Inside (left ∷ rights) pairs work b h e =
        let ((more, spent), first, e1) =
          >>=-eq-ok (add_rights f shingles threshold left rights pairs work) _ e in
        add_bucket-Inside rights more spent b.1
          (add_rights-Inside left rights pairs work b.0 b.1 h first) e1

    pairs_of_variants-Inside :
        (variants : List ShingleBucket) (pairs : List (ℕ × ℕ)) (work : CandidateWork)
        {out : List (ℕ × ℕ) × CandidateWork}
        → All BucketInside variants
        → All PairInside pairs
        → pairs_of_variants f shingles threshold variants pairs work ≡ ok out
        → PairsInside out
    unfolding pairs_of_variants
    pairs_of_variants-Inside [] pairs work b h e = subst PairsInside (ok_injective _ _ e) h
    pairs_of_variants-Inside (bucket ∷ variants) pairs work b h e =
        let ((more, spent), first, e1) =
          >>=-eq-ok (add_bucket f shingles threshold bucket.functions pairs work) _ e in
        pairs_of_variants-Inside variants more spent b.1
          (add_bucket-Inside bucket.functions pairs work b.0 h first) e1

    pairs_of_index-Inside :
        (index : FunctionShingleIndex) (pairs : List (ℕ × ℕ)) (work : CandidateWork)
        {out : List (ℕ × ℕ) × CandidateWork}
        → IndexInside index
        → All PairInside pairs
        → pairs_of_index f shingles threshold index pairs work ≡ ok out
        → PairsInside out
    unfolding pairs_of_index
    pairs_of_index-Inside [] pairs work b h e = subst PairsInside (ok_injective _ _ e) h
    pairs_of_index-Inside ((key, variants) ∷ index) pairs work b h e =
        let ((more, spent), first, e1) =
          >>=-eq-ok (pairs_of_variants f shingles threshold variants pairs work) _ e in
        pairs_of_index-Inside index more spent b.1
          (pairs_of_variants-Inside variants pairs work b.0 h first) e1

    pub function_candidate_pairs-Inside :
        (index : FunctionShingleIndex) (work : CandidateWork) {out : List (ℕ × ℕ) × CandidateWork}
        → IndexInside index
        → function_candidate_pairs f index shingles threshold work ≡ ok out
        → PairsInside out
    unfolding function_candidate_pairs
    function_candidate_pairs-Inside index work h e =
        pairs_of_index-Inside (sort_by index_key index) [] work
          (All-sort_by index_key
            (λ (entry : Fingerprint × List ShingleBucket). All BucketInside entry.1) index h)
          tt e

-- Every function in the index that is built is one of those indexed.
pub build_function_shingle_index-Inside :
    (functions : List (List Text)) (size most : ℕ) (budget : DryWorkBudget) (work : CandidateWork)
    {shingles : List (List ShingleIdentity)} {last : Indexing}
    → build_function_shingle_index functions size most budget work ≡ ok (shingles, last)
    → IndexInside (length functions) last.index
unfolding build_function_shingle_index
build_function_shingle_index-Inside functions size most budget work e =
    let (_, _, e1) =
      >>=-eq-ok (fingerprint_index_capacity (required_windows size 0 functions) budget) _ e in
    index_functions-Inside (length functions) functions size most budget 0 functions _ (omega arith)
      tt e1
