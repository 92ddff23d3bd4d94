-- ===== src/Dry/Shingles.antt =====
-- crates/analysis-dry/src/lib.rs: the index of the functions' shingles, and the candidate pairs.
use reporigor.Dry.Limits.{
  DryError, DryWorkBudget, CandidateWork, ensure_within_budget, fingerprint_index_capacity,
  fingerprint_buckets,
}
use reporigor.Dry.Tokens.{slice, both_windows, sequences_equal}
use reporigor.Dry.Fingerprint.{Fingerprint, for_each_fingerprinted_window, stable_token_fingerprint}
use reporigor.Dry.Exact.{same_fingerprint}
use reporigor.Dry.Dice.{ShingleIdentity, compare_shingle}
use reporigor.Prelude.Order.{nat_ord, pair_ord, sort_with}
use reporigor.Prelude.{
  ℕ, zero, suc, ◌+◌, ◌-◌, Bool, false, ◌&&◌, not, Option, none, some, List, [], ◌∷◌, ◌++◌, ltb,
  ◌==◌, if◌then◌else◌, saturating_add, length, Text, text_eq, get_or, Result, ◌>>=◌, ◌>>◌, ok,
}

pub record FunctionShingle : Type 0 where
  pub function_index : ℕ
  pub start : ℕ

pub record ShingleBucket : Type 0 where
  pub representative : FunctionShingle
  pub functions : List ℕ

-- The hash map from fingerprints to their variants; its order is not looked at.
abbrev pub FunctionShingleIndex : Type 0
FunctionShingleIndex = List (Fingerprint × List ShingleBucket)

-- What the closure of `build_function_shingle_index` changes; `shingles` are those of the function
-- that is being indexed.
pub record Indexing : Type 0 where
  pub index : FunctionShingleIndex
  pub exact_bucket_count : ℕ
  pub shingles : List ShingleIdentity
  pub work : CandidateWork

-- `functions[index].record.normalized_tokens`
abbrev pub tokens_at : List (List Text) → ℕ → List Text
tokens_at functions index = get_or functions index []

-- `FunctionShingleComparator::equal`, over the tokens of the functions.
unfoldable pub shingles_equal :
    List (List Text)
    → FunctionShingle
    → FunctionShingle
    → ℕ
    → CandidateWork
    → Result DryError (Bool × CandidateWork)
unfolding sequences_equal
shingles_equal functions left right size work =
    both_windows text_eq (slice (tokens_at functions left.function_index) left.start size)
      (slice (tokens_at functions right.function_index) right.start size) work

-- The search for a variant with the same tokens, from `candidate_variant` on.
unfoldable pub find_variant :
    List (List Text)
    → FunctionShingle
    → ℕ
    → ℕ
    → List ShingleBucket
    → CandidateWork
    → Result DryError (Option ℕ × CandidateWork)
unfolding shingles_equal
find_variant functions shingle size candidate_variant [] work = ok (none, work)
find_variant functions shingle size candidate_variant (bucket ∷ variants) work = do
  (equal, spent) ← shingles_equal functions bucket.representative shingle size work
  if equal
      then ok (some candidate_variant, spent)
      else find_variant functions shingle size (candidate_variant + 1) variants spent

unfoldable pub variants_of : Fingerprint → FunctionShingleIndex → List ShingleBucket
variants_of key [] = []
variants_of key ((other, variants) ∷ index) =
    if same_fingerprint other key then variants else variants_of key index

unfoldable pub set_variants :
    Fingerprint → List ShingleBucket → FunctionShingleIndex → FunctionShingleIndex
set_variants key variants [] = (key, variants) ∷ []
set_variants key variants ((other, old) ∷ index) =
    if same_fingerprint other key
    then (key, variants) ∷ index
    else (other, old) ∷ set_variants key variants index

-- `bucket.functions.last().copied() != Some(function_index)`
abbrev pub last_is : ℕ → List ℕ → Bool
last_is n [] = false
last_is n (m ∷ []) = m == n
last_is n (_ ∷ m ∷ ms) = last_is n (m ∷ ms)

unfoldable pub push_function : ℕ → ℕ → ShingleBucket → ShingleBucket
push_function most function_index bucket =
    if not (last_is function_index bucket.functions) && ltb (length bucket.functions) most
    then record bucket { functions = bucket.functions ++ (function_index ∷ []) }
    else bucket

-- `variants[variant]` after `push_function`.
abbrev pub update_variant : ℕ → ℕ → List ShingleBucket → ℕ → List ShingleBucket
update_variant most function_index [] variant = []
update_variant most function_index (bucket ∷ variants) zero =
    push_function most function_index bucket ∷ variants
update_variant most function_index (bucket ∷ variants) (suc variant) =
    bucket ∷ update_variant most function_index variants variant

-- The variant of a shingle: the one found, or a new one at the end, which the budget must allow.
unfoldable pub variant_for :
    FunctionShingle
    → DryWorkBudget
    → ℕ
    → List ShingleBucket
    → Option ℕ
    → Result DryError (ℕ × List ShingleBucket × ℕ)
unfolding ensure_within_budget
variant_for shingle budget exact_bucket_count variants (some variant) =
    ok (variant, variants, exact_bucket_count)
variant_for shingle budget exact_bucket_count variants none =
    let required = saturating_add exact_bucket_count 1 in
    let fresh : ShingleBucket = record { representative = shingle; functions = [] } in
    (do
      ensure_within_budget fingerprint_buckets budget.max_fingerprint_buckets required
      ok (length variants, variants ++ (fresh ∷ []), required))

-- The closure over one window of a function.
unfoldable pub accept_shingle :
    List (List Text)
    → ℕ
    → ℕ
    → DryWorkBudget
    → ℕ
    → ℕ
    → Fingerprint
    → Indexing
    → Result DryError Indexing
unfolding find_variant variants_of set_variants variant_for push_function
accept_shingle functions size most budget function_index start fingerprint s =
    let shingle : FunctionShingle = record { function_index = function_index; start = start } in
    let variants = variants_of fingerprint s.index in
    (do
      (found, spent) ← find_variant functions shingle size 0 variants s.work
      (variant, grown, count) ← variant_for shingle budget s.exact_bucket_count variants found
      ok (record {
        index = set_variants fingerprint (update_variant most function_index grown variant) s.index;
        exact_bucket_count = count;
        shingles = s.shingles ++ (record { fingerprint = fingerprint; variant = variant } ∷ []);
        work = spent;
      }))

-- The loop over the functions, from `function_index` on; each function's shingles are sorted.
unfoldable pub index_functions :
    List (List Text)
    → ℕ
    → ℕ
    → DryWorkBudget
    → ℕ
    → List (List Text)
    → Indexing
    → Result DryError (List (List ShingleIdentity) × Indexing)
unfolding accept_shingle for_each_fingerprinted_window stable_token_fingerprint
index_functions functions size most budget function_index [] s = ok ([], s)
index_functions functions size most budget function_index (tokens ∷ rest) s = do
  indexed ←
      for_each_fingerprinted_window tokens size stable_token_fingerprint
        (accept_shingle functions size most budget function_index) (record s { shingles = [] })
  (more, last) ← index_functions functions size most budget (function_index + 1) rest indexed
  ok (sort_with compare_shingle indexed.shingles ∷ more, last)

-- The fold over the functions that counts their windows.
unfoldable pub required_windows : ℕ → ℕ → List (List Text) → ℕ
required_windows size total [] = total
required_windows size total (tokens ∷ rest) =
    required_windows size (saturating_add total (saturating_add (length tokens - size) 1)) rest

unfoldable pub build_function_shingle_index :
    List (List Text)
    → ℕ
    → ℕ
    → DryWorkBudget
    → CandidateWork
    → Result DryError (List (List ShingleIdentity) × Indexing)
unfolding required_windows fingerprint_index_capacity index_functions
build_function_shingle_index functions size most budget work = do
  _ ← fingerprint_index_capacity (required_windows size 0 functions) budget
  index_functions functions size most budget 0 functions
      (record { index = []; exact_bucket_count = 0; shingles = []; work = work })
