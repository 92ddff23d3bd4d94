-- ===== src/Dry/CandidatePairs.antt =====
-- crates/analysis-dry/src/lib.rs: the pairs of functions that share a shingle, and the components
-- that those accepted form.
pub mod Inside
pub mod Connected
mod Samples
use reporigor.Dry.DisjointSet.{DisjointSet}
use reporigor.Dry.Limits.{DryConfig, work_budget, DryError, CandidateWork, Floats}
use reporigor.Dry.Fingerprint.{Fingerprint}
use reporigor.Dry.Dice.{ShingleIdentity}
use reporigor.Dry.Shingles.{ShingleBucket, FunctionShingleIndex, build_function_shingle_index}
use reporigor.Dry.Pairs.{add_bucket, AcceptedPair, accept_function_pairs}
use reporigor.Prelude.Order.{nat_ord, pair_ord, sort_by}
use reporigor.Prelude.{ℕ, List, [], ◌∷◌, length, Text, Result, ◌>>=◌, ◌>>◌, ok}

-- The loops of `function_candidate_pairs`, over the variants and over the fingerprints in order.
unfoldable pub pairs_of_variants :
    Floats
    → List (List ShingleIdentity)
    → ℕ
    → List ShingleBucket
    → List (ℕ × ℕ)
    → CandidateWork
    → Result DryError (List (ℕ × ℕ) × CandidateWork)
unfolding add_bucket
pairs_of_variants f shingles threshold [] pairs work = ok (pairs, work)
pairs_of_variants f shingles threshold (bucket ∷ variants) pairs work = do
  (more, spent) ← add_bucket f shingles threshold bucket.functions pairs work
  pairs_of_variants f shingles threshold variants more spent

unfoldable pub pairs_of_index :
    Floats
    → List (List ShingleIdentity)
    → ℕ
    → FunctionShingleIndex
    → List (ℕ × ℕ)
    → CandidateWork
    → Result DryError (List (ℕ × ℕ) × CandidateWork)
unfolding pairs_of_variants
pairs_of_index f shingles threshold [] pairs work = ok (pairs, work)
pairs_of_index f shingles threshold ((_, variants) ∷ index) pairs work = do
  (more, spent) ← pairs_of_variants f shingles threshold variants pairs work
  pairs_of_index f shingles threshold index more spent

abbrev pub index_key : Fingerprint × List ShingleBucket → ℕ × ℕ
index_key (fingerprint, _) = (fingerprint.first, fingerprint.second)

unfoldable pub function_candidate_pairs :
    Floats
    → FunctionShingleIndex
    → List (List ShingleIdentity)
    → ℕ
    → CandidateWork
    → Result DryError (List (ℕ × ℕ) × CandidateWork)
unfolding pairs_of_index
function_candidate_pairs f index shingles threshold work =
    pairs_of_index f shingles threshold (sort_by index_key index) [] work

-- The first three steps of `find_function_duplicates`, over the tokens of the eligible functions: the
-- shingles, the candidate pairs, and the pairs that are accepted.
unfoldable pub function_components :
    Floats
    → List (List Text)
    → DryConfig
    → Result DryError ((DisjointSet × List AcceptedPair) × CandidateWork)
unfolding build_function_shingle_index function_candidate_pairs accept_function_pairs
function_components f tokens config = do
  (shingles, indexed) ←
      build_function_shingle_index tokens config.shingle_tokens config.max_occurrences_per_window
        (work_budget config) (record { used = 0; limit = config.max_candidate_work })
  (candidates, work) ←
      function_candidate_pairs f indexed.index shingles config.similarity_threshold indexed.work
  accept_function_pairs f (length tokens) candidates shingles config.similarity_threshold work
