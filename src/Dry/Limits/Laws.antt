-- ===== src/Dry/Limits/Laws.antt =====
-- What the validation accepts, what the work budget allows, and how many windows are counted.
use reporigor.Dry.Limits.{
  Floats, DryError, DryConfig, CandidateWork, validate_enhanced_limits, consume, count_from,
  windows_of, zero_bits, one_bits, count_windows,
}
use reporigor.Prelude.{
  ℕ, ◌+◌, ◌-◌, ◌≤◌, ◌<◌, min, ◌≡◌, ◌↔◌, true, false, List, [], ◌∷◌, arith, u64_max, saturating_add,
  length, ok, err,
}

pub record IsValid (f : Floats) (config : DryConfig) : Type 0 where
  pub tokens : 4 ≤ config.min_tokens
  pub groups : 0 < config.max_groups
  pub occurrences : 2 ≤ config.max_occurrences_per_window
  pub windows : (0 < config.max_total_windows) × (config.max_total_windows ≤ 2_000_000)
  pub buckets : (0 < config.max_fingerprint_buckets) × (config.max_fingerprint_buckets ≤ 1_000_000)
  pub work : (0 < config.max_candidate_work) × (config.max_candidate_work ≤ 25_000_000)
  pub statements : 0 < config.min_statements
  pub finite : f.is_finite config.similarity_threshold ≡ true
  pub positive : f.le config.similarity_threshold zero_bits ≡ false
  pub at_most_one : f.lt one_bits config.similarity_threshold ≡ false
  pub shingle : (0 < config.shingle_tokens) × (config.shingle_tokens ≤ config.min_tokens)

-- A configuration is accepted exactly when it is in range: every work limit is positive and at most
-- its compiled ceiling, and the similarity threshold is finite and in (0, 1].
pub validate_enhanced_limits_iff :
    (f : Floats) (config : DryConfig)
    → (validate_enhanced_limits f config ≡ ok tt) ↔ IsValid f config
unfolding validate_enhanced_limits
validate_enhanced_limits_iff f config = (λ h. ground arith, λ h. ground arith)

-- Below the largest `usize` the saturating sum is exact: the amount is charged whole, within the
-- limit, or the limit is too small for it.
pub consume_lem :
    (work : CandidateWork) (amount : ℕ)
    → work.limit < u64_max
    → ((out : CandidateWork)
        → consume work amount ≡ ok out
        → (out.used ≡ work.used + amount) × (out.used ≤ work.limit) × (out.limit ≡ work.limit))
      × ((e : DryError) → consume work amount ≡ err e → work.limit < work.used + amount)
unfolding consume
consume_lem work amount h = (λ out e. ground arith, λ e k. ground arith)

pub total_windows {ℓ} : {A : Type ℓ} → List (List A) → ℕ → ℕ
total_windows [] m = 0
total_windows (tokens ∷ rest) m = length tokens + 1 - m + total_windows rest m

count_from_lem {ℓ} :
    {A : Type ℓ} (total : ℕ) (sets : List (List A)) (m : ℕ)
    → 0 < m
    → total ≤ u64_max
    → count_from total sets m ≡ min (total + total_windows sets m) u64_max
unfolding count_from total_windows
count_from_lem total [] m p h = ground arith
count_from_lem total (tokens ∷ rest) m p h =
    ground (arith, count_from_lem (saturating_add total (windows_of (length tokens) m)) rest m)

-- The windows of at least one token are counted exactly, up to the largest `usize`.
count_windows_lem :
    {A : Type 0} (token_sets : List (List A)) (min_tokens : ℕ)
    → 0 < min_tokens
    → count_windows token_sets min_tokens ≡ min (total_windows token_sets min_tokens) u64_max
unfolding count_windows
count_windows_lem sets m p = omega (arith, count_from_lem 0 sets m p (omega arith))
