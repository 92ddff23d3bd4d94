-- ===== src/Dry/Limits.antt =====
-- crates/analysis-dry/src/lib.rs: the limits of an analysis, their validation, and the work that it
-- may do; and the ceilings of crates/reporigor-core/src/dry_budget.rs.
pub mod Laws
mod Samples
use reporigor.Prelude.{
  ℕ, ◌+◌, ◌-◌, min, Bool, ◌||◌, not, List, [], ◌∷◌, ltb, ◌==◌, if◌then◌else◌, saturating_add,
  length, Result, ◌>>=◌, ◌>>◌, reject_if, ok,
}

-- An `f64` is its bit pattern; what the processor answers about it is a parameter.
pub record Floats : Type 0 where
  pub is_finite : ℕ → Bool
  pub le : ℕ → ℕ → Bool
  pub lt : ℕ → ℕ → Bool
  -- `2.0 * f64::from(shared) / f64::from(total)`
  pub twice_ratio : ℕ → ℕ → ℕ
  -- `f64::min`
  pub smaller : ℕ → ℕ → ℕ

-- `0.0_f64` and `1.0_f64`
abbrev pub zero_bits : ℕ
zero_bits = 0

abbrev pub one_bits : ℕ
one_bits = 0x3ff0000000000000

pub data WorkBudgetKind : Type 0 where
  total_windows : WorkBudgetKind
  fingerprint_buckets : WorkBudgetKind
  candidate_work : WorkBudgetKind

pub data DryError : Type 0 where
  min_tokens_error : ℕ → DryError
  max_groups_error : DryError
  max_occurrences_per_window_error : ℕ → DryError
  min_statements_error : ℕ → DryError
  similarity_threshold_error : ℕ → DryError
  shingle_tokens_error : ℕ → ℕ → DryError
  invalid_work_budget : WorkBudgetKind → ℕ → ℕ → DryError
  work_budget_exceeded : WorkBudgetKind → ℕ → ℕ → DryError

pub record DryConfig : Type 0 where
  pub min_tokens : ℕ
  pub min_statements : ℕ
  pub similarity_threshold : ℕ
  pub shingle_tokens : ℕ
  pub max_groups : ℕ
  pub max_occurrences_per_window : ℕ
  pub max_total_windows : ℕ
  pub max_fingerprint_buckets : ℕ
  pub max_candidate_work : ℕ
  pub fail : Bool

pub record DryWorkBudget : Type 0 where
  pub max_total_windows : ℕ
  pub max_fingerprint_buckets : ℕ
  pub max_candidate_work : ℕ

-- `DryWorkBudget::from(config)`
abbrev pub work_budget : DryConfig → DryWorkBudget
work_budget config = record {
  max_total_windows = config.max_total_windows;
  max_fingerprint_buckets = config.max_fingerprint_buckets;
  max_candidate_work = config.max_candidate_work;
}

abbrev pub hard_max_total_windows : ℕ
hard_max_total_windows = 2_000_000

abbrev pub hard_max_fingerprint_buckets : ℕ
hard_max_fingerprint_buckets = 1_000_000

abbrev pub hard_max_candidate_work : ℕ
hard_max_candidate_work = 25_000_000

abbrev pub least_min_tokens : ℕ
least_min_tokens = 4

pub data BudgetCheck : Type 0 where
  configured : ℕ → ℕ → BudgetCheck
  consumed : ℕ → ℕ → BudgetCheck

unfoldable pub validate_budget : WorkBudgetKind → BudgetCheck → Result DryError (Unit {0})
validate_budget kind (configured provided hard_limit) =
    reject_if (provided == 0 || ltb hard_limit provided)
      (invalid_work_budget kind provided hard_limit)
validate_budget kind (consumed limit required) =
    reject_if (ltb limit required) (work_budget_exceeded kind limit required)

unfoldable pub ensure_within_budget : WorkBudgetKind → ℕ → ℕ → Result DryError (Unit {0})
unfolding validate_budget
ensure_within_budget kind limit required = validate_budget kind (consumed limit required)

unfoldable pub validate_selection_limits : ℕ → ℕ → ℕ → Result DryError (Unit {0})
validate_selection_limits min_tokens max_groups max_occurrences_per_window = do
  reject_if (ltb min_tokens least_min_tokens) (min_tokens_error min_tokens)
  reject_if (max_groups == 0) max_groups_error
  reject_if (ltb max_occurrences_per_window 2)
      (max_occurrences_per_window_error max_occurrences_per_window)
  ok tt

abbrev pub budget_limits : DryWorkBudget → List (WorkBudgetKind × ℕ × ℕ)
budget_limits budget =
    (total_windows, budget.max_total_windows, hard_max_total_windows)
    ∷ (fingerprint_buckets, budget.max_fingerprint_buckets, hard_max_fingerprint_buckets)
    ∷ (candidate_work, budget.max_candidate_work, hard_max_candidate_work)
    ∷ []

-- The `for` loop of `validate_limits`.
unfoldable pub validate_each : List (WorkBudgetKind × ℕ × ℕ) → Result DryError (Unit {0})
unfolding validate_budget
validate_each [] = ok tt
validate_each ((kind, provided, hard_limit) ∷ rest) =
    validate_budget kind (configured provided hard_limit) >> validate_each rest

unfoldable pub validate_limits : ℕ → ℕ → ℕ → DryWorkBudget → Result DryError (Unit {0})
unfolding validate_selection_limits validate_each
validate_limits min_tokens max_groups max_occurrences_per_window budget = do
  validate_selection_limits min_tokens max_groups max_occurrences_per_window
  validate_each (budget_limits budget)

unfoldable pub validate_statement_limit : ℕ → Result DryError (Unit {0})
validate_statement_limit min_statements =
    reject_if (min_statements == 0) (min_statements_error min_statements)

unfoldable pub validate_similarity : Floats → ℕ → Result DryError (Unit {0})
validate_similarity f similarity =
    reject_if
      (not (f.is_finite similarity) || f.le similarity zero_bits || f.lt one_bits similarity)
      (similarity_threshold_error similarity)

unfoldable pub validate_shingle_size : ℕ → ℕ → Result DryError (Unit {0})
validate_shingle_size shingle_tokens min_tokens =
    reject_if (shingle_tokens == 0 || ltb min_tokens shingle_tokens)
      (shingle_tokens_error shingle_tokens min_tokens)

unfoldable pub validate_enhanced_limits : Floats → DryConfig → Result DryError (Unit {0})
unfolding validate_limits validate_statement_limit validate_similarity validate_shingle_size
validate_enhanced_limits f config = do
  validate_limits config.min_tokens config.max_groups config.max_occurrences_per_window
      (work_budget config)
  validate_statement_limit config.min_statements
  validate_similarity f config.similarity_threshold
  validate_shingle_size config.shingle_tokens config.min_tokens

pub record CandidateWork : Type 0 where
  pub used : ℕ
  pub limit : ℕ

-- An analysis ends at its first error, so only the work after a success is handed on.
unfoldable pub consume : CandidateWork → ℕ → Result DryError CandidateWork
unfolding ensure_within_budget
consume work amount =
    let required = saturating_add work.used amount in
    ensure_within_budget candidate_work work.limit required >> ok (record work { used = required })

-- `if tokens.len() < min_tokens { 0 } else { tokens.len() - min_tokens + 1 }`
abbrev pub windows_of : ℕ → ℕ → ℕ
windows_of tokens min_tokens = if ltb tokens min_tokens then 0 else tokens - min_tokens + 1

-- The fold of `count_windows`.
unfoldable pub count_from {ℓ} : {A : Type ℓ} → ℕ → List (List A) → ℕ → ℕ
count_from total [] min_tokens = total
count_from total (tokens ∷ rest) min_tokens =
    count_from (saturating_add total (windows_of (length tokens) min_tokens)) rest min_tokens

unfoldable pub count_windows {ℓ} : {A : Type ℓ} → List (List A) → ℕ → ℕ
count_windows token_sets min_tokens = count_from 0 token_sets min_tokens

unfoldable pub fingerprint_capacity : ℕ → ℕ → ℕ
fingerprint_capacity required_windows bucket_limit = min (min required_windows bucket_limit) 16_384

unfoldable pub fingerprint_index_capacity : ℕ → DryWorkBudget → Result DryError ℕ
unfolding ensure_within_budget fingerprint_capacity
fingerprint_index_capacity required_windows budget = do
  ensure_within_budget total_windows budget.max_total_windows required_windows
  ok (fingerprint_capacity required_windows budget.max_fingerprint_buckets)
