-- ===== src/Dry/Limits/Samples.antt =====
-- The limits at concrete configurations.
use reporigor.Dry.Limits.{
  Floats, DryError, DryConfig, CandidateWork, consume, validate_enhanced_limits, WorkBudgetKind,
}
use reporigor.Dry.Limits.Laws.{IsValid, validate_enhanced_limits_iff, consume_lem}
use reporigor.Prelude.{◌*◌, ◌/◌, ◌≤◌, ◌<◌, min, ◌≡◌, refl, ◌↔◌, false, arith, ltb, leb, ok, err}

-- Thousandths in place of bit patterns.
abbrev thousandths : Floats
thousandths = record {
  is_finite = λ x. leb x 0x7ff0000000000000;
  le = leb;
  lt = ltb;
  twice_ratio = λ shared total. 2000 * shared / total;
  smaller = min;
}

abbrev defaults : DryConfig
defaults = record {
  min_tokens = 30;
  min_statements = 5;
  similarity_threshold = 920;
  shingle_tokens = 4;
  max_groups = 50;
  max_occurrences_per_window = 100;
  max_total_windows = 1_000_000;
  max_fingerprint_buckets = 500_000;
  max_candidate_work = 10_000_000;
  fail = false;
}

validate_enhanced_limits_iff_example :
    (validate_enhanced_limits thousandths defaults ≡ ok tt) ↔ IsValid thousandths defaults
validate_enhanced_limits_iff_example = validate_enhanced_limits_iff thousandths defaults

-- A work limit above its ceiling is refused.
too_much :
    validate_enhanced_limits thousandths (record defaults { max_candidate_work = 25_000_001 })
    ≡ err (DryError.invalid_work_budget WorkBudgetKind.candidate_work 25_000_001 25_000_000)
unfolding validate_enhanced_limits
too_much = refl

abbrev nearly_spent : CandidateWork
nearly_spent = record { used = 9; limit = 10 }

consume_lem_example :
    ((out : CandidateWork)
      → consume nearly_spent 1 ≡ ok out
      → (out.used ≡ 10) × (out.used ≤ 10) × (out.limit ≡ 10))
    × ((e : DryError) → consume nearly_spent 1 ≡ err e → 10 < 10)
consume_lem_example = consume_lem nearly_spent 1 (omega arith)

spent : consume nearly_spent 1 ≡ ok (record { used = 10; limit = 10 })
unfolding consume
spent = refl

overspent :
    consume nearly_spent 2 ≡ err (DryError.work_budget_exceeded WorkBudgetKind.candidate_work 10 11)
unfolding consume
overspent = refl
