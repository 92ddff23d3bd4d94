-- ===== src/Mutate/Summary.antt =====
-- crates/analysis-mutate/src/model.rs: `MutationSummary` and the mutation score. The quotient is
-- kept as numerator and denominator.
use reporigor.Mutate.Model.{MutationStatus, MutationResult}
pub mod Laws
mod Samples
use reporigor.Prelude.{
  ℕ, ◌+◌, min, Bool, true, false, Option, none, some, List, [], ◌∷◌, ◌==◌, if◌then◌else◌, u32_max,
  saturating_add, length, count_if,
}

pub record MutationSummary : Type 0 where
  pub total : ℕ
  pub killed : ℕ
  pub survived : ℕ
  pub no_coverage : ℕ
  pub compile_error : ℕ
  pub runtime_error : ℕ
  pub timeout : ℕ
  pub invalid : ℕ
  pub ignored : ℕ
  pub pending : ℕ

abbrev pub empty_summary : MutationSummary
empty_summary = record {
  total = 0;
  killed = 0;
  survived = 0;
  no_coverage = 0;
  compile_error = 0;
  runtime_error = 0;
  timeout = 0;
  invalid = 0;
  ignored = 0;
  pending = 0;
}

-- Each category answers whether it counted the status.
abbrev record_outcome : MutationStatus → MutationSummary → Bool × MutationSummary
record_outcome MutationStatus.killed s = (true, record s { killed = s.killed + 1 })
record_outcome MutationStatus.survived s = (true, record s { survived = s.survived + 1 })
record_outcome MutationStatus.no_coverage s = (true, record s { no_coverage = s.no_coverage + 1 })
record_outcome _ s = (false, s)

abbrev record_execution_error : MutationStatus → MutationSummary → Bool × MutationSummary
record_execution_error MutationStatus.compile_error s =
    (true, record s { compile_error = s.compile_error + 1 })
record_execution_error MutationStatus.runtime_error s =
    (true, record s { runtime_error = s.runtime_error + 1 })
record_execution_error MutationStatus.timeout s = (true, record s { timeout = s.timeout + 1 })
record_execution_error _ s = (false, s)

abbrev record_selection : MutationStatus → MutationSummary → MutationSummary
record_selection MutationStatus.invalid s = record s { invalid = s.invalid + 1 }
record_selection MutationStatus.ignored s = record s { ignored = s.ignored + 1 }
record_selection MutationStatus.pending s = record s { pending = s.pending + 1 }
record_selection _ s = s

-- `MutationSummary::record`
abbrev pub record_status : MutationStatus → MutationSummary → MutationSummary
record_status status s =
    let (first, s1) = record_outcome status s in
    if first
    then s1
    else (let (second, s2) = record_execution_error status s1 in
        if second then s2 else record_selection status s2)

unfoldable pub record_all : List MutationResult → MutationSummary → MutationSummary
record_all [] s = s
record_all (r ∷ rs) s = record_all rs (record_status r.status s)

unfoldable pub from_results : List MutationResult → MutationSummary
from_results results = record (record_all results empty_summary) { total = length results }

abbrev scoreable_mutants : MutationSummary → ℕ
scoreable_mutants s = saturating_add s.killed s.survived

-- `score_ratio`: both counts saturate at 32 bits before they are divided.
abbrev score_ratio : ℕ → ℕ → Option (ℕ × ℕ)
score_ratio killed scoreable =
    if scoreable == 0 then none else some (min killed u32_max, min scoreable u32_max)

abbrev pub summary_score : MutationSummary → Option (ℕ × ℕ)
summary_score s = score_ratio s.killed (scoreable_mutants s)

abbrev pub is_killed : MutationStatus → Bool
is_killed MutationStatus.killed = true
is_killed _ = false

abbrev pub is_scoreable_status : MutationStatus → Bool
is_scoreable_status MutationStatus.killed = true
is_scoreable_status MutationStatus.survived = true
is_scoreable_status _ = false

-- The free function `mutation_score`.
unfoldable pub mutation_score : List MutationResult → Option (ℕ × ℕ)
mutation_score results =
    score_ratio (count_if (λ r. is_killed r.status) results)
      (count_if (λ r. is_scoreable_status r.status) results)
