-- ===== src/Core/SourceBudget.antt =====
-- crates/reporigor-core/src/source_budget.rs: the fail-closed budget over a selected source set.
pub mod Laws
mod Samples
use reporigor.Prelude.{
  ℕ, ◌*◌, ◌||◌, List, [], ◌∷◌, ltb, ◌==◌, if◌then◌else◌, saturating_add, Text, Result, ◌>>=◌, ◌>>◌,
  reject_if, and_then, ok, err,
}

-- The errors of `CoreError` that the budget returns.
pub data BudgetError : Type 0 where
  config_zero : BudgetError
  config_above_hard_limit : BudgetError
  source_too_large : Text → ℕ → ℕ → BudgetError
  source_unresolved : Text → BudgetError
  source_missing : Text → BudgetError
  source_unreadable : Text → BudgetError
  budget_exceeded : Text → ℕ → ℕ → BudgetError

abbrev pub max_source_bytes_hard_limit : ℕ
max_source_bytes_hard_limit = 64 * 1024 * 1024

abbrev pub max_selected_source_files : ℕ
max_selected_source_files = 100_000

abbrev pub max_selected_source_bytes : ℕ
max_selected_source_bytes = 1024 * 1024 * 1024

unfoldable pub validate_max_source_bytes : ℕ → Result BudgetError (Unit {0})
validate_max_source_bytes max_source_bytes = do
  reject_if (max_source_bytes == 0) config_zero
  reject_if (ltb max_source_bytes_hard_limit max_source_bytes) config_above_hard_limit
  ok tt

pub record SourceBudget : Type 0 where
  pub max_source_bytes : ℕ
  pub selected_files : ℕ
  pub selected_bytes : ℕ

unfoldable pub new : ℕ → Result BudgetError SourceBudget
unfolding validate_max_source_bytes
new max_source_bytes = do
  validate_max_source_bytes max_source_bytes
  ok (record { max_source_bytes = max_source_bytes; selected_files = 0; selected_bytes = 0 })

-- `&mut self`: the budget comes back beside an error too.
unfoldable pub observe : SourceBudget → Text → ℕ → Result BudgetError (Unit {0}) × SourceBudget
observe b path actual_bytes =
    if ltb b.max_source_bytes actual_bytes
    then (err (source_too_large path actual_bytes b.max_source_bytes), b)
    else let files = saturating_add b.selected_files 1 in
      let bytes = saturating_add b.selected_bytes actual_bytes in
      if ltb max_selected_source_files files || ltb max_selected_source_bytes bytes
      then (err (budget_exceeded path files bytes), b)
      else (ok tt, record b { selected_files = files; selected_bytes = bytes })

-- What the file system answers for a selected file: `resolve_optional_regular_file_within` fails,
-- finds no such file, or finds one whose metadata cannot be read, or a regular file of that length.
pub data SourceAnswer : Type 0 where
  unresolved absent unreadable : SourceAnswer
  regular_file : ℕ → SourceAnswer

-- `observe_mutation_source`, given the file system's answers.
unfoldable pub observe_mutation_source :
    (Text → SourceAnswer) → SourceBudget → Text → Result BudgetError (Unit {0}) × SourceBudget
observe_mutation_source size_of b relative = elim (size_of relative) [
  | unresolved ↦ (err (source_unresolved relative), b)
  | absent ↦ (err (source_missing relative), b)
  | unreadable ↦ (err (source_unreadable relative), b)
  | regular_file len ↦ observe b relative len
]

-- The loop of `observe_mutation_source_budget` over the keys of `files`.
unfoldable pub observe_each :
    (Text → SourceAnswer) → SourceBudget → List Text → Result BudgetError (Unit {0}) × SourceBudget
observe_each size_of b [] = (ok tt, b)
observe_each size_of b (relative ∷ rest) =
    and_then (observe_mutation_source size_of b relative) (λ b'. observe_each size_of b' rest)

unfoldable pub observe_mutation_source_budget :
    (Text → SourceAnswer) → List Text → ℕ → Result BudgetError (Unit {0})
observe_mutation_source_budget size_of files max_source_bytes = do
  b ← new max_source_bytes
  (observe_each size_of b files).0
