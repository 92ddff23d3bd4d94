-- ===== src/Mutate/Executor/Options.antt =====
-- The execution policy, and the checks before anything runs.
use reporigor.Mutate.Model.{
  MutationMode, CommandSpec, MutationCandidate, MutationError, shell, invalid_options, program,
}
use reporigor.Mutate.Guard.Edit.{max_mutation_source_bytes}
use reporigor.Prelude.Order.{contains, nat_ord}
use reporigor.Prelude.{
  ℕ, ◌*◌, min, Bool, true, false, ◌&&◌, ◌||◌, not, Option, none, some, List, [], ◌∷◌, ltb, ◌==◌,
  if◌then◌else◌, length, count_if, Text, Result, ◌>>◌, reject_if, ok, err,
}

-- `MutationOptions`. The timeout is left out: the command runner alone reads it. The two sets of
-- identifiers are sorted lists.
pub record MutationOptions : Type 0 where
  pub mode : MutationMode
  pub test_command : Option CommandSpec
  pub validation_command : Option CommandSpec
  pub run_baseline : Bool
  pub max_mutants : Option ℕ
  pub output_limit_bytes : ℕ
  pub max_source_bytes : ℕ
  pub no_coverage_ids : List ℕ
  pub ignored_ids : List ℕ

abbrev max_executable_candidates : ℕ
max_executable_candidates = 1000000

abbrev max_candidate_path_bytes : ℕ
max_candidate_path_bytes = 64 * 1024

-- `is_blank` is "nothing is left after `str::trim`".
module _ (is_blank : Text → Bool) where
  -- `CommandSpec::is_empty`
  abbrev is_empty_command : CommandSpec → Bool
  is_empty_command (shell command) = is_blank command
  is_empty_command (program [] arguments) = true
  is_empty_command (program (_ ∷ _) arguments) = false

  abbrev validate_test_command : Option CommandSpec → Result MutationError (Unit {0})
  validate_test_command none = err invalid_options
  validate_test_command (some test) = reject_if (is_empty_command test) invalid_options

  unfoldable pub validate_execute_options : MutationOptions → Result MutationError (Unit {0})
  validate_execute_options o = do
    reject_if (o.max_source_bytes == 0 || ltb max_mutation_source_bytes o.max_source_bytes)
        invalid_options
    validate_test_command o.test_command

  abbrev validate_validation_command : Option CommandSpec → Result MutationError (Unit {0})
  validate_validation_command none = ok tt
  validate_validation_command (some command) = reject_if (is_empty_command command) invalid_options

  unfoldable pub validate_options : MutationOptions → Result MutationError (Unit {0})
  unfolding validate_execute_options
  validate_options o = elim o.mode [
    | MutationMode.list ↦ validate_validation_command o.validation_command
    | MutationMode.execute ↦ do
      validate_execute_options o
      validate_validation_command o.validation_command
  ]

unfoldable pub validate_candidate_size : MutationCandidate → Result MutationError (Unit {0})
validate_candidate_size m =
    reject_if
      (ltb max_candidate_path_bytes (length m.file)
        || (ltb max_mutation_source_bytes (length m.original)
            || ltb max_mutation_source_bytes (length m.replacement)))
      invalid_options

unfoldable pub validate_selected_ids : List ℕ → List ℕ → Result MutationError (Unit {0})
validate_selected_ids known [] = ok tt
validate_selected_ids known (id ∷ ids) =
    let rest = validate_selected_ids known ids in
    if contains id known then rest else err invalid_options

-- The candidates that no policy excludes.
abbrev is_available : MutationOptions → MutationCandidate → Bool
is_available o m = not (contains m.id o.ignored_ids) && not (contains m.id o.no_coverage_ids)

abbrev bounded_by : Option ℕ → ℕ → ℕ
bounded_by none available = available
bounded_by (some limit) available = min available limit

unfoldable pub executable_count : List MutationCandidate → MutationOptions → ℕ
executable_count ms o = bounded_by o.max_mutants (count_if (is_available o) ms)
