-- ===== src/Mutate/Executor/Classify.antt =====
-- What a command's end says about a mutant. Durations are left out.
use reporigor.Mutate.Model.{
  MutationStatus, MutationResult, MutationCandidate, CommandOutcome, MutationError, cancelled,
  process_tree,
}
use reporigor.Prelude.{
  ℕ, ◌-◌, Bool, ◌&&◌, Option, none, some, [], ◌∷◌, ◌++◌, ltb, leb, ◌==◌, if◌then◌else◌,
  saturating_add, length, Text, codes, drop, Result, ok, err,
}

-- A continuation byte of UTF-8: no character starts there.
abbrev is_continuation : ℕ → Bool
is_continuation byte = leb 128 byte && ltb byte 192

-- `while !is_char_boundary(start) { start += 1 }`
abbrev skip_continuation : Text → Text
skip_continuation [] = []
skip_continuation (byte ∷ rest) =
    let later = skip_continuation rest in if is_continuation byte then later else byte ∷ rest

-- The prefix, and as much of the output's end as the limit leaves room for.
unfoldable pub detail_with_output : Text → CommandOutcome → ℕ → Text
detail_with_output prefix outcome limit =
    let reserved = saturating_add (length prefix) 2 in
    if length outcome.output == 0
    then prefix
    else if limit == 0
    then prefix
    else if leb limit reserved
    then prefix
    else prefix
      ++ (codes ": "
          ++ skip_continuation (drop (length outcome.output - (limit - reserved)) outcome.output))

abbrev mutation_result :
    MutationCandidate → MutationStatus → CommandOutcome → Option Text → MutationResult
mutation_result m status outcome detail = record {
  mutation = m;
  status = status;
  exit_code = outcome.exit_code;
  detail = detail;
}

abbrev pub static_result : MutationCandidate → MutationStatus → Text → MutationResult
static_result m status detail = record {
  mutation = m;
  status = status;
  exit_code = none;
  detail = some detail;
}

abbrev pub runtime_error_result : MutationCandidate → Text → MutationResult
runtime_error_result m detail = static_result m MutationStatus.runtime_error detail

abbrev pub command_failure_result :
    MutationCandidate → MutationStatus → CommandOutcome → Text → ℕ → MutationResult
command_failure_result m status outcome prefix limit =
    mutation_result m status outcome (some (detail_with_output prefix outcome limit))

abbrev pub validation_failure_status : CommandOutcome → MutationStatus
validation_failure_status outcome = elim outcome.exit_code [
  | some _ ↦ MutationStatus.compile_error
  | none ↦ MutationStatus.runtime_error
]

abbrev classify_exit : MutationCandidate → CommandOutcome → ℕ → Option ℕ → MutationResult
classify_exit m outcome limit none =
    command_failure_result m MutationStatus.runtime_error outcome
      (codes "test command terminated without an exit code") limit
classify_exit m outcome limit (some code) =
    if code == 0
    then mutation_result m MutationStatus.survived outcome none
    else mutation_result m MutationStatus.killed outcome none

unfoldable pub classify_test_outcome : MutationCandidate → CommandOutcome → ℕ → MutationResult
classify_test_outcome m outcome limit =
    if outcome.timed_out
    then command_failure_result m MutationStatus.timeout outcome (codes "test command timed out")
        limit
    else classify_exit m outcome limit outcome.exit_code

-- `Display` of an error is a parameter: only messages show it.
unfoldable pub classify_command_error :
    (MutationError → Text) → MutationCandidate → MutationError → Result MutationError MutationResult
classify_command_error text m cancelled = err cancelled
classify_command_error text m process_tree = err process_tree
classify_command_error text m e = ok (runtime_error_result m (text e))
