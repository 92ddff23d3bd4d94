-- ===== src/Mutate/Executor/Run.antt =====
-- A run: preflight, baseline, and the candidates one after the other. Cancellation is an access:
-- the fault schedule says when `CancellationToken::check` answers.
use reporigor.Mutate.Executor.Classify.{
  classify_test_outcome, classify_command_error, command_failure_result, static_result,
  runtime_error_result, validation_failure_status,
}
use reporigor.Mutate.Guard.Restore.{SourceRestoreGuard, restore_and_drop, apply_bounded}
use reporigor.Mutate.Model.{
  MutationCandidate, MutationError, CommandSpec, CommandOutcome, cancelled, MutationResult, command,
  MutationStatus, exited_with_zero,
}
use reporigor.Mutate.Executor.Options.{MutationOptions}
use reporigor.Mutate.Guard.Disk.{Disk, Platform}
use reporigor.Mutate.Guard.Edit.{ApplyError, invalid, fatal}
use reporigor.Mutate.Act.{◌>>=◌, ◌>>◌, Act, pure, fail, lift, gets, access, Outcome, World}
use reporigor.Prelude.Order.{contains, nat_ord}
use reporigor.Prelude.{
  ℕ, suc, Bool, false, not, Option, none, some, List, [], ◌∷◌, leb, if◌then◌else◌, Text, codes,
  Result,
}

-- The operating system's side: the command runner, and texts that nothing decides on.
pub record Host : Type 0 where
  pub platform : Platform
  -- The command, the environment that it gets, and the disk that it runs on.
  pub run_command : CommandSpec → List (Text × Text) → Disk → Result MutationError CommandOutcome
  pub is_blank : Text → Bool
  pub decimal : ℕ → Text
  pub error_text : MutationError → Text
  pub invalid_text : MutationCandidate → Text

-- An error as a value; a process that dies is no value.
abbrev pub caught :
    {E A : Type 0} → Outcome E A × World Disk → Outcome MutationError (Result E A) × World Disk
caught (Outcome.ok a, w) = (Outcome.ok (Result.ok a), w)
caught (Outcome.err e, w) = (Outcome.ok (Result.err e), w)
caught (Outcome.crashed, w) = (Outcome.crashed, w)

unfoldable pub attempt : {E A : Type 0} → Act Disk E A → Act Disk MutationError (Result E A)
attempt m w = caught (m w)

unfoldable pub check_cancellation : Act Disk MutationError (Unit {0})
check_cancellation = access cancelled (λ d. d)

module _ (h : Host) (o : MutationOptions) where
  -- The command sees the disk as it is now, and the process can die while it runs.
  unfoldable pub run_command_on :
      CommandSpec → List (Text × Text) → Act Disk MutationError CommandOutcome
  run_command_on spec environment = do
    disk ← gets (λ d. d)
    access command (λ d. d)
    lift (h.run_command spec environment disk)

  unfoldable pub run_candidate_command :
      CommandSpec → MutationCandidate → Act Disk MutationError CommandOutcome
  run_candidate_command spec m = run_command_on spec (
      (codes "REPORIGOR_MUTANT_ID", h.decimal m.id)
      ∷ (codes "REPORIGOR_MUTANT_FINGERPRINT", m.fingerprint)
      ∷ [])

  abbrev pub classify_test :
      MutationCandidate → Result MutationError CommandOutcome → Result MutationError MutationResult
  classify_test m (Result.ok outcome) =
      Result.ok (classify_test_outcome m outcome o.output_limit_bytes)
  classify_test m (Result.err e) = classify_command_error h.error_text m e

  unfoldable pub run_test : MutationCandidate → Act Disk MutationError MutationResult
  run_test m = do
    check_cancellation
    elim o.test_command [
      | none ↦ pure (runtime_error_result m (codes "execute mode has no test command"))
      | some spec ↦ do
        answer ← attempt (run_candidate_command spec m)
        lift (classify_test m answer)
    ]

  unfoldable pub classify_validation :
      MutationCandidate → CommandOutcome → Act Disk MutationError MutationResult
  classify_validation m outcome =
      if outcome.timed_out
      then pure (
          command_failure_result m MutationStatus.timeout outcome
            (codes "validation command timed out") o.output_limit_bytes)
      else if not (exited_with_zero outcome.exit_code)
      then pure (
          command_failure_result m (validation_failure_status outcome) outcome
            (codes "validation command failed") o.output_limit_bytes)
      else run_test m

  unfoldable pub run_validation :
      CommandSpec → MutationCandidate → Act Disk MutationError MutationResult
  run_validation spec m = do
    answer ← attempt (run_candidate_command spec m)
    elim answer [
      | Result.ok outcome ↦ classify_validation m outcome
      | Result.err e ↦ lift (classify_command_error h.error_text m e)
    ]

  unfoldable pub execute_applied_candidate :
      MutationCandidate → Act Disk MutationError MutationResult
  execute_applied_candidate m = elim o.validation_command [
    | some spec ↦ run_validation spec m
    | none ↦ run_test m
  ]

  -- `let result = ..; let restoration = guard.restore(); restoration?; result`
  unfoldable pub test_and_restore :
      SourceRestoreGuard → MutationCandidate → Act Disk MutationError MutationResult
  test_and_restore guard m = do
    result ← attempt (execute_applied_candidate m)
    restore_and_drop h.platform guard
    lift result

  abbrev pub refused : MutationCandidate → ApplyError → Act Disk MutationError MutationResult
  refused m invalid = pure (static_result m MutationStatus.invalid (h.invalid_text m))
  refused m (fatal e) = fail e

  unfoldable pub execute_candidate : MutationCandidate → Act Disk MutationError MutationResult
  execute_candidate m = do
    check_cancellation
    applied ← attempt (apply_bounded h.platform m o.max_source_bytes)
    elim applied [ Result.err e ↦ refused m e | Result.ok guard ↦ test_and_restore guard m ]

  abbrev exceeds : Option ℕ → ℕ → Bool
  exceeds none selected = false
  exceeds (some maximum) selected = leb maximum selected

  unfoldable pub nonexecuted_result : MutationCandidate → ℕ → Option MutationResult
  nonexecuted_result m selected =
      if contains m.id o.ignored_ids
      then some (static_result m MutationStatus.ignored (codes "candidate excluded by policy"))
      else if contains m.id o.no_coverage_ids
      then some (
          static_result m MutationStatus.no_coverage
            (codes "coverage data proves the candidate is not exercised"))
      else if exceeds o.max_mutants selected
      then some (
          static_result m MutationStatus.ignored
            (codes "candidate exceeds the max-mutants execution limit"))
      else none

  -- The loop of `execute_candidates`, from a count of the candidates already selected.
  unfoldable pub execute_from :
      ℕ → List MutationCandidate → Act Disk MutationError (List MutationResult)
  execute_from selected [] = pure []
  execute_from selected (m ∷ ms) = elim (nonexecuted_result m selected) [
    | some result ↦ do results ← execute_from selected ms; pure (result ∷ results)
    | none ↦ do
      check_cancellation
      result ← execute_candidate m
      results ← execute_from (suc selected) ms
      pure (result ∷ results)
  ]

  unfoldable pub execute_candidates :
      List MutationCandidate → Act Disk MutationError (List MutationResult)
  execute_candidates ms = execute_from 0 ms
