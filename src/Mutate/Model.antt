-- ===== src/Mutate/Model.antt =====
-- crates/analysis-mutate/src/model.rs and error.rs, and the mutation rows of
-- crates/reporigor-core/src/model.rs: the data that the engine passes around.
use reporigor.Prelude.{ℕ, Bool, false, ◌&&◌, not, Option, none, some, List, ◌==◌, Text}

pub data Language : Type 0 where
  bash c cpp objective_c python rust swift type_script : Language

pub record MutationCandidate : Type 0 where
  pub id : ℕ
  pub language : Language
  pub file : Text
  pub stable_symbol : Text
  pub operator : Text
  pub fingerprint : Text
  pub line : ℕ
  pub column : ℕ
  pub original : Text
  pub replacement : Text
  pub start_byte : ℕ
  pub end_byte : ℕ

pub data MutationStatus : Type 0 where
  killed survived no_coverage compile_error runtime_error timeout invalid ignored pending :
      MutationStatus

-- `duration_seconds` is left out: no decision reads it.
pub record MutationResult : Type 0 where
  pub mutation : MutationCandidate
  pub status : MutationStatus
  pub exit_code : Option ℕ
  pub detail : Option Text

pub data MutationMode : Type 0 where
  list execute : MutationMode

pub data CommandSpec : Type 0 where
  shell : Text → CommandSpec
  program : Text → List Text → CommandSpec

pub data RecoveryAction : Type 0 where
  nothing already_clean restored : RecoveryAction

pub data BaselinePhase : Type 0 where
  validation test : BaselinePhase

-- An exit code is the 32-bit pattern of the program's `i32`.
pub record CommandOutcome : Type 0 where
  pub exit_code : Option ℕ
  pub timed_out : Bool
  pub output : Text
  pub output_truncated : Bool

abbrev pub exited_with_zero : Option ℕ → Bool
exited_with_zero none = false
exited_with_zero (some code) = code == 0

abbrev success : CommandOutcome → Bool
success outcome = not outcome.timed_out && exited_with_zero outcome.exit_code

pub record BaselineReport : Type 0 where
  pub validation : Option CommandOutcome
  pub test : Option CommandOutcome

-- Messages and the paths that only a message shows are left out.
pub data MutationError : Type 0 where
  cancelled : MutationError
  invalid_root : Text → MutationError
  already_running : Text → MutationError
  invalid_options : MutationError
  unsafe_path : Text → MutationError
  pending_mutation_root : Text → Text → MutationError
  invalid_journal : MutationError
  source_too_large : Text → ℕ → ℕ → MutationError
  recovery_conflict : Text → MutationError
  unsupported_source_metadata : Text → MutationError
  missing_recovery_journal : Text → MutationError
  baseline_failed : BaselinePhase → CommandOutcome → MutationError
  io : MutationError
  state : MutationError
  command : MutationError
  process_tree : MutationError
