-- ===== src/Mutate/Executor/Samples.antt =====
-- A run over one candidate whose test notices the edit, and a run that dies twice.
use reporigor.Mutate.SourcePath.{
  validate_mutation_root, relative_source_path, components, is_control_path, eq_ignore_ascii_case,
}
use reporigor.Mutate.Guard.Edit.{
  validate_mutation_source_limit, validate_mutation_candidate, build_mutated_source,
}
use reporigor.Mutate.Guard.Restore.{
  restore_and_drop, restore, finish_restore, apply_bounded, load_mutation_source,
  persist_mutation_state, replace_or_recover,
}
use reporigor.Mutate.Executor.Classify.{classify_test_outcome}
use reporigor.Prelude.Order.{contains}
use reporigor.Mutate.Executor.Restores.{
  execute_candidates-recovers, AreDone, execute_candidates-restores,
}
use reporigor.Mutate.Guard.Cycle.{Rest, recoveries, Unsettled, resting}
use reporigor.Mutate.Guard.Samples.{
  toy_platform, sample_sources, sample_candidate, toy_lawful, no_collision,
}
use reporigor.Mutate.Guard.Recover.{
  recover_active_locked, resolve_source_path, existing_recovery_target, read_current_for_recovery,
}
use reporigor.Mutate.Executor.Options.{MutationOptions}
use reporigor.Mutate.Act.Keeps.{Keeps}
use reporigor.Mutate.Guard.Disk.{
  SourceFile, remove_pointer, remove_journal, read_bounded_source, write_journal, write_pointer,
  atomic_replace_for_mutation, atomic_replace,
}
use reporigor.Mutate.Executor.Run.{
  Host, execute_candidates, execute_from, nonexecuted_result, check_cancellation, execute_candidate,
  attempt, test_and_restore, execute_applied_candidate, run_test, run_candidate_command,
  run_command_on,
}
use reporigor.Mutate.Act.{◌>>=◌, Fault, works, dies_before, dies_after, Outcome, access, map_err}
use reporigor.Mutate.Model.{MutationMode, CommandOutcome, RecoveryAction, shell, MutationStatus}
use reporigor.Prelude.{
  ◌≡◌, refl, true, false, Option, none, some, List, [], ◌∷◌, ◌==◌, if◌then◌else◌, length, codes,
  text_eq, Result,
}

-- The test command fails exactly when the file is no longer its original.
abbrev sample_test : Option SourceFile → CommandOutcome
sample_test none = record {
  exit_code = some 2;
  timed_out = false;
  output = [];
  output_truncated = false;
}
sample_test (some file) = record {
  exit_code = some (if length file.bytes == 3 then 0 else 1);
  timed_out = false;
  output = codes "1 failed";
  output_truncated = false;
}

abbrev sample_host : Host
sample_host = record {
  platform = toy_platform;
  run_command = λ spec environment disk. Result.ok (sample_test (disk.sources (codes "src/a.c")));
  is_blank = λ text. false;
  decimal = λ n. codes "1";
  error_text = λ e. codes "error";
  invalid_text = λ m. codes "invalid";
}

abbrev sample_options : MutationOptions
sample_options = record {
  mode = MutationMode.execute;
  test_command = some (shell (codes "make test"));
  validation_command = none;
  run_baseline = true;
  max_mutants = none;
  output_limit_bytes = 200;
  max_source_bytes = 100;
  no_coverage_ids = [];
  ignored_ids = [];
}

execute_candidates-restores_example :
    Keeps
      (Rest toy_platform sample_sources)
      (Unsettled toy_platform sample_sources)
      (AreDone sample_host sample_options sample_sources toy_lawful (sample_candidate ∷ []))
      (execute_candidates sample_host sample_options (sample_candidate ∷ []))
execute_candidates-restores_example =
    execute_candidates-restores sample_host sample_options sample_sources toy_lawful
      (sample_candidate ∷ []) (no_collision, tt)

-- The process dies right after the mutant is renamed into place, and the next one while it
-- recovers.
abbrev power_cuts : List Fault
power_cuts = works ∷ works ∷ works ∷ works ∷ works ∷ works ∷ dies_after ∷ []

abbrev second_cuts : List (List Fault)
second_cuts = (works ∷ works ∷ works ∷ dies_before ∷ []) ∷ []

execute_candidates-recovers_example :
    (action : RecoveryAction) × (recover_active_locked toy_platform (record {
      disk =
          recoveries toy_platform second_cuts
            (execute_candidates sample_host sample_options
              (sample_candidate ∷ [])
              (record { disk = resting sample_sources; faults = power_cuts })).1.disk;
      faults = [];
    })
      ≡ (Outcome.ok action, record { disk = resting sample_sources; faults = [] }))
execute_candidates-recovers_example =
    execute_candidates-recovers sample_host sample_options sample_sources toy_lawful
      (sample_candidate ∷ []) power_cuts second_cuts (no_collision, tt)

-- With nothing failing, the candidate is killed.
run_kills :
    (execute_candidates sample_host sample_options
      (sample_candidate ∷ [])
      (record { disk = resting sample_sources; faults = [] })).0
    ≡ Outcome.ok (
        record {
          mutation = sample_candidate;
          status = MutationStatus.killed;
          exit_code = some 1;
          detail = none;
        }
        ∷ [])
unfolding execute_candidates execute_from nonexecuted_result contains check_cancellation
    execute_candidate attempt test_and_restore execute_applied_candidate run_test
    run_candidate_command run_command_on classify_test_outcome restore_and_drop restore
    finish_restore existing_recovery_target read_current_for_recovery remove_pointer remove_journal
    apply_bounded load_mutation_source resolve_source_path read_bounded_source
    persist_mutation_state write_journal write_pointer replace_or_recover
    atomic_replace_for_mutation atomic_replace validate_mutation_source_limit
    validate_mutation_candidate build_mutated_source validate_mutation_root relative_source_path
    components is_control_path eq_ignore_ascii_case text_eq ◌>>=◌ access map_err
run_kills = refl
