-- ===== src/Mutate/Guard/Restore.antt =====
-- `SourceRestoreGuard`: apply a mutant under a journal, and put the original back.
use reporigor.Mutate.Act.{Act, fail, lift, map_err, pure, Outcome, World}
use reporigor.Mutate.Model.{MutationCandidate, MutationError, recovery_conflict, RecoveryAction}
use reporigor.Mutate.Guard.Recover.{
  existing_recovery_target, resolve_source_path, recover_active_locked, read_current_for_recovery,
}
use reporigor.Mutate.Guard.Disk.{
  StoredPermissions, Platform, write_journal, remove_pointer, atomic_replace_for_mutation,
  remove_journal, write_pointer, read_bounded_source, JournalRecord, SourceFile, Disk,
  journal_schema_version, atomic_replace, max_journal_bytes,
}
use reporigor.Mutate.Guard.Edit.{
  validate_mutation_source_limit, build_mutated_source, validate_mutation_candidate, ApplyError,
  max_mutation_source_bytes, fatal,
}
use reporigor.Mutate.Act.{◌>>=◌, ◌>>◌}
use reporigor.Prelude.{ℕ, min, if◌then◌else◌, Text, text_eq}

pub record SourceRestoreGuard : Type 0 where
  pub file : Text
  pub original : Text
  pub original_sha256 : Text
  pub mutated_sha256 : Text
  pub max_source_bytes : ℕ
  pub permissions : StoredPermissions

unfoldable pub load_mutation_source :
    Platform → MutationCandidate → ℕ → Act Disk ApplyError SourceFile
load_mutation_source p m limit = do
  lift (validate_mutation_source_limit limit)
  found ← map_err fatal (resolve_source_path p m.file)
  source ← map_err fatal (read_bounded_source m.file found limit)
  lift (validate_mutation_candidate m source.bytes)
  pure source

module _ (p : Platform) where
  abbrev pub mutation_journal_record : MutationCandidate → SourceFile → Text → ℕ → JournalRecord
  mutation_journal_record m source mutated limit = record {
    schema_version = journal_schema_version;
    file = m.file;
    original_base64 = p.base64_encode source.bytes;
    original_sha256 = p.sha256 source.bytes;
    mutated_sha256 = p.sha256 mutated;
    max_source_bytes = limit;
    original_permissions = source.permissions;
  }

  -- `persist_mutation_state`: the journal first, then the pointer.
  unfoldable pub persist_mutation_state : JournalRecord → Act Disk MutationError (Unit {0})
  persist_mutation_state r = do write_journal p r max_journal_bytes; write_pointer p r

  abbrev pub after_recovery :
      MutationError
      → Outcome MutationError RecoveryAction × World Disk
      → Outcome ApplyError (Unit {0}) × World Disk
  after_recovery e (Outcome.ok _, w) = (Outcome.err (fatal e), w)
  after_recovery e (Outcome.err _, w) = (Outcome.err (fatal e), w)
  after_recovery e (Outcome.crashed, w) = (Outcome.crashed, w)

  abbrev pub recover_after :
      Outcome MutationError (Unit {0}) × World Disk → Outcome ApplyError (Unit {0}) × World Disk
  recover_after (Outcome.ok _, w) = (Outcome.ok tt, w)
  recover_after (Outcome.err e, w) = after_recovery e (recover_active_locked p w)
  recover_after (Outcome.crashed, w) = (Outcome.crashed, w)

  -- `if let Err(error) = replace { let _ = recover(); return Err(error); }`
  unfoldable pub replace_or_recover :
      MutationCandidate → SourceFile → Text → Act Disk ApplyError (Unit {0})
  replace_or_recover m source mutated w =
      recover_after (atomic_replace_for_mutation p m.file mutated source.permissions w)

  unfoldable pub apply_bounded : MutationCandidate → ℕ → Act Disk ApplyError SourceRestoreGuard
  apply_bounded m requested = do
    let limit = min requested max_mutation_source_bytes
    source ← load_mutation_source p m limit
    mutated ← lift (build_mutated_source m source.bytes limit)
    map_err fatal (persist_mutation_state (mutation_journal_record m source mutated limit))
    replace_or_recover m source mutated
    pure (record {
      file = m.file;
      original = source.bytes;
      original_sha256 = p.sha256 source.bytes;
      mutated_sha256 = p.sha256 mutated;
      max_source_bytes = limit;
      permissions = source.permissions;
    })

  -- `finish_restore_without_replacement`: the pointer goes first.
  unfoldable pub finish_restore : Act Disk MutationError (Unit {0})
  finish_restore = do remove_pointer; remove_journal

  unfoldable pub restore : SourceRestoreGuard → Act Disk MutationError (Unit {0})
  restore g = do
    source ← existing_recovery_target p g.file
    current ← read_current_for_recovery g.file source g.max_source_bytes
    if text_eq (p.sha256 current) g.original_sha256
        then finish_restore
        else if text_eq (p.sha256 current) g.mutated_sha256
        then (do atomic_replace g.file g.original g.permissions; finish_restore)
        else fail (recovery_conflict g.file)

  -- `Drop for SourceRestoreGuard`: after an error the dropped guard tries once more and ignores
  -- the answer.
  abbrev pub after_drop :
      MutationError
      → Outcome MutationError (Unit {0}) × World Disk
      → Outcome MutationError (Unit {0}) × World Disk
  after_drop e (Outcome.ok _, w) = (Outcome.err e, w)
  after_drop e (Outcome.err _, w) = (Outcome.err e, w)
  after_drop e (Outcome.crashed, w) = (Outcome.crashed, w)

  abbrev pub drop_after :
      SourceRestoreGuard
      → Outcome MutationError (Unit {0}) × World Disk
      → Outcome MutationError (Unit {0}) × World Disk
  drop_after g (Outcome.ok _, w) = (Outcome.ok tt, w)
  drop_after g (Outcome.err e, w) = after_drop e (restore g w)
  drop_after g (Outcome.crashed, w) = (Outcome.crashed, w)

  -- `guard.restore()?` at the end of a candidate.
  unfoldable pub restore_and_drop : SourceRestoreGuard → Act Disk MutationError (Unit {0})
  restore_and_drop g w = drop_after g (restore g w)
