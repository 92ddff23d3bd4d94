-- ===== src/Mutate/Guard/Recover.antt =====
-- Crash recovery: `recover_active_locked` and what it calls, for a root that has not moved.
use reporigor.Mutate.Act.{Act, map_err, lift, pure, gets, fail, access}
use reporigor.Mutate.Guard.Edit.{max_mutation_source_bytes}
use reporigor.Mutate.Guard.Disk.{
  ActiveRunRecord, JournalRecord, remove_pointer, read_bounded_source, Platform, remove_journal,
  read_journal, atomic_replace, read_pointer, SourceFile, Disk,
}
use reporigor.Mutate.Model.{
  MutationError, io, invalid_journal, RecoveryAction, nothing, already_clean, recovery_conflict,
  restored, missing_recovery_journal, source_too_large, unsupported_source_metadata,
}
use reporigor.Mutate.SourcePath.{relative_source_path, validate_mutation_root}
use reporigor.Mutate.Act.{◌>>=◌, ◌>>◌}
use reporigor.Prelude.{
  ℕ, Bool, ◌&&◌, ◌||◌, not, Option, none, some, ltb, ◌==◌, if◌then◌else◌, length, Text, text_eq,
  Result, reject_if,
}

-- `resolve_source_path`: a missing file is an I/O error. The walk over the path's components is one
-- access; symbolic links and containment are about directories, which the disk here does not have.
unfoldable pub resolve_source_path : Platform → Text → Act Disk MutationError SourceFile
resolve_source_path p file = do
  lift (relative_source_path file)
  lift (validate_mutation_root p.root)
  access io (λ d. d)
  found ← gets (λ d. d.sources file)
  elim found [ none ↦ fail io | some source ↦ pure source ]

-- `existing_recovery_target`: a path that is unsafe is refused, a missing file is a conflict.
unfoldable pub existing_recovery_target : Platform → Text → Act Disk MutationError SourceFile
unfolding resolve_source_path
existing_recovery_target p file = do
  lift (relative_source_path file)
  access io (λ d. d)
  found ← gets (λ d. d.sources file)
  elim found [ none ↦ fail (recovery_conflict file) | some _ ↦ resolve_source_path p file ]

abbrev pub as_conflict : Text → MutationError → MutationError
as_conflict path (source_too_large _ _ _) = recovery_conflict path
as_conflict path (unsupported_source_metadata _) = recovery_conflict path
as_conflict path e = e

-- `read_current_for_recovery`
unfoldable pub read_current_for_recovery : Text → SourceFile → ℕ → Act Disk MutationError Text
read_current_for_recovery path file limit = do
  source ← map_err (as_conflict path) (read_bounded_source path file limit)
  pure source.bytes

pub data RecoveryContent : Type 0 where
  original mutated conflict : RecoveryContent

abbrev same_pointer : ActiveRunRecord → JournalRecord → Bool
same_pointer a r =
    text_eq a.file r.file
    && (text_eq a.original_sha256 r.original_sha256 && text_eq a.mutated_sha256 r.mutated_sha256)

-- `validate_pointer_matches_journal`
unfoldable pub validate_pointer_matches_journal :
    JournalRecord → Option ActiveRunRecord → Result MutationError (Unit {0})
validate_pointer_matches_journal r none = Result.ok tt
validate_pointer_matches_journal r (some a) = reject_if (not (same_pointer a r)) invalid_journal

-- `clear_recovery_state`: the pointer goes first.
unfoldable pub clear_recovery_state : Option ActiveRunRecord → Act Disk MutationError (Unit {0})
clear_recovery_state none = remove_journal
clear_recovery_state (some a) = do remove_pointer; remove_journal

module _ (p : Platform) where
  unfoldable pub classify_recovery_content : Text → JournalRecord → RecoveryContent
  classify_recovery_content current r =
      if text_eq (p.sha256 current) r.original_sha256
      then original
      else if text_eq (p.sha256 current) r.mutated_sha256
      then mutated
      else conflict

  -- `decode_original_journal_content`, with the limit and checksum tests that it calls.
  unfoldable pub decode_original_journal_content : JournalRecord → Result MutationError Text
  decode_original_journal_content r = elim (p.base64_decode r.original_base64) [
    | none ↦ Result.err invalid_journal
    | some bytes ↦
        if r.max_source_bytes == 0
          || (ltb max_mutation_source_bytes r.max_source_bytes
              || ltb r.max_source_bytes (length bytes))
        then Result.err invalid_journal
        else if not (text_eq (p.sha256 bytes) r.original_sha256)
        then Result.err invalid_journal
        else Result.ok bytes
  ]

  unfoldable pub restore_recovery_target :
      Text
      → JournalRecord
      → Text
      → Text
      → Option ActiveRunRecord
      → Act Disk MutationError RecoveryAction
  restore_recovery_target target r original_bytes current active =
      elim (classify_recovery_content current r) [
        | original ↦ do clear_recovery_state active; pure already_clean
        | mutated ↦ do
          atomic_replace target original_bytes r.original_permissions
          clear_recovery_state active
          pure restored
        | conflict ↦ fail (recovery_conflict target)
      ]

  unfoldable pub recover_existing_project_journal :
      Option ActiveRunRecord → JournalRecord → Act Disk MutationError RecoveryAction
  recover_existing_project_journal active r = do
    lift (validate_pointer_matches_journal r active)
    original_bytes ← lift (decode_original_journal_content r)
    source ← existing_recovery_target p r.file
    current ← read_current_for_recovery r.file source r.max_source_bytes
    restore_recovery_target r.file r original_bytes current active

  unfoldable pub recover_pointer_without_journal :
      ActiveRunRecord → Act Disk MutationError RecoveryAction
  recover_pointer_without_journal a = do
    source ← existing_recovery_target p a.file
    current ← read_current_for_recovery a.file source max_mutation_source_bytes
    if text_eq (p.sha256 current) a.original_sha256
        then (do remove_pointer; pure already_clean)
        else fail (missing_recovery_journal a.file)

  unfoldable pub recover_project_journal :
      Option ActiveRunRecord → Act Disk MutationError RecoveryAction
  recover_project_journal active = do
    found ← read_journal p
    elim found [
      | some r ↦ recover_existing_project_journal active r
      | none ↦ elim active [ some a ↦ recover_pointer_without_journal a | none ↦ pure nothing ]
    ]

  unfoldable pub recover_active_locked : Act Disk MutationError RecoveryAction
  recover_active_locked = do active ← read_pointer p; recover_project_journal active
