-- ===== src/Mutate/Guard/Total.antt =====
-- Recovery gives an answer: when nothing fails, it succeeds from each of the four disks.
use reporigor.Mutate.Guard.Recovery.{source_at, classify_source, classify_mutant, decode_journal}
use reporigor.Mutate.Guard.Recover.{
  existing_recovery_target, resolve_source_path, read_current_for_recovery,
  recover_existing_project_journal, validate_pointer_matches_journal, restore_recovery_target,
  clear_recovery_state, recover_active_locked, recover_project_journal,
}
use reporigor.Mutate.Guard.Phases.{
  Plan, Phase, Fits, original_file, original_file-found, pointer_of, disk_at, clean, journalled,
  armed, edited, file_at, journal_of, update-update,
}
use reporigor.Mutate.Model.{MutationCandidate, RecoveryAction, nothing, already_clean, restored}
use reporigor.Core.RepositoryPath.{is_lowercase_hex}
use reporigor.Mutate.Act.{◌>>=◌, access, ok, World, map_err}
use reporigor.Mutate.Guard.Disk.{
  read_pointer, read_journal, validated_pointer, is_checksum, Platform, IsLawful, is_hex,
  SourceFile, Disk, read_bounded_source, remove_pointer, remove_journal, atomic_replace,
}
use reporigor.Prelude.{
  ℕ, ◌≤◌, ◌≡◌, refl, true, false, Option, some, [], ◌∷◌, arith, ltb, ◌==◌, length, all, Text,
  text_eq_refl, Result,
}

is_lowercase_hex-is_hex : (b : ℕ) → is_lowercase_hex b ≡ true → is_hex b ≡ true
is_lowercase_hex-is_hex b h = ground arith

all-is_hex : (bytes : Text) → all is_lowercase_hex bytes ≡ true → all is_hex bytes ≡ true
all-is_hex [] h = refl
all-is_hex (b ∷ bytes) h = ground (arith, all-is_hex bytes)

digest-is_checksum :
    (p : Platform) → IsLawful p → (bytes : Text) → is_checksum (p.sha256 bytes) ≡ true
digest-is_checksum p lawful bytes =
    rw (lawful.digest_len bytes) (all-is_hex (p.sha256 bytes) (lawful.digest_hex bytes))

within_limit : (a b : ℕ) → a ≤ b → ltb b a ≡ false
within_limit a b h = ground arith

module _ {p : Platform} {m : MutationCandidate} {sources : Text → Option SourceFile}
    (plan : Plan p m sources) where
  open plan use {limit, source, mutant}

  -- No fault to come.
  abbrev pub quiet : Phase → World Disk
  quiet phase = record { disk = disk_at plan phase; faults = [] }

  pointer-validated : validated_pointer (pointer_of plan) ≡ Result.ok tt
  unfolding validated_pointer
  pointer-validated =
      rw
        (
          plan.safe,
          digest-is_checksum p plan.lawful source.bytes,
          digest-is_checksum p plan.lawful mutant,
        )
        refl

  run-read_pointer :
      (phase : Phase)
      → Fits plan phase
      → read_pointer p (quiet phase) ≡ (ok (disk_at plan phase).pointer, quiet phase)
  unfolding read_pointer ◌>>=◌ access
  run-read_pointer clean fits = refl
  run-read_pointer journalled fits = refl
  run-read_pointer armed fits = rw (within_limit _ _ fits.1) (rw pointer-validated refl)
  run-read_pointer edited fits = rw (within_limit _ _ fits.1) (rw pointer-validated refl)

  run-read_journal :
      (phase : Phase)
      → Fits plan phase
      → read_journal p (quiet phase) ≡ (ok (disk_at plan phase).journal, quiet phase)
  unfolding read_journal ◌>>=◌ access
  run-read_journal clean fits = refl
  run-read_journal journalled fits = rw (within_limit _ _ fits) refl
  run-read_journal armed fits = rw (within_limit _ _ fits.0) refl
  run-read_journal edited fits = rw (within_limit _ _ fits.0) refl

  run-resolve :
      (phase : Phase)
      → resolve_source_path p m.file (quiet phase) ≡ (ok (file_at plan phase), quiet phase)
  unfolding resolve_source_path ◌>>=◌ access
  run-resolve phase = rw (plan.safe, plan.rooted, source_at plan phase) refl

  run-target :
      (phase : Phase)
      → existing_recovery_target p m.file (quiet phase) ≡ (ok (file_at plan phase), quiet phase)
  unfolding existing_recovery_target ◌>>=◌ access
  run-target phase = rw (plan.safe, source_at plan phase) (run-resolve phase)

  within : (phase : Phase) → ltb limit (length (file_at plan phase).bytes) ≡ false
  within edited = ground (arith, plan.mutant_fits)
  within clean = ground (arith, plan.source_fits)
  within journalled = ground (arith, plan.source_fits)
  within armed = ground (arith, plan.source_fits)

  one_link : (phase : Phase) → ((file_at plan phase).links == 1) ≡ true
  one_link edited = refl
  one_link clean = ground (arith, plan.single)
  one_link journalled = ground (arith, plan.single)
  one_link armed = ground (arith, plan.single)

  run-current :
      (phase : Phase)
      → read_current_for_recovery m.file (file_at plan phase) limit (quiet phase)
        ≡ (ok (file_at plan phase).bytes, quiet phase)
  unfolding read_current_for_recovery read_bounded_source ◌>>=◌ access map_err
  run-current phase = rw (one_link phase, within phase) refl

  -- What recovery reports of a journal it finds.
  undone_from : Phase → RecoveryAction
  undone_from edited = restored
  undone_from _ = already_clean

  pointer_matches :
      validate_pointer_matches_journal (journal_of plan) (some (pointer_of plan)) ≡ Result.ok tt
  unfolding validate_pointer_matches_journal
  pointer_matches =
      rw (text_eq_refl m.file, text_eq_refl (p.sha256 source.bytes), text_eq_refl (p.sha256 mutant))
        refl

  run-restore :
      (phase : Phase)
      → restore_recovery_target p m.file
          (journal_of plan)
          source.bytes
          (file_at plan phase).bytes
          (disk_at plan phase).pointer
          (quiet phase)
        ≡ (ok (undone_from phase), quiet clean)
  unfolding undone_from restore_recovery_target clear_recovery_state remove_pointer remove_journal
      atomic_replace ◌>>=◌ access
  run-restore edited =
      rw (restore_recovery_target, classify_mutant plan)
        (rw
          (update-update sources m.file (file_at plan edited) (original_file plan)
            (original_file-found plan))
          refl)
  run-restore clean = rw (restore_recovery_target, classify_source plan) refl
  run-restore journalled = rw (restore_recovery_target, classify_source plan) refl
  run-restore armed = rw (restore_recovery_target, classify_source plan) refl

  matches :
      (phase : Phase)
      → validate_pointer_matches_journal (journal_of plan) (disk_at plan phase).pointer
        ≡ Result.ok tt
  unfolding validate_pointer_matches_journal
  matches clean = refl
  matches journalled = refl
  matches armed = pointer_matches
  matches edited = pointer_matches

  run-journal :
      (phase : Phase)
      → recover_existing_project_journal p
          (disk_at plan phase).pointer
          (journal_of plan)
          (quiet phase)
        ≡ (ok (undone_from phase), quiet clean)
  unfolding recover_existing_project_journal ◌>>=◌
  run-journal phase = rw (matches phase) (
      rw (decode_journal plan) (rw (run-target phase) (rw (run-current phase) (run-restore phase))))

  -- What recovery reports.
  abbrev pub action_from : Phase → RecoveryAction
  action_from clean = nothing
  action_from journalled = already_clean
  action_from armed = already_clean
  action_from edited = restored

  -- Recovery gives an answer for every planned edit (lawful platform, checked candidate, no
  -- collision): when nothing fails, it succeeds from each of the four disks whose state files are
  -- within their limits, says what it did, and leaves the disk exactly as it was before the edit.
  pub recover_active_locked-succeeds :
      (phase : Phase)
      → Fits plan phase
      → recover_active_locked p (quiet phase) ≡ (ok (action_from phase), quiet clean)
  unfolding recover_active_locked recover_project_journal undone_from ◌>>=◌
  recover_active_locked-succeeds clean fits =
      rw (run-read_pointer clean fits) (rw (run-read_journal clean fits) refl)
  recover_active_locked-succeeds journalled fits =
      rw (run-read_pointer journalled fits)
        (rw (run-read_journal journalled fits) (run-journal journalled))
  recover_active_locked-succeeds armed fits =
      rw (run-read_pointer armed fits) (rw (run-read_journal armed fits) (run-journal armed))
  recover_active_locked-succeeds edited fits =
      rw (run-read_pointer edited fits) (rw (run-read_journal edited fits) (run-journal edited))
