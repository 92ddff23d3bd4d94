-- ===== src/Mutate/Guard/Recovery.antt =====
-- Recovery, cut off anywhere and run again, ends with the original source and a clean state.
use reporigor.Mutate.Guard.Safety.{
  Returns, lift-then, gets-then, Safe, remove_pointer-move, remove_journal-move, Returns-then,
  look-then, atomic_replace-move, read_pointer-Returns, read_journal-Returns,
}
use reporigor.Mutate.Act.Keeps.{Keeps, Keeps-pure, Keeps-bind, Keeps-map_err}
use reporigor.Mutate.Guard.Disk.{
  ActiveRunRecord, Disk, remove_pointer, read_bounded_source, atomic_replace, Platform, SourceFile,
}
use reporigor.Mutate.Model.{RecoveryAction, already_clean, restored, nothing, MutationCandidate}
use reporigor.Mutate.Guard.Recover.{
  clear_recovery_state, recover_existing_project_journal, read_current_for_recovery,
  existing_recovery_target, resolve_source_path, restore_recovery_target, classify_recovery_content,
  decode_original_journal_content, original, mutated, as_conflict, recover_active_locked,
  recover_project_journal,
}
use reporigor.Mutate.Guard.Phases.{
  At, Plan, Phase, disk_at, file_at, clean, journalled, armed, edited, journal_of, pointer_of,
}
use reporigor.Prelude.{ℕ, ◌≡◌, refl, subst, Option, none, some, arith, Text, text_eq_refl, Result}

module _ {p : Platform} {m : MutationCandidate} {sources : Text → Option SourceFile}
    (plan : Plan p m sources) where
  open plan use {limit, source, mutant}

  pub source_at : (phase : Phase) → (disk_at plan phase).sources m.file ≡ some (file_at plan phase)
  source_at clean = plan.found
  source_at journalled = plan.found
  source_at armed = plan.found
  source_at edited = rw (text_eq_refl m.file)

  resolve_source_path-Returns :
      (phase : Phase) → Returns plan phase (resolve_source_path p m.file) (file_at plan phase)
  unfolding resolve_source_path
  resolve_source_path-Returns phase = lift-then plan phase _ _ λ _ _.
      lift-then plan phase _ _ λ _ _. look-then plan phase _ (
        gets-then plan phase _ _
          (rw (source_at phase) (Keeps-pure (file_at plan phase) (λ d h. (refl, h)))))

  pub existing_recovery_target-Returns :
      (phase : Phase) → Returns plan phase (existing_recovery_target p m.file) (file_at plan phase)
  unfolding existing_recovery_target
  existing_recovery_target-Returns phase = lift-then plan phase _ _ λ _ _.
      look-then plan phase _
        (gets-then plan phase _ _ (rw (source_at phase) (resolve_source_path-Returns phase)))

  bounded :
      (phase : Phase) (bound : ℕ)
      → Returns plan phase
          (read_bounded_source m.file (file_at plan phase) bound)
          (file_at plan phase)
  unfolding read_bounded_source
  bounded phase bound = look-then plan phase _ (
      lift-then plan phase _ _ (λ _ _.
        lift-then plan phase _ _ (λ _ _. Keeps-pure (file_at plan phase) (λ d h. (refl, h)))))

  pub read_current-Returns :
      (phase : Phase) (bound : ℕ)
      → Returns plan phase
          (read_current_for_recovery m.file (file_at plan phase) bound)
          (file_at plan phase).bytes
  unfolding read_current_for_recovery
  read_current-Returns phase bound =
      Returns-then plan phase _ _ (file_at plan phase)
        (Keeps-map_err (as_conflict m.file) (read_bounded_source m.file (file_at plan phase) bound)
          (bounded phase bound))
        (Keeps-pure (file_at plan phase).bytes (λ d h. (refl, h)))

  clear_some :
      (a : ActiveRunRecord)
      → Keeps (At plan armed) (Safe plan) (λ _. At plan clean) (clear_recovery_state (some a))
  unfolding clear_recovery_state
  clear_some a =
      Keeps-bind remove_pointer _ (remove_pointer-move plan) (λ _. remove_journal-move plan)

  clear_none :
      Keeps (At plan journalled) (Safe plan) (λ _. At plan clean) (clear_recovery_state none)
  unfolding clear_recovery_state
  clear_none = remove_journal-move plan

  pub decode_journal : decode_original_journal_content p (journal_of plan) ≡ Result.ok source.bytes
  unfolding decode_original_journal_content
  decode_journal =
      rw (plan.lawful.decode-encode source.bytes, decode_original_journal_content)
        (ground (
          arith,
          plan.positive,
          plan.below,
          plan.source_fits,
          text_eq_refl (p.sha256 source.bytes),
        ))

  pub classify_source : classify_recovery_content p source.bytes (journal_of plan) ≡ original
  unfolding classify_recovery_content
  classify_source = rw (text_eq_refl (p.sha256 source.bytes))

  pub classify_mutant : classify_recovery_content p mutant (journal_of plan) ≡ mutated
  unfolding classify_recovery_content
  classify_mutant = rw (plan.distinct) (rw (text_eq_refl (p.sha256 mutant)))

  -- Recovery has done its work: the disk is as before the edit.
  abbrev pub IsUndone : RecoveryAction → Disk → Type 0
  IsUndone action d = d ≡ disk_at plan clean

  undo_journalled :
      Keeps
        (At plan journalled)
        (Safe plan)
        IsUndone
        (restore_recovery_target p m.file (journal_of plan) source.bytes source.bytes none)
  unfolding restore_recovery_target
  undo_journalled =
      rw (classify_source, restore_recovery_target)
        (Keeps-bind (clear_recovery_state none) _ clear_none
          (λ _. Keeps-pure already_clean (λ d h. h.1)))

  undo_armed :
      (a : ActiveRunRecord)
      → Keeps
          (At plan armed)
          (Safe plan)
          IsUndone
          (restore_recovery_target p m.file (journal_of plan) source.bytes source.bytes (some a))
  unfolding restore_recovery_target
  undo_armed a =
      rw (classify_source, restore_recovery_target)
        (Keeps-bind (clear_recovery_state (some a)) _ (clear_some a)
          (λ _. Keeps-pure already_clean (λ d h. h.1)))

  undo_edited :
      (a : ActiveRunRecord)
      → Keeps
          (At plan edited)
          (Safe plan)
          IsUndone
          (restore_recovery_target p m.file (journal_of plan) source.bytes mutant (some a))
  unfolding restore_recovery_target
  undo_edited a =
      rw (classify_mutant, restore_recovery_target)
        (Keeps-bind (atomic_replace m.file source.bytes source.permissions) _
          (atomic_replace-move plan)
          (λ _.
            Keeps-bind (clear_recovery_state (some a)) _ (clear_some a)
              (λ _. Keeps-pure restored (λ d h. h.1))))

  -- The common part: the journal is decoded, and the target read.
  journal-undo :
      (phase : Phase) (active : Option ActiveRunRecord)
      → Keeps (At plan phase) (Safe plan) IsUndone (
          restore_recovery_target p m.file
            (journal_of plan)
            source.bytes
            (file_at plan phase).bytes
            active)
      → Keeps
          (At plan phase)
          (Safe plan)
          IsUndone
          (recover_existing_project_journal p active (journal_of plan))
  unfolding recover_existing_project_journal
  journal-undo phase active undo = lift-then plan phase _ _ λ _ _.
      lift-then plan phase _ _ λ bytes decoded.
        Returns-then plan phase _ _ (file_at plan phase) (existing_recovery_target-Returns phase) (
          Returns-then plan phase _ _ (file_at plan phase).bytes (read_current-Returns phase limit)
            (subst
              (λ (b : Text). Keeps (At plan phase) (Safe plan) IsUndone (
                restore_recovery_target p m.file (journal_of plan) b (file_at plan phase).bytes
                  active))
              (cc (decode_journal, decoded)) undo))

  -- Recovery from each of the four disks.
  recover-phase :
      (phase : Phase) → Keeps (At plan phase) (Safe plan) IsUndone (recover_active_locked p)
  unfolding recover_active_locked recover_project_journal
  recover-phase clean = Returns-then plan clean _ _ none (read_pointer-Returns plan clean) (
      Returns-then plan clean _ _ none (read_journal-Returns plan clean)
        (Keeps-pure nothing (λ d h. h.1)))
  recover-phase journalled =
      Returns-then plan journalled _ _ none (read_pointer-Returns plan journalled) (
        Returns-then plan journalled _ _ (some (journal_of plan))
          (read_journal-Returns plan journalled) (journal-undo journalled none undo_journalled))
  recover-phase armed =
      Returns-then plan armed _ _ (some (pointer_of plan)) (read_pointer-Returns plan armed) (
        Returns-then plan armed _ _ (some (journal_of plan)) (read_journal-Returns plan armed)
          (journal-undo armed (some (pointer_of plan)) (undo_armed (pointer_of plan))))
  recover-phase edited =
      Returns-then plan edited _ _ (some (pointer_of plan)) (read_pointer-Returns plan edited) (
        Returns-then plan edited _ _ (some (journal_of plan)) (read_journal-Returns plan edited)
          (journal-undo edited (some (pointer_of plan)) (undo_edited (pointer_of plan))))

  -- For every planned edit (lawful platform, checked candidate, no collision), from any disk that
  -- it, its undoing or an earlier recovery can leave behind, whatever
  -- fails and wherever the process dies: if recovery returns, the disk is exactly as it was before
  -- the edit (every source with its mode and time, no journal, no pointer), and if it does not,
  -- recovery can be run again.
  pub recover_active_locked-undoes :
      Keeps (Safe plan) (Safe plan) IsUndone (recover_active_locked p)
  recover_active_locked-undoes = record { at = λ w h. (recover-phase h.0).at w h.1 }
