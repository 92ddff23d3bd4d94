-- ===== src/Mutate/Guard/Undo.antt =====
-- The guard's own undoing, at the end of a candidate and again when the guard is dropped.
use reporigor.Mutate.Guard.Recovery.{existing_recovery_target-Returns, read_current-Returns}
use reporigor.Mutate.Guard.Restore.{
  restore, finish_restore, SourceRestoreGuard, restore_and_drop, drop_after, after_drop,
}
use reporigor.Mutate.Guard.Safety.{
  Safe, atomic_replace-move, move, Returns-then, remove_pointer-move, remove_journal-move,
}
use reporigor.Mutate.Act.Keeps.{Settles, Keeps, Keeps-bind}
use reporigor.Mutate.Guard.Phases.{At, Plan, Phase, journalled, armed, clean, edited, file_at}
use reporigor.Mutate.Model.{MutationCandidate, MutationError, recovery_conflict}
use reporigor.Mutate.Guard.Disk.{
  Platform, SourceFile, Disk, remove_pointer, atomic_replace, remove_journal,
}
use reporigor.Mutate.Act.{◌>>◌, Act, fail, Outcome, World}
use reporigor.Prelude.{refl, Option, none, if◌then◌else◌, Text, text_eq, text_eq_refl}

module _ {p : Platform} {m : MutationCandidate} {sources : Text → Option SourceFile}
    (plan : Plan p m sources) where
  open plan use {limit, source, mutant}

  abbrev pub guard_of : SourceRestoreGuard
  guard_of = record {
    file = m.file;
    original = source.bytes;
    original_sha256 = p.sha256 source.bytes;
    mutated_sha256 = p.sha256 mutant;
    max_source_bytes = limit;
    permissions = source.permissions;
  }

  abbrev AtClean : Unit {0} → Disk → Type 0
  AtClean _ = At plan clean

  finish_clean : Keeps (At plan clean) (Safe plan) AtClean (finish_restore p)
  unfolding finish_restore remove_pointer remove_journal
  finish_clean =
      Keeps-bind remove_pointer _
        (move plan clean clean (λ d. record d { pointer = none }) (λ fits. fits) refl)
        (λ _. move plan clean clean (λ d. record d { journal = none }) (λ fits. fits) refl)

  finish_journalled : Keeps (At plan journalled) (Safe plan) AtClean (finish_restore p)
  unfolding finish_restore remove_pointer
  finish_journalled =
      Keeps-bind remove_pointer _
        (move plan journalled journalled (λ d. record d { pointer = none }) (λ fits. fits) refl)
        (λ _. remove_journal-move plan)

  finish_armed : Keeps (At plan armed) (Safe plan) AtClean (finish_restore p)
  unfolding finish_restore
  finish_armed =
      Keeps-bind remove_pointer _ (remove_pointer-move plan) (λ _. remove_journal-move plan)

  -- The content test of `restore`, once the current bytes are known.
  abbrev decide : Text → Act Disk MutationError (Unit {0})
  decide current =
      if text_eq (p.sha256 current) (p.sha256 source.bytes)
      then finish_restore p
      else if text_eq (p.sha256 current) (p.sha256 mutant)
      then (do atomic_replace m.file source.bytes source.permissions; finish_restore p)
      else fail (recovery_conflict m.file)

  read-decide :
      (phase : Phase)
      → Keeps (At plan phase) (Safe plan) AtClean (decide (file_at plan phase).bytes)
      → Keeps (At plan phase) (Safe plan) AtClean (restore p guard_of)
  unfolding restore
  read-decide phase rest =
      Returns-then plan phase _ _ (file_at plan phase) (existing_recovery_target-Returns plan phase)
        (Returns-then plan phase _ _ (file_at plan phase).bytes
          (read_current-Returns plan phase limit) rest)

  decide_source :
      (phase : Phase)
      → Keeps (At plan phase) (Safe plan) AtClean (finish_restore p)
      → Keeps (At plan phase) (Safe plan) AtClean (decide source.bytes)
  decide_source phase k = rw (text_eq_refl (p.sha256 source.bytes)) k

  decide_mutant : Keeps (At plan edited) (Safe plan) AtClean (decide mutant)
  decide_mutant = rw plan.distinct (
      rw (text_eq_refl (p.sha256 mutant)) (
        Keeps-bind (atomic_replace m.file source.bytes source.permissions) _
          (atomic_replace-move plan) (λ _. finish_armed)))

  restore-phase : (phase : Phase) → Keeps (At plan phase) (Safe plan) AtClean (restore p guard_of)
  restore-phase clean = read-decide clean (decide_source clean finish_clean)
  restore-phase journalled = read-decide journalled (decide_source journalled finish_journalled)
  restore-phase armed = read-decide armed (decide_source armed finish_armed)
  restore-phase edited = read-decide edited decide_mutant

  restore-undoes : Keeps (Safe plan) (Safe plan) AtClean (restore p guard_of)
  restore-undoes = record { at = λ w h. (restore-phase h.0).at w h.1 }

  -- The end of a planned edit (lawful platform, checked candidate, no collision), with the second
  -- attempt of the dropped guard: a success means that the disk is as before the edit, and after a
  -- failure or a crash recovery still applies.
  pub restore_and_drop-undoes : Keeps (Safe plan) (Safe plan) AtClean (restore_and_drop p guard_of)
  unfolding restore_and_drop
  restore_and_drop-undoes = record {
    at = λ w h. first (restore p guard_of w) (restore-undoes.at w h);
  }
    where
      second :
          (e : MutationError) (r : Outcome MutationError (Unit {0}) × World Disk)
          → Settles (Safe plan) AtClean r
          → Settles {E = MutationError} (Safe plan) AtClean (after_drop p e r)
      second e (Outcome.ok _, w) h = (clean, h)
      second e (Outcome.err _, w) h = h
      second e (Outcome.crashed, w) h = h

      first :
          (r : Outcome MutationError (Unit {0}) × World Disk)
          → Settles (Safe plan) AtClean r
          → Settles {E = MutationError} (Safe plan) AtClean (drop_after p guard_of r)
      first (Outcome.ok _, w) h = h
      first (Outcome.crashed, w) h = h
      first (Outcome.err e, w) h = second e (restore p guard_of w) (restore-undoes.at w h)
