-- ===== src/Mutate/Guard/Writes.antt =====
-- The writes of `apply_bounded`, each from one phase to the next.
use reporigor.Mutate.Guard.Recover.{recover_active_locked}
use reporigor.Mutate.Guard.Recovery.{IsUndone, recover_active_locked-undoes}
use reporigor.Mutate.Guard.Safety.{Safe, move, gets-then, lift-then}
use reporigor.Mutate.Guard.Restore.{
  persist_mutation_state, replace_or_recover, after_recovery, recover_after,
}
use reporigor.Mutate.Act.Keeps.{Keeps, Keeps-bind, Settles}
use reporigor.Mutate.Guard.Phases.{
  At, Plan, journalled, clean, armed, edited, journal_of, pointer_of, mutant_file,
}
use reporigor.Mutate.Model.{MutationCandidate, MutationError, RecoveryAction}
use reporigor.Mutate.Act.{Outcome, World}
use reporigor.Mutate.Guard.Disk.{
  write_journal, write_pointer, Platform, SourceFile, atomic_replace_for_mutation, atomic_replace,
  max_journal_bytes, update, Disk,
}
use reporigor.Prelude.{refl, Option, some, arith, Text}

module _ {p : Platform} {m : MutationCandidate} {sources : Text → Option SourceFile}
    (plan : Plan p m sources) where
  open plan use {limit, source, mutant}

  write_journal-move :
      Keeps
        (At plan clean)
        (Safe plan)
        (λ _. At plan journalled)
        (write_journal p (journal_of plan) max_journal_bytes)
  unfolding write_journal
  write_journal-move = gets-then plan clean _ _ (
      lift-then plan clean _ _ (λ _ _. lift-then plan clean _ _ (λ _ small.
        move plan clean journalled (λ d. record d { journal = some (journal_of plan) })
          (λ _. ground (arith, small)) refl)))

  write_pointer-move :
      Keeps
        (At plan journalled)
        (Safe plan)
        (λ _. At plan armed)
        (write_pointer p (journal_of plan))
  unfolding write_pointer
  write_pointer-move = gets-then plan journalled _ _ (
      lift-then plan journalled _ _ (λ _ _. lift-then plan journalled _ _ (λ _ small.
        move plan journalled armed (λ d. record d { pointer = some (pointer_of plan) })
          (λ fits. (fits, ground (arith, small))) refl)))

  pub persist-move :
      Keeps
        (At plan clean)
        (Safe plan)
        (λ _. At plan armed)
        (persist_mutation_state p (journal_of plan))
  unfolding persist_mutation_state
  persist-move = Keeps-bind _ _ write_journal-move (λ _. write_pointer-move)

  replace-move :
      Keeps
        (At plan armed)
        (Safe plan)
        (λ _. At plan edited)
        (atomic_replace_for_mutation p m.file mutant source.permissions)
  unfolding atomic_replace_for_mutation atomic_replace
  replace-move =
      move plan armed edited
        (λ d. record d { sources = update d.sources m.file (mutant_file plan) }) (λ fits. fits) refl

  pub replace_or_recover-move :
      Keeps (At plan armed) (Safe plan) (λ _. At plan edited) (replace_or_recover p m source mutant)
  unfolding replace_or_recover
  replace_or_recover-move = record {
    at = λ w h.
        first (atomic_replace_for_mutation p m.file mutant source.permissions w)
          (replace-move.at w h);
  }
    where
      second :
          (e : MutationError) (r : Outcome MutationError RecoveryAction × World Disk)
          → Settles (Safe plan) (IsUndone plan) r
          → Settles (Safe plan) (λ _. At plan edited) (after_recovery p e r)
      second e (Outcome.ok _, w) h = (clean, (tt, h))
      second e (Outcome.err _, w) h = h
      second e (Outcome.crashed, w) h = h

      first :
          (r : Outcome MutationError (Unit {0}) × World Disk)
          → Settles (Safe plan) (λ _. At plan edited) r
          → Settles (Safe plan) (λ _. At plan edited) (recover_after p r)
      first (Outcome.ok _, w) h = h
      first (Outcome.crashed, w) h = h
      first (Outcome.err e, w) h =
          second e (recover_active_locked p w) ((recover_active_locked-undoes plan).at w h)
