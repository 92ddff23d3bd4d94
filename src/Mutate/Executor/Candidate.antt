-- ===== src/Mutate/Executor/Candidate.antt =====
-- One candidate: after its edit, its commands and its undoing.
use reporigor.Mutate.Executor.Steady.{Caught, attempt-Keeps, About-applied}
use reporigor.Mutate.Act.{lift}
use reporigor.Mutate.Guard.Undo.{guard_of, restore_and_drop-undoes}
use reporigor.Mutate.Guard.Phases.{Plan, At, edited, IsRecoverable, clean}
use reporigor.Mutate.Act.Keeps.{
  Keeps, Keeps-bind, Keeps-stop, Keeps-weaken, Keeps-given, Keeps-lift,
}
use reporigor.Mutate.Guard.Restore.{SourceRestoreGuard, restore_and_drop}
use reporigor.Mutate.Guard.Apply.{IsApplied}
use reporigor.Mutate.Guard.Disk.{SourceFile, Disk}
use reporigor.Mutate.Executor.Options.{MutationOptions}
use reporigor.Mutate.Model.{MutationCandidate, MutationResult, MutationError}
use reporigor.Mutate.Executor.Run.{Host, test_and_restore, attempt, execute_applied_candidate}
use reporigor.Mutate.Guard.Cycle.{Rest, Unsettled}
use reporigor.Prelude.{◌≡◌, inr, Option, arith, Text, Result}

module _ (h : Host) (o : MutationOptions) (sources : Text → Option SourceFile) where
  abbrev pub Is : MutationCandidate → MutationResult → Disk → Type 0
  Is m r d = (r.mutation ≡ m) × Rest h.platform sources d

  -- A caught result is about the candidate.
  abbrev Names : MutationCandidate → Result MutationError MutationResult → Type 0
  Names m (Result.ok r) = r.mutation ≡ m
  Names m (Result.err e) = Unit {0}

  module _ {m : MutationCandidate} (plan : Plan h.platform m sources) where
    abbrev Edited : Disk → Type 0
    Edited d = At plan edited d

    tested :
        Keeps Edited
          (IsRecoverable plan)
          (λ r d. Names m r × Edited d)
          (attempt (execute_applied_candidate h o m))
    tested =
        Keeps-stop (λ d k. (edited, k))
          (Keeps-weaken {P = Edited}
            {Q = Caught {E = MutationError} Edited (λ r d. (r.mutation ≡ m) × Edited d)} (λ d k. k)
            named (attempt-Keeps (execute_applied_candidate h o m) (About-applied h o Edited m)))
      where
        named :
            (r : Result MutationError MutationResult) (d : Disk)
            → Caught Edited (λ r d. (r.mutation ≡ m) × Edited d) r d
            → Names m r × Edited d
        named (Result.ok r) d k = k
        named (Result.err e) d k = (tt, k)

    undone :
        Keeps Edited
          (IsRecoverable plan)
          (λ _. Rest h.platform sources)
          (restore_and_drop h.platform (guard_of plan))
    undone =
        Keeps-weaken {P = IsRecoverable plan} {Q = λ _. At plan clean} (λ d k. (edited, k))
          (λ a d k. k.1) (restore_and_drop-undoes plan)

    returned :
        (r : Result MutationError MutationResult)
        → Names m r
        → Keeps (Rest h.platform sources) (IsRecoverable plan) (Is m) (lift r)
    returned r about = Keeps-lift r (λ d k. (clean, (tt, k))) (λ a d e k. (named r a about e, k))
      where
        named :
            (r : Result MutationError MutationResult) (a : MutationResult)
            → Names m r
            → r ≡ Result.ok a
            → a.mutation ≡ m
        named (Result.ok b) a about e = ground (arith, about, e)
        named (Result.err x) a about e = ground (arith, e)

  -- After a candidate's edit, with its guard in hand.
  pub test_and_restore-restores :
      (m : MutationCandidate) (g : SourceRestoreGuard)
      → Keeps
          (IsApplied h.platform m sources g)
          (Unsettled h.platform sources)
          (Is m)
          (test_and_restore h o g m)
  unfolding test_and_restore
  test_and_restore-restores m g = record {
    at = λ w (plan, edit, same, k). rw same (
        (Keeps-stop {I = IsRecoverable plan} {I' = Unsettled h.platform sources}
            (λ d j. inr (m, plan, j)) (body plan)).at
          w k);
  }
    where
      body :
          (plan : Plan h.platform m sources)
          → Keeps
              (At plan edited)
              (IsRecoverable plan)
              (Is m)
              (test_and_restore h o (guard_of plan) m)
      body plan = Keeps-bind (attempt (execute_applied_candidate h o m)) _ (tested plan) (λ r.
          Keeps-given λ about.
            Keeps-bind (restore_and_drop h.platform (guard_of plan)) _ (undone plan)
              (λ _. returned plan r about))
