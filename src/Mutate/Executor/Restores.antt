-- ===== src/Mutate/Executor/Restores.antt =====
-- A whole run, and the project's sources.
use reporigor.Mutate.Guard.Recover.{recover_active_locked}
use reporigor.Mutate.Guard.Refuse.{Refuses, apply_bounded-Refuses}
use reporigor.Mutate.Guard.Load.{IsUndoable, Idle}
use reporigor.Mutate.Executor.Candidate.{Is, test_and_restore-restores}
use reporigor.Mutate.Act.{◌>>=◌, ◌>>◌, Outcome, World, Fault, pure}
use reporigor.Mutate.Act.Keeps.{
  Keeps, Keeps-bind, Keeps-pure, Keeps-fail, Settles, Keeps-access, Keeps-given,
}
use reporigor.Mutate.Guard.Restore.{SourceRestoreGuard, apply_bounded}
use reporigor.Mutate.Guard.Edit.{max_mutation_source_bytes, ApplyError, fatal, invalid}
use reporigor.Mutate.Guard.Apply.{HasNoCollision, IsApplied, apply_bounded-IsApplied}
use reporigor.Mutate.Guard.Disk.{SourceFile, Disk, IsLawful}
use reporigor.Mutate.Executor.Options.{MutationOptions}
use reporigor.Mutate.Model.{MutationCandidate, MutationResult, cancelled, RecoveryAction}
use reporigor.Mutate.Executor.Run.{
  Host, test_and_restore, attempt, refused, execute_candidate, check_cancellation, caught,
  execute_from, nonexecuted_result, execute_candidates,
}
use reporigor.Mutate.Guard.Cycle.{
  Rest, Unsettled, recoveries, resting, recover-quiet, recoveries-undoable, settled,
}
use reporigor.Prelude.{
  ℕ, suc, min, ◌≡◌, refl, ap₂, inl, inr, Option, none, some, List, [], ◌∷◌, map, arith, Text,
  Result,
}

-- The results are the candidates', one each and in order.
abbrev AreResultsOf : List MutationCandidate → List MutationResult → Type 0
AreResultsOf ms rs = map (λ (r : MutationResult). r.mutation) rs ≡ ms

module _ (h : Host) (o : MutationOptions) (sources : Text → Option SourceFile) where
  abbrev NoCollisions : List MutationCandidate → Type 0
  NoCollisions [] = Unit {0}
  NoCollisions (m ∷ ms) =
      HasNoCollision h.platform m sources (min o.max_source_bytes max_mutation_source_bytes)
      × NoCollisions ms

  module _ (lawful : IsLawful h.platform) where
    -- What applying a candidate leaves behind, when its error is a value.
    abbrev After : MutationCandidate → Result ApplyError SourceRestoreGuard → Disk → Type 0
    After m (Result.ok g) d = IsApplied h.platform m sources g d
    After m (Result.err invalid) d = Rest h.platform sources d
    After m (Result.err (fatal _)) d = Unsettled h.platform sources d

    outwards :
        (m : MutationCandidate) (d : Disk)
        → IsUndoable h.platform m sources d
        → Unsettled h.platform sources d
    outwards m d (inl k) = inl k
    outwards m d (inr (plan, k)) = inr (m, plan, k)

    attempt-After :
        (m : MutationCandidate)
        → HasNoCollision h.platform m sources (min o.max_source_bytes max_mutation_source_bytes)
        → Keeps
            (Rest h.platform sources)
            (Unsettled h.platform sources)
            (After m)
            (attempt (apply_bounded h.platform m o.max_source_bytes))
    unfolding attempt
    attempt-After m apart = record {
      at = λ w k.
          settle (apply_bounded h.platform m o.max_source_bytes w)
            ((apply_bounded-IsApplied h.platform m sources lawful o.max_source_bytes apart).at w k)
            (apply_bounded-Refuses h.platform m sources o.max_source_bytes w k);
    }
      where
        settle :
            (r : Outcome ApplyError SourceRestoreGuard × World Disk)
            → Settles (IsUndoable h.platform m sources) (IsApplied h.platform m sources) r
            → Refuses (Idle h.platform m sources) r
            → Settles (Unsettled h.platform sources) (After m) (caught r)
        settle (Outcome.ok g, w) k j = k
        settle (Outcome.crashed, w) k j = outwards m w.disk k
        settle (Outcome.err (fatal _), w) k j = outwards m w.disk k
        settle (Outcome.err invalid, w) k j = j

    check-restores :
        Keeps
          (Rest h.platform sources)
          (Unsettled h.platform sources)
          (λ _. Rest h.platform sources)
          check_cancellation
    unfolding check_cancellation
    check-restores = Keeps-access cancelled (λ d. d) (λ d k. inl k) (λ d k. inl k) (λ d k. k)

    candidate-restores :
        (m : MutationCandidate)
        → HasNoCollision h.platform m sources (min o.max_source_bytes max_mutation_source_bytes)
        → Keeps
            (Rest h.platform sources)
            (Unsettled h.platform sources)
            (Is h o sources m)
            (execute_candidate h o m)
    unfolding execute_candidate
    candidate-restores m apart = Keeps-bind check_cancellation _ check-restores (λ _.
        Keeps-bind (attempt (apply_bounded h.platform m o.max_source_bytes)) _
          (attempt-After m apart) (λ r. finish r))
      where
        finish :
            (r : Result ApplyError SourceRestoreGuard)
            → Keeps (After m r) (Unsettled h.platform sources) (Is h o sources m) (elim r [
              | Result.err e ↦ refused h o m e
              | Result.ok guard ↦ test_and_restore h o guard m
            ])
        finish (Result.ok g) = test_and_restore-restores h o sources m g
        finish (Result.err invalid) = Keeps-pure _ (λ d k. (refl, k))
        finish (Result.err (fatal e)) = Keeps-fail e (λ d k. k)

    abbrev pub AreDone : List MutationCandidate → List MutationResult → Disk → Type 0
    AreDone ms rs d = AreResultsOf ms rs × Rest h.platform sources d

    about-nonexecuted :
        (m : MutationCandidate) (k : ℕ) (r : MutationResult)
        → nonexecuted_result h o m k ≡ some r
        → r.mutation ≡ m
    unfolding nonexecuted_result
    about-nonexecuted m k r e = ground arith

    execute_from-restores :
        (ms : List MutationCandidate) (k : ℕ)
        → NoCollisions ms
        → Keeps
            (Rest h.platform sources)
            (Unsettled h.platform sources)
            (AreDone ms)
            (execute_from h o k ms)
    unfolding execute_from
    execute_from-restores [] k apart = Keeps-pure [] (λ d j. (refl, j))
    execute_from-restores (m ∷ ms) k apart =
        step (λ j. execute_from-restores ms j apart.1) (nonexecuted_result h o m k) refl
      where
        finish :
            ((j : ℕ)
              → Keeps
                  (Rest h.platform sources)
                  (Unsettled h.platform sources)
                  (AreDone ms)
                  (execute_from h o j ms))
            → (r : MutationResult) (j : ℕ) → r.mutation ≡ m
            → Keeps
                (Rest h.platform sources)
                (Unsettled h.platform sources)
                (AreDone (m ∷ ms))
                (do results ← execute_from h o j ms; pure (r ∷ results))
        finish later r j same = Keeps-bind (execute_from h o j ms) _ (later j) (λ rs.
            Keeps-given λ done. Keeps-pure (r ∷ rs) (λ d i.
              (ap₂ (λ (x : MutationCandidate) (xs : List MutationCandidate). x ∷ xs) same done, i)))

        step :
            ((j : ℕ)
              → Keeps
                  (Rest h.platform sources)
                  (Unsettled h.platform sources)
                  (AreDone ms)
                  (execute_from h o j ms))
            → (q : Option MutationResult) → nonexecuted_result h o m k ≡ q
            → Keeps
                (Rest h.platform sources)
                (Unsettled h.platform sources)
                (AreDone (m ∷ ms))
                (elim q [
                  | some result ↦ do results ← execute_from h o k ms; pure (result ∷ results)
                  | none ↦ do
                    check_cancellation
                    result ← execute_candidate h o m
                    results ← execute_from h o (suc k) ms
                    pure (result ∷ results)
                ])
        step later (some r) e = finish later r k (about-nonexecuted m k r e)
        step later none e = Keeps-bind check_cancellation _ check-restores (λ _.
            Keeps-bind (execute_candidate h o m) _ (candidate-restores m apart.0)
              (λ r. Keeps-given λ same. finish later r (suc k) same))

    -- On a lawful platform, where no source collides with its own mutant under SHA-256: a run over
    -- candidates in any state of the sources, with faults, cancellations and deaths
    -- anywhere. If it returns, there is one result for each candidate, in order, and the disk is
    -- exactly as before the run. If it does not, the disk is as before or in the middle of one
    -- edit, which recovery undoes.
    pub execute_candidates-restores :
        (ms : List MutationCandidate)
        → NoCollisions ms
        → Keeps
            (Rest h.platform sources)
            (Unsettled h.platform sources)
            (AreDone ms)
            (execute_candidates h o ms)
    unfolding execute_candidates
    execute_candidates-restores ms apart = execute_from-restores ms 0 apart

    -- On a lawful platform, where no source collides with its own mutant under SHA-256: after any
    -- such run, and any recoveries that fail or die in their turn, the first recovery
    -- in which nothing fails succeeds, and leaves every source as before the run, mode and time
    -- included, with no journal and no pointer.
    pub execute_candidates-recovers :
        (ms : List MutationCandidate) (faults : List Fault) (later : List (List Fault))
        → NoCollisions ms
        → (action : RecoveryAction) × (recover_active_locked h.platform (record {
          disk =
              recoveries h.platform later
                (execute_candidates h o ms
                  (record { disk = resting sources; faults = faults })).1.disk;
          faults = [];
        })
            ≡ (Outcome.ok action, record { disk = resting sources; faults = [] }))
    execute_candidates-recovers ms faults later apart = recover-quiet h.platform sources _ (
        recoveries-undoable h.platform sources later _ (
          settled h.platform sources {Q = AreDone ms}
            (execute_candidates h o ms (record { disk = resting sources; faults = faults }))
            (λ a d k. k.1)
            ((execute_candidates-restores ms apart).at
              (record { disk = resting sources; faults = faults }) refl)))
