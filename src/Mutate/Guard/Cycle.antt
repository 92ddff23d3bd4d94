-- ===== src/Mutate/Guard/Cycle.antt =====
-- Later processes: each tries to recover, and may fail or die in its turn.
use reporigor.Mutate.Guard.Phases.{IsRecoverable, Plan}
use reporigor.Mutate.Guard.Total.{action_from, recover_active_locked-succeeds}
use reporigor.Mutate.Act.Keeps.{
  Settles, Keeps, Keeps-bind, Keeps-gets, Keeps-pure, Keeps-stop, Keeps-access,
}
use reporigor.Mutate.Guard.Recover.{recover_active_locked, recover_project_journal}
use reporigor.Mutate.Model.{MutationCandidate, RecoveryAction, MutationError, nothing, io}
use reporigor.Mutate.Guard.Disk.{Platform, Disk, SourceFile, read_pointer, read_journal}
use reporigor.Mutate.Act.{◌>>=◌, ok, Act, Fault, World, gets, access, Outcome}
use reporigor.Mutate.Guard.Recovery.{recover_active_locked-undoes}
use reporigor.Prelude.{◌≡◌, refl, sym, ap, subst, ◌⊎◌, inl, inr, Option, none, List, [], ◌∷◌, Text}

unfoldable pub recoveries : Platform → List (List Fault) → Disk → Disk
recoveries p [] d = d
recoveries p (faults ∷ later) d =
    recoveries p later (recover_active_locked p (record { disk = d; faults = faults })).1.disk

-- These sources, and no recovery state.
abbrev pub resting : (Text → Option SourceFile) → Disk
resting sources = record { sources = sources; journal = none; pointer = none }

module _ (p : Platform) (sources : Text → Option SourceFile) where
  abbrev pub Rest : Disk → Type 0
  Rest d = d ≡ resting sources

  -- At rest, or in the middle of an edit of some file.
  abbrev pub Unsettled : Disk → Type 0
  Unsettled d =
      (d ≡ resting sources)
      ⊎ ((m : MutationCandidate) × (plan : Plan p m sources) × IsRecoverable plan d)

  pub settled :
      {E A : Type 0} {Q : A → Disk → Type 0} (r : Outcome E A × World Disk)
      → ((a : A) (d : Disk) → Q a d → Rest d)
      → Settles Unsettled Q r
      → Unsettled r.1.disk
  settled (Outcome.ok a, w) done h = inl (done a w.disk h)
  settled (Outcome.err _, w) done h = h
  settled (Outcome.crashed, w) done h = h

  look-idle : Keeps Rest Unsettled (λ _. Rest) (access io (λ d. d))
  look-idle = Keeps-access io (λ d. d) (λ d h. inl h) (λ d h. inl h) (λ d h. h)

  module _ {A B : Type 0} {R : B → Disk → Type 0} where
    returns-idle :
        (act : Act Disk MutationError A) (k : A → Act Disk MutationError B) (v : A)
        → Keeps Rest Unsettled (λ a d. (a ≡ v) × Rest d) act
        → Keeps Rest Unsettled R (k v)
        → Keeps Rest Unsettled R (act >>= k)
    returns-idle act k v first rest = Keeps-bind act k first λ a. record {
      at = λ w h. subst (λ (x : A). Settles Unsettled R (k x w)) (sym h.0) (rest.at w h.1);
    }

  gets-idle :
      {A B : Type 0} {R : B → Disk → Type 0} (f : Disk → A) (k : A → Act Disk MutationError B)
      → Keeps Rest Unsettled R (k (f (resting sources)))
      → Keeps Rest Unsettled R (gets f >>= k)
  gets-idle f k rest =
      returns-idle (gets f) k (f (resting sources)) (Keeps-gets f (λ d h. (ap f h, h))) rest

  read_pointer-idle : Keeps Rest Unsettled (λ a d. (a ≡ none) × Rest d) (read_pointer p)
  unfolding read_pointer
  read_pointer-idle =
      Keeps-bind _ _ look-idle (λ _. gets-idle _ _ (Keeps-pure none (λ d h. (refl, h))))

  read_journal-idle : Keeps Rest Unsettled (λ a d. (a ≡ none) × Rest d) (read_journal p)
  unfolding read_journal
  read_journal-idle =
      Keeps-bind _ _ look-idle (λ _. gets-idle _ _ (Keeps-pure none (λ d h. (refl, h))))

  recover-idle : Keeps Rest Unsettled (λ _. Rest) (recover_active_locked p)
  unfolding recover_active_locked recover_project_journal
  recover-idle =
      returns-idle (read_pointer p) _ none read_pointer-idle
        (returns-idle (read_journal p) _ none read_journal-idle (Keeps-pure nothing (λ d h. h)))

  recover-undoable : Keeps Unsettled Unsettled (λ _. Rest) (recover_active_locked p)
  recover-undoable = record { at = λ w h. from w h }
    where
      from :
          (w : World Disk)
          → Unsettled w.disk
          → Settles Unsettled (λ _. Rest) (recover_active_locked p w)
      from w (inl h) = recover-idle.at w h
      from w (inr (m, plan, h)) =
          (Keeps-stop {I = IsRecoverable plan} (λ d k. inr (m, plan, k))
              (recover_active_locked-undoes plan)).at
            w h

  pub recoveries-undoable :
      (later : List (List Fault)) (d : Disk) → Unsettled d → Unsettled (recoveries p later d)
  unfolding recoveries
  recoveries-undoable [] d h = h
  recoveries-undoable (faults ∷ later) d h =
      recoveries-undoable later _
        (settled _ (λ a d k. k) (recover-undoable.at (record { disk = d; faults = faults }) h))

  quiet-idle :
      recover_active_locked p (record { disk = resting sources; faults = [] })
      ≡ (ok nothing, record { disk = resting sources; faults = [] })
  unfolding recover_active_locked recover_project_journal read_pointer read_journal ◌>>=◌ access
  quiet-idle = refl

  -- Recovery with nothing failing ends on the idle disk.
  abbrev Recovers : Disk → Type 0
  Recovers d =
      (action : RecoveryAction) × (recover_active_locked p (record { disk = d; faults = [] })
        ≡ (ok action, record { disk = resting sources; faults = [] }))

  pub recover-quiet : (d : Disk) → Unsettled d → Recovers d
  recover-quiet d (inl h) = (nothing, rw h quiet-idle)
  recover-quiet d (inr (m, plan, h)) =
      (action_from plan h.0, rw (h.1.1) (recover_active_locked-succeeds plan h.0 h.1.0))
