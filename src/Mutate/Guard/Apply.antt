-- ===== src/Mutate/Guard/Apply.antt =====
-- Applying a mutant: from a disk with no recovery state, whatever fails and wherever the process
-- dies, to the mutant in place or to a disk that recovery can clean up.
use reporigor.Mutate.Guard.Writes.{persist-move, replace_or_recover-move}
use reporigor.Mutate.Guard.Load.{IsLoaded, Idle, IsUndoable, load-Idle}
use reporigor.Mutate.Guard.Undo.{guard_of}
use reporigor.Mutate.Guard.Edit.Laws.{IsEdited, build_mutated_source-IsEdited}
use reporigor.Mutate.Guard.Edit.{fatal, build_mutated_source, max_mutation_source_bytes}
use reporigor.Mutate.Guard.Restore.{
  persist_mutation_state, replace_or_recover, load_mutation_source, SourceRestoreGuard,
  apply_bounded, mutation_journal_record,
}
use reporigor.Mutate.Act.Keeps.{
  Keeps, Keeps-weaken, Keeps-bind, Keeps-pure, Keeps-lift, Keeps-given, Keeps-map_err, Keeps-stop,
}
use reporigor.Mutate.Guard.Phases.{Plan, clean, edited, journal_of, IsRecoverable, At}
use reporigor.Mutate.Model.{MutationCandidate}
use reporigor.Mutate.Act.{◌>>◌, pure, lift, map_err}
use reporigor.Mutate.Guard.Disk.{Platform, SourceFile, Disk, IsLawful}
use reporigor.Prelude.{
  ℕ, min, ◌≡◌, refl, ◌≢◌, inl, inr, false, Option, some, arith, Text, text_eq, Result,
}

module _ (p : Platform) (m : MutationCandidate) (sources : Text → Option SourceFile) where
  -- The source and its mutant are no SHA-256 collision.
  abbrev pub HasNoCollision : ℕ → Type 0
  HasNoCollision limit =
      (source : SourceFile) (mutant : Text)
      → sources m.file ≡ some source
      → build_mutated_source m source.bytes limit ≡ Result.ok mutant
      → source.bytes ≢ mutant
      → text_eq (p.sha256 mutant) (p.sha256 source.bytes) ≡ false

  -- The mutant is in place, the edit is exactly the candidate's, and the guard, the journal and
  -- the pointer describe it.
  abbrev pub IsApplied : SourceRestoreGuard → Disk → Type 0
  IsApplied g d =
      (plan : Plan p m sources) × (IsEdited m plan.limit plan.source.bytes plan.mutant)
      × (g ≡ guard_of plan)
      × At plan edited d

  module _ (lawful : IsLawful p) (requested : ℕ)
      (apart : HasNoCollision (min requested max_mutation_source_bytes)) where
    abbrev limit : ℕ
    limit = min requested max_mutation_source_bytes

    abbrev plan_for :
        (source : SourceFile) (mutant : Text)
        → IsLoaded p m sources limit source
        → build_mutated_source m source.bytes limit ≡ Result.ok mutant
        → Plan p m sources
    plan_for source mutant loaded built =
        let edit = build_mutated_source-IsEdited m source.bytes mutant limit loaded.valid built in
        record {
          limit = limit;
          source = source;
          mutant = mutant;
          lawful = lawful;
          found = loaded.found;
          single = loaded.single;
          safe = loaded.safe;
          rooted = loaded.rooted;
          positive = loaded.positive;
          below = omega arith;
          source_fits = loaded.source_fits;
          mutant_fits = edit.fits;
          distinct = apart source mutant loaded.found built edit.changed;
        }

    -- On a lawful platform, where this source does not collide with its mutant under SHA-256, from
    -- a disk with no recovery state, whatever fails and wherever the process dies: a success has
    -- exactly the candidate's edit in place, described by the guard that is returned; otherwise
    -- nothing was written, or recovery undoes what was.
    pub apply_bounded-IsApplied :
        Keeps (Idle p m sources) (IsUndoable p m sources) IsApplied (apply_bounded p m requested)
    unfolding apply_bounded
    apply_bounded-IsApplied =
        Keeps-bind (load_mutation_source p m limit) _ (load-Idle p m sources (λ d k. inl k) limit)
          λ source. Keeps-given λ loaded.
            Keeps-bind (lift (build_mutated_source m source.bytes limit)) _
              (Keeps-lift
                {Q = λ mutant d.
                  (build_mutated_source m source.bytes limit ≡ Result.ok mutant)
                  × (Idle p m sources) d}
                _ (λ d h. inl h) (λ mutant d e h. (e, h)))
              λ mutant. Keeps-given λ built. write source mutant loaded built
      where
        write :
            (source : SourceFile) (mutant : Text) (loaded : IsLoaded p m sources limit source)
            (built : build_mutated_source m source.bytes limit ≡ Result.ok mutant)
            → Keeps (Idle p m sources) (IsUndoable p m sources) IsApplied (do
              map_err fatal
                  (persist_mutation_state p (mutation_journal_record p m source mutant limit))
              replace_or_recover p m source mutant
              pure (guard_of (plan_for source mutant loaded built)))
        write source mutant loaded built =
            let plan = plan_for source mutant loaded built in
            let edit =
              build_mutated_source-IsEdited m source.bytes mutant limit loaded.valid built in
            Keeps-stop {I = IsRecoverable plan} (λ d h. inr (plan, h))
              (Keeps-weaken {P = At plan clean} {Q = IsApplied} (λ d k. (tt, k)) (λ g d k. k)
                (Keeps-bind (map_err fatal (persist_mutation_state p (journal_of plan))) _
                  (Keeps-map_err fatal (persist_mutation_state p (journal_of plan))
                    (persist-move plan))
                  λ _.
                    Keeps-bind (replace_or_recover p m source mutant) _
                      (replace_or_recover-move plan)
                      λ _. Keeps-pure (guard_of plan) (λ d h. (plan, edit, refl, h))))
