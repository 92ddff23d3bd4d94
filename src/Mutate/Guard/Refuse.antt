-- ===== src/Mutate/Guard/Refuse.antt =====
-- A candidate that is refused as invalid has changed nothing.
use reporigor.Mutate.Guard.Load.{Idle, load-Idle}
use reporigor.Mutate.Guard.Recover.{recover_active_locked}
use reporigor.Mutate.Model.{MutationError, MutationCandidate, RecoveryAction}
use reporigor.Mutate.Guard.Restore.{
  apply_bounded, replace_or_recover, after_recovery, recover_after, load_mutation_source,
  persist_mutation_state, mutation_journal_record,
}
use reporigor.Mutate.Guard.Disk.{Disk, Platform, SourceFile, atomic_replace_for_mutation}
use reporigor.Mutate.Act.{◌>>=◌, Act, pure, lift, map_err, Outcome, World, continue, map_error}
use reporigor.Mutate.Act.Keeps.{Keeps, Settles, Keeps-weaken, Keeps-lift}
use reporigor.Mutate.Guard.Edit.{
  ApplyError, invalid, fatal, max_mutation_source_bytes, build_mutated_source,
}
use reporigor.Prelude.{ℕ, min, Option, Text}

module _ (P : Disk → Type 0) where
  -- An invalid candidate was refused on a disk that satisfies `P`.
  abbrev pub Refuses : {A : Type 0} → Outcome ApplyError A × World Disk → Type 0
  Refuses (Outcome.ok _, w) = Unit {0}
  Refuses (Outcome.crashed, w) = Unit {0}
  Refuses (Outcome.err (fatal _), w) = Unit {0}
  Refuses (Outcome.err invalid, w) = P w.disk

  module _ {A B : Type 0} where
    Refuses-bind :
        (m : Act Disk ApplyError A) (f : A → Act Disk ApplyError B)
        → Keeps P P (λ _. P) m
        → ((a : A) (w : World Disk) → P w.disk → Refuses (f a w))
        → (w : World Disk) → P w.disk
        → Refuses ((m >>= f) w)
    unfolding ◌>>=◌
    Refuses-bind m f keeps rest w h = settle (m w) (keeps.at w h)
      where
        settle :
            (r : Outcome ApplyError A × World Disk) → Settles P (λ _. P) r → Refuses (continue r f)
        settle (Outcome.ok a, w) k = rest a w k
        settle (Outcome.crashed, w) k = tt
        settle (Outcome.err (fatal _), w) k = tt
        settle (Outcome.err invalid, w) k = k

    Refuses-fatal :
        (m : Act Disk MutationError A) (f : A → Act Disk ApplyError B)
        → ((a : A) (w : World Disk) → Refuses (f a w))
        → (w : World Disk) → Refuses ((map_err fatal m >>= f) w)
    unfolding ◌>>=◌ map_err
    Refuses-fatal m f rest w = settle (m w)
      where
        settle :
            (r : Outcome MutationError A × World Disk)
            → Refuses (continue (map_error fatal r.0, r.1) f)
        settle (Outcome.ok a, w) = rest a w
        settle (Outcome.crashed, w) = tt
        settle (Outcome.err e, w) = tt

  Refuses-pure : {A : Type 0} (a : A) (w : World Disk) → Refuses (pure a w)
  unfolding pure
  Refuses-pure a w = tt

  Refuses-replace :
      {B : Type 0} (p : Platform) (m : MutationCandidate) (source : SourceFile) (mutant : Text)
      (f : Unit {0} → Act Disk ApplyError B)
      → ((w : World Disk) → Refuses (f tt w))
      → (w : World Disk) → Refuses ((replace_or_recover p m source mutant >>= f) w)
  unfolding ◌>>=◌ replace_or_recover
  Refuses-replace p m source mutant f rest w =
      first (atomic_replace_for_mutation p m.file mutant source.permissions w)
    where
      second :
          (e : MutationError) (r : Outcome MutationError RecoveryAction × World Disk)
          → Refuses (continue (after_recovery p e r) f)
      second e (Outcome.ok _, w) = tt
      second e (Outcome.err _, w) = tt
      second e (Outcome.crashed, w) = tt

      first :
          (r : Outcome MutationError (Unit {0}) × World Disk)
          → Refuses (continue (recover_after p r) f)
      first (Outcome.ok _, w) = rest w
      first (Outcome.crashed, w) = tt
      first (Outcome.err e, w) = second e (recover_active_locked p w)

pub apply_bounded-Refuses :
    (p : Platform) (m : MutationCandidate) (sources : Text → Option SourceFile) (requested : ℕ)
    (w : World Disk)
    → Idle p m sources w.disk
    → Refuses (Idle p m sources) (apply_bounded p m requested w)
unfolding apply_bounded
apply_bounded-Refuses p m sources requested =
    Refuses-bind (Idle p m sources)
      (load_mutation_source p m (min requested max_mutation_source_bytes)) _
      (Keeps-weaken {P = Idle p m sources} (λ d k. k) (λ a d k. k.1)
        (load-Idle p m sources (λ d k. k) (min requested max_mutation_source_bytes)))
      (λ source.
        Refuses-bind (Idle p m sources)
          (lift (build_mutated_source m source.bytes (min requested max_mutation_source_bytes))) _
          (Keeps-lift
            (build_mutated_source m source.bytes (min requested max_mutation_source_bytes))
            (λ d k. k) (λ a d e k. k))
          (λ mutant w _.
            Refuses-fatal (Idle p m sources)
              (persist_mutation_state p (
                mutation_journal_record p m source mutant
                  (min requested max_mutation_source_bytes)))
              _
              (λ _.
                Refuses-replace (Idle p m sources) p m source mutant _
                  (Refuses-pure (Idle p m sources) _))
              w))
