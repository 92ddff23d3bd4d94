-- ===== src/Mutate/Guard/Load.antt =====
-- The checks of `apply_bounded`, before anything is written.
use reporigor.Mutate.Guard.Edit.{validate_mutation_source_limit, validate_mutation_candidate, fatal}
use reporigor.Mutate.SourcePath.{relative_source_path, validate_mutation_root}
use reporigor.Mutate.Guard.Restore.{load_mutation_source}
use reporigor.Mutate.Guard.Recover.{resolve_source_path}
use reporigor.Mutate.Act.Keeps.{
  Keeps, Keeps-bind, Keeps-fail, Keeps-pure, Keeps-lift, Keeps-given, Keeps-gets, Keeps-access,
  Keeps-map_err,
}
use reporigor.Mutate.Guard.Phases.{Plan, IsRecoverable}
use reporigor.Mutate.Model.{MutationCandidate, MutationError, io}
use reporigor.Mutate.Act.{access, fail, pure, lift, gets, map_err}
use reporigor.Mutate.Guard.Disk.{Platform, SourceFile, Disk, read_bounded_source}
use reporigor.Prelude.{
  ℕ, ◌≤◌, ◌<◌, ◌≡◌, refl, sym, ap, ◌⊎◌, not, Option, none, some, arith, ltb, ◌==◌, length, Text,
  Result, reject_if,
}

-- What the checks of `load_mutation_source` establish.
pub record IsLoaded (p : Platform) (m : MutationCandidate) (sources : Text → Option SourceFile)
    (limit : ℕ) (source : SourceFile) : Type 0 where
  pub found : sources m.file ≡ some source
  pub single : source.links ≡ 1
  pub safe : relative_source_path m.file ≡ Result.ok m.file
  pub rooted : validate_mutation_root p.root ≡ Result.ok tt
  pub positive : 0 < limit
  pub source_fits : length source.bytes ≤ limit
  pub valid : validate_mutation_candidate m source.bytes ≡ Result.ok tt

safe_same :
    (file a : Text)
    → relative_source_path file ≡ Result.ok a
    → relative_source_path file ≡ Result.ok file
unfolding relative_source_path
safe_same file a e = ground arith

limit_positive : (limit : ℕ) → validate_mutation_source_limit limit ≡ Result.ok tt → 0 < limit
unfolding validate_mutation_source_limit
limit_positive limit e = ground arith

module _ (p : Platform) (m : MutationCandidate) (sources : Text → Option SourceFile) where
  abbrev idle : Disk
  idle = record { sources = sources; journal = none; pointer = none }

  -- Nothing has been written, or an edit of this file can be undone.
  abbrev pub IsUndoable : Disk → Type 0
  IsUndoable d = (d ≡ idle) ⊎ ((plan : Plan p m sources) × IsRecoverable plan d)

  abbrev pub Idle : Disk → Type 0
  Idle d = d ≡ idle

  abbrev IsResolved : SourceFile → Type 0
  IsResolved file =
      (sources m.file ≡ some file)
      × (relative_source_path m.file ≡ Result.ok m.file)
      × (validate_mutation_root p.root ≡ Result.ok tt)

  -- `I` is whatever a step that fails or dies leaves behind.
  module _ {I : Disk → Type 0} (stop : (d : Disk) → Idle d → I d) where
    look-Idle : Keeps Idle I (λ _. Idle) (access {E = MutationError} io (λ d. d))
    look-Idle =
        Keeps-access {Q = λ _. Idle} io (λ d. d) (λ d h. stop d h) (λ d h. stop d h) (λ d h. h)

    resolve-Idle : Keeps Idle I (λ file d. IsResolved file × Idle d) (resolve_source_path p m.file)
    unfolding resolve_source_path
    resolve-Idle =
        Keeps-bind (lift (relative_source_path m.file)) _
          (Keeps-lift {Q = λ a d. (relative_source_path m.file ≡ Result.ok a) × Idle d} _
            (λ d h. stop d h) (λ a d e h. (e, h)))
          (λ a. Keeps-given λ safe.
            Keeps-bind (lift (validate_mutation_root p.root)) _
              (Keeps-lift {Q = λ _ d. (validate_mutation_root p.root ≡ Result.ok tt) × Idle d} _
                (λ d h. stop d h) (λ _ d e h. (e, h)))
              (λ _. Keeps-given λ rooted. Keeps-bind (access io (λ d. d)) _ look-Idle (λ _.
                Keeps-bind (gets (λ d. d.sources m.file)) _
                  (Keeps-gets {Q = λ o d. (sources m.file ≡ o) × Idle d} _
                    (λ d h. (ap (λ (d' : Disk). d'.sources m.file) (sym h), h)))
                  (λ o. Keeps-given λ found. finish a safe rooted o found))))
      where
        finish :
            (a : Text)
            → relative_source_path m.file ≡ Result.ok a
            → validate_mutation_root p.root ≡ Result.ok tt
            → (o : Option SourceFile) → sources m.file ≡ o
            → Keeps Idle I
                (λ file d. IsResolved file × Idle d)
                (elim o [ none ↦ fail io | some source ↦ pure source ])
        finish a safe rooted none e = Keeps-fail io (λ d h. stop d h)
        finish a safe rooted (some source) e =
            Keeps-pure source (λ d h. ((e, safe_same m.file a safe, rooted), h))

    read-Idle :
        (file : SourceFile) (limit : ℕ)
        → Keeps Idle I
            (λ got d. ((got ≡ file) × (file.links ≡ 1) × (length file.bytes ≤ limit)) × Idle d)
            (read_bounded_source m.file file limit)
    unfolding read_bounded_source
    read-Idle file limit = Keeps-bind (access io (λ d. d)) _ look-Idle (λ _.
        Keeps-bind (lift _) _
          (Keeps-lift {Q = λ a d. (file.links ≡ 1) × Idle d} _ (λ d h. stop d h)
            (λ a d e h. (one _ a e, h)))
          (λ _. Keeps-given λ single.
            Keeps-bind (lift _) _
              (Keeps-lift {Q = λ a d. (length file.bytes ≤ limit) × Idle d} _ (λ d h. stop d h)
                (λ a d e h. (fits _ a e, h)))
              (λ _. Keeps-given λ small. Keeps-pure file (λ d h. ((refl, single, small), h)))))
      where
        one :
            (e : MutationError) (a : Unit {0})
            → reject_if (not (file.links == 1)) e ≡ Result.ok a
            → file.links ≡ 1
        one e a h = ground arith

        fits :
            (e : MutationError) (a : Unit {0})
            → reject_if (ltb limit (length file.bytes)) e ≡ Result.ok a
            → length file.bytes ≤ limit
        fits e a h = ground arith

    pub load-Idle :
        (limit : ℕ)
        → Keeps Idle I
            (λ file d. IsLoaded p m sources limit file × Idle d)
            (load_mutation_source p m limit)
    unfolding load_mutation_source
    load-Idle limit =
        Keeps-bind (lift (validate_mutation_source_limit limit)) _
          (Keeps-lift {Q = λ a d. (0 < limit) × Idle d} _ (λ d h. stop d h)
            (λ a d e h. (limit_positive limit e, h)))
          (λ _. Keeps-given λ positive.
            Keeps-bind (map_err fatal (resolve_source_path p m.file)) _
              (Keeps-map_err fatal (resolve_source_path p m.file) resolve-Idle)
              (λ file. Keeps-given λ found.
                Keeps-bind (map_err fatal (read_bounded_source m.file file limit)) _
                  (Keeps-map_err fatal (read_bounded_source m.file file limit)
                    (read-Idle file limit))
                  (λ got. Keeps-given λ read.
                    Keeps-bind (lift (validate_mutation_candidate m got.bytes)) _
                      (Keeps-lift
                        {Q = λ a d.
                          (validate_mutation_candidate m got.bytes ≡ Result.ok tt) × Idle d}
                        _ (λ d h. stop d h) (λ a d e h. (e, h)))
                      (λ _. Keeps-given λ valid.
                        Keeps-pure got (λ d h. (loaded file got found read valid positive, h))))))
      where
        loaded :
            (file got : SourceFile)
            → IsResolved file
            → (got ≡ file) × (file.links ≡ 1) × (length file.bytes ≤ limit)
            → validate_mutation_candidate m got.bytes ≡ Result.ok tt
            → 0 < limit
            → IsLoaded p m sources limit got
        loaded file got found read valid positive = record {
          found = rw (read.0) (found.0);
          safe = found.1;
          rooted = found.2;
          positive = positive;
          single = rw (read.0) (read.1);
          source_fits = rw (read.0) (read.2);
          valid = valid;
        }
