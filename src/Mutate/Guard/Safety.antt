-- ===== src/Mutate/Guard/Safety.antt =====
-- Every step of recovery, from each of the four disks, stays among the four.
use reporigor.Mutate.Act.Keeps.{
  Keeps, Keeps-bind, Keeps-access, Keeps-gets, Keeps-pure, Settles, Keeps-lift,
}
use reporigor.Mutate.Guard.Phases.{
  Phase, IsRecoverable, disk_at, edited, At, Fits, original_file, original_file-found, armed,
  journalled, clean, update-update, journal_of, pointer_of, Plan, file_at,
}
use reporigor.Mutate.Model.{io, MutationError, MutationCandidate}
use reporigor.Mutate.Guard.Disk.{
  read_pointer, atomic_replace, remove_pointer, remove_journal, Disk, update, read_journal,
  Platform, SourceFile,
}
use reporigor.Mutate.Act.{◌>>=◌, access, gets, Act, lift}
use reporigor.Prelude.{◌≡◌, refl, sym, ap, subst, ◌∙◌, Option, none, some, Text, Result}

module _ {p : Platform} {m : MutationCandidate} {sources : Text → Option SourceFile}
    (plan : Plan p m sources) where
  open plan use {limit, source, mutant}

  abbrev pub Safe : Disk → Type 0
  Safe = IsRecoverable plan

  -- An access that only reads.
  look : (phase : Phase) → Keeps (At plan phase) Safe (λ _. At plan phase) (access io (λ d. d))
  look phase = Keeps-access io (λ d. d) (λ d h. (phase, h)) (λ d h. (phase, h)) (λ d h. h)

  -- An access that moves from one phase to another.
  pub move :
      (from to : Phase) (change : Disk → Disk)
      → (Fits plan from → Fits plan to)
      → change (disk_at plan from) ≡ disk_at plan to
      → Keeps (At plan from) Safe (λ _. At plan to) (access io change)
  move from to change fits e =
      Keeps-access io change (λ d h. (from, h)) (λ d h. (to, (fits h.0, ap change h.1 ∙ e)))
        (λ d h. (fits h.0, ap change h.1 ∙ e))

  pub remove_pointer-move : Keeps (At plan armed) Safe (λ _. At plan journalled) remove_pointer
  unfolding remove_pointer
  remove_pointer-move =
      move armed journalled (λ d. record d { pointer = none }) (λ fits. fits.0) refl

  pub remove_journal-move : Keeps (At plan journalled) Safe (λ _. At plan clean) remove_journal
  unfolding remove_journal
  remove_journal-move = move journalled clean (λ d. record d { journal = none }) (λ _. tt) refl

  pub atomic_replace-move :
      Keeps
        (At plan edited)
        Safe
        (λ _. At plan armed)
        (atomic_replace m.file source.bytes source.permissions)
  unfolding atomic_replace
  atomic_replace-move =
      move edited armed (λ d. record d { sources = update d.sources m.file (original_file plan) })
        (λ fits. fits)
        (λ i. record {
          sources =
              update-update sources m.file (file_at plan edited) (original_file plan)
                (original_file-found plan) i;
          journal = some (journal_of plan);
          pointer = some (pointer_of plan);
        })

  -- `m` changes nothing, and returns `v` if it returns.
  abbrev pub Returns : {A : Type 0} → Phase → Act Disk MutationError A → A → Type 0
  Returns phase m v = Keeps (At plan phase) Safe (λ a d. (a ≡ v) × At plan phase d) m

  module _ {A B : Type 0} {R : B → Disk → Type 0} (phase : Phase) where
    pub Returns-then :
        (m : Act Disk MutationError A) (k : A → Act Disk MutationError B) (v : A)
        → Returns phase m v
        → Keeps (At plan phase) Safe R (k v)
        → Keeps (At plan phase) Safe R (m >>= k)
    Returns-then m k v first rest = Keeps-bind m k first λ a. record {
      at = λ w h. subst (λ (x : A). Settles Safe R (k x w)) (sym h.0) (rest.at w h.1);
    }

    pub gets-then :
        (f : Disk → A) (k : A → Act Disk MutationError B)
        → Keeps (At plan phase) Safe R (k (f (disk_at plan phase)))
        → Keeps (At plan phase) Safe R (gets f >>= k)
    gets-then f k rest =
        Returns-then (gets f) k (f (disk_at plan phase)) (Keeps-gets f (λ d h. (ap f h.1, h))) rest

    pub lift-then :
        (r : Result MutationError A) (k : A → Act Disk MutationError B)
        → ((a : A) → r ≡ Result.ok a → Keeps (At plan phase) Safe R (k a))
        → Keeps (At plan phase) Safe R (lift r >>= k)
    lift-then r k rest =
        Keeps-bind (lift r) k
          (Keeps-lift {Q = λ a d. (r ≡ Result.ok a) × At plan phase d} r (λ d h. (phase, h))
            (λ a d e h. (e, h)))
          (λ a. record { at = λ w h. (rest a h.0).at w h.1 })

  pub look-then :
      {B : Type 0} {R : B → Disk → Type 0} (phase : Phase) (k : Unit {0} → Act Disk MutationError B)
      → Keeps (At plan phase) Safe R (k tt)
      → Keeps (At plan phase) Safe R (access io (λ d. d) >>= k)
  look-then phase k rest = Keeps-bind (access io (λ d. d)) k (look phase) (λ _. rest)

  pub read_pointer-Returns :
      (phase : Phase) → Returns phase (read_pointer p) (disk_at plan phase).pointer
  unfolding read_pointer
  read_pointer-Returns clean =
      look-then clean _ (gets-then clean _ _ (Keeps-pure none (λ d h. (refl, h))))
  read_pointer-Returns journalled =
      look-then journalled _ (gets-then journalled _ _ (Keeps-pure none (λ d h. (refl, h))))
  read_pointer-Returns armed = look-then armed _ (
      gets-then armed _ _
        (lift-then armed _ _ (λ _ _. lift-then armed _ _ (λ _ _. Keeps-pure _ (λ d h. (refl, h))))))
  read_pointer-Returns edited = look-then edited _ (
      gets-then edited _ _ (
        lift-then edited _ _
          (λ _ _. lift-then edited _ _ (λ _ _. Keeps-pure _ (λ d h. (refl, h))))))

  pub read_journal-Returns :
      (phase : Phase) → Returns phase (read_journal p) (disk_at plan phase).journal
  unfolding read_journal
  read_journal-Returns clean =
      look-then clean _ (gets-then clean _ _ (Keeps-pure none (λ d h. (refl, h))))
  read_journal-Returns journalled = look-then journalled _ (
      gets-then journalled _ _ (
        lift-then journalled _ _
          (λ _ _. lift-then journalled _ _ (λ _ _. Keeps-pure _ (λ d h. (refl, h))))))
  read_journal-Returns armed = look-then armed _ (
      gets-then armed _ _
        (lift-then armed _ _ (λ _ _. lift-then armed _ _ (λ _ _. Keeps-pure _ (λ d h. (refl, h))))))
  read_journal-Returns edited = look-then edited _ (
      gets-then edited _ _ (
        lift-then edited _ _
          (λ _ _. lift-then edited _ _ (λ _ _. Keeps-pure _ (λ d h. (refl, h))))))
