-- ===== src/Prelude/Order/Sorting.antt =====
-- `slice::sort_by`: the standard library's sort is stable, and so is insertion from the right.
use Prim.Native.Nat.{Ordering}
use mathlib.Core.Path.{◌≡◌, refl, ap, ◌∙◌}
use mathlib.Core.Logic.{inl, inr}
use mathlib.Core.Bool.{Bool, true, false, ◌||◌}
use mathlib.Core.List.{List, [], ◌∷◌, Perm}
use mathlib.Core.List.Perm
use native.Mathlib.Omega.{arith}
use package.reporigor.Prelude.Tests.{if◌then◌else◌, Bool-cases}
use package.reporigor.Prelude.Lists.{All, any}
use package.reporigor.Prelude.Order.Defs.{is_gt, Ord}

abbrev pub Pairwise {ℓ} : {A : Type ℓ} → (A → A → Type 0) → List A → Type 0
Pairwise R [] = Unit
Pairwise R (x ∷ xs) = All (R x) xs × Pairwise R xs

module _ {ℓ κ} {A : Type ℓ} {K : Type κ} ⦃o : Ord K⦄ (key : A → K) where
  unfoldable pub insert_by : A → List A → List A
  insert_by x [] = x ∷ []
  insert_by x (y ∷ ys) =
      let rest = insert_by x ys in if is_gt (o.cmp (key x) (key y)) then y ∷ rest else x ∷ y ∷ ys

  unfoldable pub sort_by : List A → List A
  sort_by [] = []
  sort_by (x ∷ xs) = insert_by x (sort_by xs)

  -- The key of `x` is at most that of `y`.
  abbrev pub Below : A → A → Type 0
  Below x y = is_gt (o.cmp (key x) (key y)) ≡ false

  abbrev pub IsSorted : List A → Type 0
  IsSorted [] = Unit
  IsSorted (x ∷ xs) = All (Below x) xs × IsSorted xs

  pub insert_by-perm : (x : A) (ys : List A) → Perm (insert_by x ys) (x ∷ ys)
  unfolding insert_by
  insert_by-perm x [] = Perm.refl _
  insert_by-perm x (y ∷ ys) = elim (Bool-cases (is_gt (o.cmp (key x) (key y)))) [
    | inl e ↦ rw e (Perm.trans (Perm.cons y (insert_by-perm x ys)) (Perm.swap x y ys))
    | inr e ↦ rw e (Perm.refl _)
  ]

  pub sort_by-perm : (xs : List A) → Perm (sort_by xs) xs
  unfolding sort_by
  sort_by-perm [] = Perm.refl []
  sort_by-perm (x ∷ xs) = Perm.trans (insert_by-perm x (sort_by xs)) (Perm.cons x (sort_by-perm xs))

  Below-trans : (x y z : A) → Below x y → Below y z → Below x z
  Below-trans x y z h k = ground (
    arith,
    o.lt_trans (key x) (key y) (key z),
    o.eq_of_cmp (key x) (key y),
    o.eq_of_cmp (key y) (key z),
    o.cmp_refl (key x),
  )

  Below-of_gt : (x y : A) → is_gt (o.cmp (key x) (key y)) ≡ true → Below y x
  Below-of_gt x y h = ground (arith, o.cmp-swap (key x) (key y))

  Below-all : (x y : A) (ys : List A) → Below x y → All (Below y) ys → All (Below x) ys
  Below-all x y [] h k = tt
  Below-all x y (z ∷ zs) h k = (Below-trans x y z h k.0, Below-all x y zs h k.1)

  all-insert_by :
      (z x : A) (ys : List A) → Below z x → All (Below z) ys → All (Below z) (insert_by x ys)
  unfolding insert_by
  all-insert_by z x [] h k = (h, tt)
  all-insert_by z x (y ∷ ys) h k = elim (Bool-cases (is_gt (o.cmp (key x) (key y)))) [
    | inl e ↦ rw e (k.0, all-insert_by z x ys h k.1)
    | inr e ↦ rw e (h, k)
  ]

  pub insert_by-IsSorted : (x : A) (ys : List A) → IsSorted ys → IsSorted (insert_by x ys)
  unfolding insert_by
  insert_by-IsSorted x [] s = (tt, tt)
  insert_by-IsSorted x (y ∷ ys) s = elim (Bool-cases (is_gt (o.cmp (key x) (key y)))) [
    | inl e ↦ rw e (all-insert_by y x ys (Below-of_gt x y e) s.0, insert_by-IsSorted x ys s.1)
    | inr e ↦ rw e ((e, Below-all x y ys e s.0), s)
  ]

  pub sort_by-IsSorted : (xs : List A) → IsSorted (sort_by xs)
  unfolding sort_by
  sort_by-IsSorted [] = tt
  sort_by-IsSorted (x ∷ xs) = insert_by-IsSorted x (sort_by xs) (sort_by-IsSorted xs)

  any-insert_by : (p : A → Bool) (x : A) (ys : List A) → any p (insert_by x ys) ≡ (p x || any p ys)
  unfolding insert_by
  any-insert_by p x [] = refl
  any-insert_by p x (y ∷ ys) = ground (arith, any-insert_by p x ys)

  pub any-sort_by : (p : A → Bool) (xs : List A) → any p (sort_by xs) ≡ any p xs
  unfolding sort_by
  any-sort_by p [] = refl
  any-sort_by p (x ∷ xs) = any-insert_by p x (sort_by xs) ∙ ap (λ b. p x || b) (any-sort_by p xs)

  All-insert_by : (P : A → Type 0) (x : A) (ys : List A) → P x → All P ys → All P (insert_by x ys)
  unfolding insert_by
  All-insert_by P x [] h k = (h, tt)
  All-insert_by P x (y ∷ ys) h k = elim (Bool-cases (is_gt (o.cmp (key x) (key y)))) [
    | inl e ↦ rw e (k.0, All-insert_by P x ys h k.1)
    | inr e ↦ rw e (h, k)
  ]

  pub All-sort_by : (P : A → Type 0) (xs : List A) → All P xs → All P (sort_by xs)
  unfolding sort_by
  All-sort_by P [] h = tt
  All-sort_by P (x ∷ xs) h = All-insert_by P x (sort_by xs) h.0 (All-sort_by P xs h.1)

  -- A symmetric relation between all members does not look at their order.
  module _ {R : A → A → Type 0} (symmetric : (x y : A) → R x y → R y x) where
    Pairwise-insert_by :
        (x : A) (ys : List A) → All (R x) ys → Pairwise R ys → Pairwise R (insert_by x ys)
    unfolding insert_by
    Pairwise-insert_by x [] h k = (tt, tt)
    Pairwise-insert_by x (y ∷ ys) h k = elim (Bool-cases (is_gt (o.cmp (key x) (key y)))) [
      | inl e ↦
          rw e (All-insert_by (R y) x ys (symmetric x y h.0) k.0, Pairwise-insert_by x ys h.1 k.1)
      | inr e ↦ rw e (h, k)
    ]

    pub Pairwise-sort_by : (xs : List A) → Pairwise R xs → Pairwise R (sort_by xs)
    unfolding sort_by
    Pairwise-sort_by [] h = tt
    Pairwise-sort_by (x ∷ xs) h =
        Pairwise-insert_by x (sort_by xs) (All-sort_by (R x) xs h.0) (Pairwise-sort_by xs h.1)

-- `sort_by(compare)`, where the comparison is of values and not of keys.
module _ {ℓ} {A : Type ℓ} (cmp : A → A → Ordering) where
  unfoldable pub insert_with : A → List A → List A
  insert_with x [] = x ∷ []
  insert_with x (y ∷ ys) =
      let rest = insert_with x ys in if is_gt (cmp x y) then y ∷ rest else x ∷ y ∷ ys

  unfoldable pub sort_with : List A → List A
  sort_with [] = []
  sort_with (x ∷ xs) = insert_with x (sort_with xs)

  insert_with-perm : (x : A) (ys : List A) → Perm (insert_with x ys) (x ∷ ys)
  unfolding insert_with
  insert_with-perm x [] = Perm.refl _
  insert_with-perm x (y ∷ ys) = elim (Bool-cases (is_gt (cmp x y))) [
    | inl e ↦ rw e (Perm.trans (Perm.cons y (insert_with-perm x ys)) (Perm.swap x y ys))
    | inr e ↦ rw e (Perm.refl _)
  ]

  pub sort_with-perm : (xs : List A) → Perm (sort_with xs) xs
  unfolding sort_with
  sort_with-perm [] = Perm.refl []
  sort_with-perm (x ∷ xs) =
      Perm.trans (insert_with-perm x (sort_with xs)) (Perm.cons x (sort_with-perm xs))

  All-insert_with :
      (P : A → Type 0) (x : A) (ys : List A) → P x → All P ys → All P (insert_with x ys)
  unfolding insert_with
  All-insert_with P x [] h k = (h, tt)
  All-insert_with P x (y ∷ ys) h k = elim (Bool-cases (is_gt (cmp x y))) [
    | inl e ↦ rw e (k.0, All-insert_with P x ys h k.1)
    | inr e ↦ rw e (h, k)
  ]

  pub All-sort_with : (P : A → Type 0) (xs : List A) → All P xs → All P (sort_with xs)
  unfolding sort_with
  All-sort_with P [] h = tt
  All-sort_with P (x ∷ xs) h = All-insert_with P x (sort_with xs) h.0 (All-sort_with P xs h.1)
