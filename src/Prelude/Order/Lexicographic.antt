-- ===== src/Prelude/Order/Lexicographic.antt =====
-- Lexicographic orders: of `str` by bytes, of slices, and of tuples.
use Prim.Native.Nat.{Ordering}
use mathlib.Core.Path.{◌≡◌, refl}
use mathlib.Core.List.{List, [], ◌∷◌}
use mathlib.Core.Option.{Option, none, some}
use native.Mathlib.Omega.{arith}
use package.reporigor.Prelude.Order.Defs.{swap, then_with, Ord, nat_ord}

module _ {ℓ} {A : Type ℓ} ⦃o : Ord A⦄ where
  unfoldable pub cmp_list : List A → List A → Ordering
  cmp_list [] [] = Ordering.eq
  cmp_list [] (y ∷ ys) = Ordering.lt
  cmp_list (x ∷ xs) [] = Ordering.gt
  cmp_list (x ∷ xs) (y ∷ ys) = then_with (o.cmp x y) (cmp_list xs ys)

  pub list_refl : (a : List A) → cmp_list a a ≡ Ordering.eq
  unfolding cmp_list
  list_refl [] = refl
  list_refl (x ∷ xs) = ground (arith, o.cmp_refl x, list_refl xs)

  pub list_eq : (a b : List A) → cmp_list a b ≡ Ordering.eq → a ≡ b
  unfolding cmp_list
  list_eq [] [] h = refl
  list_eq [] (y ∷ ys) h = cc
  list_eq (x ∷ xs) [] h = cc
  list_eq (x ∷ xs) (y ∷ ys) h = ground (arith, o.eq_of_cmp x y, list_eq xs ys)

  pub list-swap : (a b : List A) → cmp_list b a ≡ swap (cmp_list a b)
  unfolding cmp_list
  list-swap [] [] = refl
  list-swap [] (y ∷ ys) = refl
  list-swap (x ∷ xs) [] = refl
  list-swap (x ∷ xs) (y ∷ ys) = ground (arith, o.cmp-swap x y, list-swap xs ys)

  pub list_trans :
      (a b c : List A)
      → cmp_list a b ≡ Ordering.lt
      → cmp_list b c ≡ Ordering.lt
      → cmp_list a c ≡ Ordering.lt
  unfolding cmp_list
  list_trans [] [] c h k = cc
  list_trans (x ∷ xs) [] c h k = cc
  list_trans [] (y ∷ ys) [] h k = cc
  list_trans [] (y ∷ ys) (z ∷ zs) h k = refl
  list_trans (x ∷ xs) (y ∷ ys) [] h k = cc
  list_trans (x ∷ xs) (y ∷ ys) (z ∷ zs) h k =
      ground (
        arith,
        o.lt_trans x y z,
        o.eq_of_cmp x y,
        o.eq_of_cmp y z,
        o.cmp_refl x,
        list_trans xs ys zs,
      )

  instance abbrev pub list_ord : Ord (List A)
  list_ord = record {
    cmp = cmp_list;
    cmp_refl = list_refl;
    eq_of_cmp = list_eq;
    cmp-swap = list-swap;
    lt_trans = list_trans;
  }

module _ {ℓ κ} {A : Type ℓ} {B : Type κ} ⦃o : Ord A⦄ ⦃p : Ord B⦄ where
  unfoldable pub cmp_pair : A × B → A × B → Ordering
  cmp_pair (a, b) (c, d) = then_with (o.cmp a c) (p.cmp b d)

  pub pair_refl : (x : A × B) → cmp_pair x x ≡ Ordering.eq
  unfolding cmp_pair
  pair_refl (a, b) = ground (arith, o.cmp_refl a, p.cmp_refl b)

  pub pair_eq : (x y : A × B) → cmp_pair x y ≡ Ordering.eq → x ≡ y
  unfolding cmp_pair
  pair_eq (a, b) (c, d) h = ground (arith, o.eq_of_cmp a c, p.eq_of_cmp b d)

  pub pair-swap : (x y : A × B) → cmp_pair y x ≡ swap (cmp_pair x y)
  unfolding cmp_pair
  pair-swap (a, b) (c, d) = ground (arith, o.cmp-swap a c, p.cmp-swap b d)

  pub pair_trans :
      (x y z : A × B)
      → cmp_pair x y ≡ Ordering.lt
      → cmp_pair y z ≡ Ordering.lt
      → cmp_pair x z ≡ Ordering.lt
  unfolding cmp_pair
  pair_trans (a, b) (c, d) (e, f) h k =
      ground
        (arith, o.lt_trans a c e, o.eq_of_cmp a c, o.eq_of_cmp c e, o.cmp_refl a, p.lt_trans b d f)

  instance abbrev pub pair_ord : Ord (A × B)
  pair_ord = record {
    cmp = cmp_pair;
    cmp_refl = pair_refl;
    eq_of_cmp = pair_eq;
    cmp-swap = pair-swap;
    lt_trans = pair_trans;
  }

-- `None` comes first.
module _ {ℓ} {A : Type ℓ} ⦃o : Ord A⦄ where
  abbrev pub cmp_option : Option A → Option A → Ordering
  cmp_option none none = Ordering.eq
  cmp_option none (some b) = Ordering.lt
  cmp_option (some a) none = Ordering.gt
  cmp_option (some a) (some b) = o.cmp a b
