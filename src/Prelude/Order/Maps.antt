-- ===== src/Prelude/Order/Maps.antt =====
-- B-tree maps and sets as ascending lists.
use Prim.Native.Nat.{Ordering}
use mathlib.Core.Path.{◌≡◌, refl}
use mathlib.Core.Bool.{Bool, true, false, ◌||◌}
use mathlib.Core.Option.{Option, none, some}
use mathlib.Core.List.{List, [], ◌∷◌}
use native.Mathlib.Omega.{arith}
use package.reporigor.Prelude.Tests.{if◌then◌else◌}
use package.reporigor.Prelude.Lists.{All}
use package.reporigor.Prelude.Order.Defs.{is_eq, Ord}

-- Equality of keys.
abbrev pub same {ℓ} : {K : Type ℓ} ⦃o : Ord K⦄ → K → K → Bool
same ⦃o⦄ j k = is_eq (o.cmp j k)

module _ {ℓ} {K : Type ℓ} ⦃o : Ord K⦄ where
  pub same_self : (k : K) → same k k ≡ true
  same_self k = ground (arith, o.cmp_refl k)

  pub eq_of_same : (j k : K) → same j k ≡ true → j ≡ k
  eq_of_same j k h = ground (arith, o.eq_of_cmp j k)

  -- `BTreeSet::contains`, and `[T]::contains`.
  unfoldable pub contains : K → List K → Bool
  contains k [] = false
  contains k (j ∷ s) = same j k || contains k s

  -- `BTreeSet::insert`, without its flag.
  unfoldable pub set_insert : K → List K → List K
  set_insert k [] = k ∷ []
  set_insert k (j ∷ s) =
      let rest = set_insert k s in
      elim (o.cmp k j) [ Ordering.lt ↦ k ∷ j ∷ s | Ordering.eq ↦ j ∷ s | Ordering.gt ↦ j ∷ rest ]

  pub contains-set_insert :
      (j k : K) (s : List K) → contains j (set_insert k s) ≡ (same k j || contains j s)
  unfolding contains set_insert
  contains-set_insert j k [] = refl
  contains-set_insert j k (i ∷ s) = ground (arith, contains-set_insert j k s, o.eq_of_cmp k i)

module _ {ℓ} {K : Type ℓ} ⦃o : Ord K⦄ where
  pub All-set_insert :
      (P : K → Type 0) (k : K) (s : List K) → P k → All P s → All P (set_insert k s)
  unfolding set_insert
  All-set_insert P k [] h a = (h, tt)
  All-set_insert P k (j ∷ s) h a = put (o.cmp k j) (All-set_insert P k s h a.1)
    where
      put :
          (order : Ordering)
          → All P (set_insert k s)
          → All P (elim order [
            | Ordering.lt ↦ k ∷ j ∷ s
            | Ordering.eq ↦ j ∷ s
            | Ordering.gt ↦ j ∷ set_insert k s
          ])
      put Ordering.lt rest = (h, a)
      put Ordering.eq rest = a
      put Ordering.gt rest = (a.0, rest)

module _ {ℓ κ} {K : Type ℓ} {V : Type κ} ⦃o : Ord K⦄ where
  -- `BTreeMap::get`
  unfoldable pub lookup : K → List (K × V) → Option V
  lookup k [] = none
  lookup k ((j, v) ∷ m) = if same j k then some v else lookup k m

  -- `BTreeMap::insert`
  unfoldable pub map_insert : K → V → List (K × V) → List (K × V)
  map_insert k v [] = (k, v) ∷ []
  map_insert k v ((j, w) ∷ m) =
      let rest = map_insert k v m in
      elim (o.cmp k j) [
        | Ordering.lt ↦ (k, v) ∷ (j, w) ∷ m
        | Ordering.eq ↦ (k, v) ∷ m
        | Ordering.gt ↦ (j, w) ∷ rest
      ]

  pub lookup-map_insert :
      (j k : K) (v : V) (m : List (K × V))
      → lookup j (map_insert k v m) ≡ (if same k j then some v else lookup j m)
  unfolding lookup map_insert
  lookup-map_insert j k v [] = ground arith
  lookup-map_insert j k v ((i, w) ∷ m) =
      ground (arith, lookup-map_insert j k v m, o.eq_of_cmp k i, o.eq_of_cmp i j)

  pub All-map_insert :
      (P : K × V → Type 0) (k : K) (v : V) (m : List (K × V))
      → P (k, v)
      → All P m
      → All P (map_insert k v m)
  unfolding map_insert
  All-map_insert P k v [] h a = (h, tt)
  All-map_insert P k v ((j, w) ∷ m) h a = put (o.cmp k j) (All-map_insert P k v m h a.1)
    where
      put :
          (order : Ordering)
          → All P (map_insert k v m)
          → All P (elim order [
            | Ordering.lt ↦ (k, v) ∷ (j, w) ∷ m
            | Ordering.eq ↦ (k, v) ∷ m
            | Ordering.gt ↦ (j, w) ∷ map_insert k v m
          ])
      put Ordering.lt rest = (h, a)
      put Ordering.eq rest = (h, a.1)
      put Ordering.gt rest = (a.0, rest)
