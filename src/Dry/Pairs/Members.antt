-- ===== src/Dry/Pairs/Members.antt =====
-- The members of the components: `component_members` groups the functions by their root.
use mathlib.Core.List.{append_assoc, append-nil}
use reporigor.Dry.DisjointSet.{DisjointSet, root}
use reporigor.Dry.DisjointSet.Roots.{Roots, IsForest, Roots-unique}
use reporigor.Dry.DisjointSet.Operations.{root-Roots, root-Preserves}
use reporigor.Dry.Pairs.{push_member, members_from, component_members}
use reporigor.Prelude.Order.{lookup, map_insert, lookup-map_insert, same, nat_ord}
use reporigor.Prelude.{
  ℕ, zero, suc, ◌+◌, ◌≡◌, refl, sym, ap, ◌∙◌, inl, inr, Bool, true, false, Option, none, some, List,
  [], ◌∷◌, ◌++◌, arith, ◌==◌, if◌then◌else◌, ==_iff, Bool-cases,
}

-- The members of one root, in the map.
unfoldable pub members_of : ℕ → List (ℕ × List ℕ) → List ℕ
unfolding lookup
members_of r members = elim (lookup r members) [ none ↦ [] | some indices ↦ indices ]

abbrev with_root : ℕ → ℕ → ℕ → List ℕ → List ℕ
with_root q r index rest = if q == r then index ∷ rest else rest

-- The nodes from `index` on, so many of them, that have the root, in order.
unfoldable pub nodes_of : DisjointSet → ℕ → ℕ → ℕ → List ℕ
unfolding root
nodes_of s r zero index = []
nodes_of s r (suc rounds) index =
    with_root (root s index).0 r index (nodes_of s r rounds (index + 1))

same_iff_== : (q r : ℕ) → same q r ≡ (q == r)
same_iff_== q r = ground arith

members-map_insert :
    (r q : ℕ) (v : List ℕ) (m : List (ℕ × List ℕ))
    → members_of r (map_insert q v m) ≡ (if q == r then v else members_of r m)
unfolding members_of
members-map_insert r q v m =
    ap (λ (found : Option (List ℕ)). elim found [ none ↦ [] | some indices ↦ indices ])
      (lookup-map_insert r q v m)
    ∙ by_case (same q r)
    ∙ ap (λ (b : Bool). if b then v else members_of r m) (same_iff_== q r)
  where
    by_case :
        (b : Bool)
        → (elim (if b then some v else lookup r m) [ none ↦ [] | some indices ↦ indices ])
          ≡ (if b then v else members_of r m)
    by_case true = refl
    by_case false = refl

-- A pushed index is added to the members of its root, at the end, and to no others.
members-push_member :
    (r q index : ℕ) (m : List (ℕ × List ℕ))
    → members_of r (push_member q index m)
      ≡ (if q == r then members_of q m ++ (index ∷ []) else members_of r m)
unfolding members_of
members-push_member r q index m = put (lookup q m)
  where
    put :
        (found : Option (List ℕ))
        → members_of r (elim found [
          | none ↦ map_insert q (index ∷ []) m
          | some indices ↦ map_insert q (indices ++ (index ∷ [])) m
        ])
          ≡ (if q == r
              then (elim found [ none ↦ [] | some indices ↦ indices ]) ++ (index ∷ [])
              else members_of r m)
    put none = members-map_insert r q (index ∷ []) m
    put (some indices) = members-map_insert r q (indices ++ (index ∷ [])) m

pushed-nodes :
    (q r index : ℕ) (m : List (ℕ × List ℕ)) (rest : List ℕ)
    → members_of r (push_member q index m) ++ rest ≡ members_of r m ++ with_root q r index rest
pushed-nodes q r index m rest =
    ap (λ (indices : List ℕ). indices ++ rest) (members-push_member r q index m)
    ∙ elim (Bool-cases (q == r)) [
      | inl own ↦
          let q≡r = (==_iff q r).0 own in
          rw own (rw q≡r (append_assoc (members_of r m) (index ∷ []) rest))
      | inr other ↦ rw other refl
    ]

module _ (s : DisjointSet) (forest : IsForest s.parents) where
  -- The roots of a set that was only compressed since.
  root-kept :
      (c : DisjointSet) (i : ℕ)
      → IsForest c.parents
      → ((i r : ℕ) → Roots s.parents i r → Roots c.parents i r)
      → (root c i).0 ≡ (root s i).0
  root-kept c i f kept =
      Roots-unique (root-Roots c i f) (kept i (root s i).0 (root-Roots s i forest))

  members_from-nodes :
      (rounds index : ℕ) (c : DisjointSet) (m : List (ℕ × List ℕ)) (r : ℕ)
      → IsForest c.parents
      → ((i r : ℕ) → Roots s.parents i r → Roots c.parents i r)
      → members_of r (members_from rounds index c m).0 ≡ members_of r m ++ nodes_of s r rounds index
  unfolding members_from nodes_of
  members_from-nodes zero index c m r f kept = sym (append-nil (members_of r m))
  members_from-nodes (suc rounds) index c m r f kept =
      let step = root-Preserves c index f in
      let rest =
        members_from-nodes rounds (index + 1) (root c index).1
          (push_member (root c index).0 index m) r step.forest
          (λ i q h. step.roots i q (kept i q h)) in
      rest
      ∙ pushed-nodes (root c index).0 r index m (nodes_of s r rounds (index + 1))
      ∙ ap (λ (q : ℕ). members_of r m ++ with_root q r index (nodes_of s r rounds (index + 1)))
          (root-kept c index f kept)

  -- In a forest, the members under a root are the functions that have it, in order.
  pub component_members_lem : (n r : ℕ) → members_of r (component_members n s).0 ≡ nodes_of s r n 0
  unfolding component_members members_of
  component_members_lem n r = members_from-nodes n 0 s [] r forest (λ i q h. h)
