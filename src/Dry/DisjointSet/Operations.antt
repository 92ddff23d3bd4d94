-- ===== src/Dry/DisjointSet/Operations.antt =====
-- `root` and `union` on a forest.
use reporigor.Dry.DisjointSet.{DisjointSet, root, union, compress, find_root, parent, hang}
use reporigor.Dry.DisjointSet.Roots.{
  Roots, IsForest, Roots-root, find_root-Roots, IsForest-hung, moved, Roots-hung, IsForest-set,
  Roots-set, Roots-parent, Roots-unique, Roots-le,
}
use reporigor.Prelude.{
  ℕ, zero, suc, ◌≤◌, ◌<◌, ◌≡◌, refl, ◌∙◌, ◌≢◌, ◌⊎◌, inl, inr, List, [], ◌∷◌, arith, dec_lt, ltb,
  ◌==◌, ltb→lt, ==_iff, Bool-cases, ne_of_==, length, get_or, set, length-set,
}

-- Nothing that can be asked has changed.
pub record Preserves (ps ps' : List ℕ) : Type 0 where
  pub forest : IsForest ps'
  pub size : length ps' ≡ length ps
  pub roots : (i s : ℕ) → Roots ps i s → Roots ps' i s

outside : (ps : List ℕ) (i d : ℕ) → length ps ≤ i → get_or ps i d ≡ d
outside [] i d h = refl
outside (p ∷ ps) zero d h = absurd (omega arith)
outside (p ∷ ps) (suc i) d h = outside ps i d (omega arith)

inside_of_parent : (ps : List ℕ) (i : ℕ) → parent ps i ≢ i → i < length ps
inside_of_parent ps i n = elim (dec_lt i (length ps)) [
  | yes lt ↦ lt
  | no ge ↦ absurd (n (outside ps i i (omega arith)))
]

compress-Preserves :
    (fuel : ℕ) (ps : List ℕ) (r c : ℕ)
    → IsForest ps
    → Roots ps c r
    → Preserves ps (compress fuel ps r c)
unfolding compress
compress-Preserves zero ps r c f to = record { forest = f; size = refl; roots = λ i s h. h }
compress-Preserves (suc fuel) ps r c f to = elim (Bool-cases (parent ps c == c)) [
  | inl stop ↦ rw stop (record { forest = f; size = refl; roots = λ i s h. h })
  | inr go ↦
      let n = ne_of_== _ _ go in
      let inner : c ≢ r = λ e. n (rw (← e) at (Roots-root to)) in
      let inside = inside_of_parent ps c n in
      let rest =
        compress-Preserves fuel (set ps c r) r (parent ps c) (IsForest-set to inner inside f)
          (Roots-set to inner inside (Roots-parent n to)) in
      rw go (record {
        forest = rest.forest;
        size = rest.size ∙ length-set ps c r;
        roots = λ i s h. rest.roots i s (Roots-set to inner inside h);
      })
]

pub root-Roots : (s : DisjointSet) (i : ℕ) → IsForest s.parents → Roots s.parents i (root s i).0
unfolding root
root-Roots s i f = find_root-Roots (suc i) s.parents i f (omega arith)

pub root-Preserves :
    (s : DisjointSet) (i : ℕ) → IsForest s.parents → Preserves s.parents (root s i).1.parents
unfolding root
root-Preserves s i f =
    compress-Preserves (suc i) s.parents _ i f (find_root-Roots (suc i) s.parents i f (omega arith))

-- One of the two roots takes the class of the other, and nothing else changes.
pub record Merges (ps ps' : List ℕ) (a b : ℕ) : Type 0 where
  pub forest : IsForest ps'
  pub size : length ps' ≡ length ps
  pub child : ℕ
  pub top : ℕ
  pub which : ((child ≡ a) × (top ≡ b)) ⊎ ((child ≡ b) × (top ≡ a))
  pub roots : (i s : ℕ) → Roots ps i s → Roots ps' i (moved child top s)

moved_self : (a s : ℕ) → moved a a s ≡ s
moved_self a s = ground arith

-- The roots of both arguments, on the forest before.
pub union-Merges :
    (s : DisjointSet) (left right : ℕ)
    → IsForest s.parents
    → left < length s.parents
    → right < length s.parents
    → (a b : ℕ) × Roots s.parents left a
      × Roots s.parents right b
      × Merges s.parents (union s left right).parents a b
unfolding union
union-Merges s left right f hl hr =
    let first = root-Preserves s left f in
    let s1 = (root s left).1 in
    let second = root-Preserves s1 right first.forest in
    let s2 = (root s1 right).1 in
    let a = (root s left).0 in
    let b = (root s1 right).0 in
    let kept : (i r : ℕ) → Roots s.parents i r → Roots s2.parents i r =
      λ i r h. second.roots i r (first.roots i r h) in
    let la = root-Roots s left f in
    let rb = find_root-Roots (suc right) s.parents right f (omega arith) in
    let same : find_root (suc right) s.parents right ≡ b =
      Roots-unique (first.roots right _ rb) (root-Roots s1 right first.forest) in
    let ra : Roots s.parents right b = rw (← same) rb in
    let size = second.size ∙ first.size in
    (
      a,
      b,
      la,
      ra,
      merge s.parents s2.parents a b f second.forest size kept (Roots-root (kept left a la))
          (Roots-root (kept right b ra)) (omega (arith, Roots-le f la))
          (omega (arith, Roots-le f ra)),
    )
  where
    merge :
        (ps ps' : List ℕ) (a b : ℕ)
        → IsForest ps
        → IsForest ps'
        → length ps' ≡ length ps
        → ((i r : ℕ) → Roots ps i r → Roots ps' i r)
        → parent ps' a ≡ a
        → parent ps' b ≡ b
        → a < length ps
        → b < length ps
        → Merges ps (hang ps' a b).parents a b
    merge ps ps' a b f f' size kept ta tb ia ib = elim (Bool-cases (a == b)) [
      | inl same ↦
          let e = (==_iff a b).0 same in
          rw same (record {
            forest = f';
            size = size;
            child = a;
            top = a;
            which = inl (refl, e);
            roots = λ i s h. rw (moved_self a s) (kept i s h);
          })
      | inr other ↦ rw other (elim (Bool-cases (ltb a b)) [
        | inl less ↦
            let lt = ltb→lt a b less in
            rw less (record {
              forest =
                  IsForest-hung ps' b a tb ta (λ e. omega (arith, e)) (omega arith) (omega arith)
                    f';
              size = length-set ps' b a ∙ size;
              child = b;
              top = a;
              which = inr (refl, refl);
              roots = λ i s h.
                  Roots-hung ps' b a tb ta (λ e. omega (arith, e)) (omega arith) (kept i s h);
            })
        | inr more ↦ rw more (record {
          forest =
              IsForest-hung ps' a b ta tb (ne_of_== a b other) (omega arith) (ground (arith, more))
                f';
          size = length-set ps' a b ∙ size;
          child = a;
          top = b;
          which = inl (refl, refl);
          roots = λ i s h. Roots-hung ps' a b ta tb (ne_of_== a b other) (omega arith) (kept i s h);
        })
      ])
    ]
