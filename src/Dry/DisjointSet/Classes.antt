-- ===== src/Dry/DisjointSet/Classes.antt =====
-- The roots represent an equivalence: two nodes have the same root exactly when they are connected.
use reporigor.Dry.DisjointSet.{DisjointSet, root, union, new, parent, count_up}
use reporigor.Dry.DisjointSet.Roots.{Roots, IsForest, moved, Roots-unique, here}
use reporigor.Dry.DisjointSet.Operations.{union-Merges, root-Roots}
use reporigor.Prelude.{
  ℕ, zero, suc, ◌+◌, ◌<◌, ◌≡◌, refl, sym, ap, subst, ◌∙◌, ◌↔◌, ◌⊎◌, inl, inr, List, arith, ◌==◌,
  ==_iff, Bool-cases, length, get_or,
}

-- The smallest equivalence that has every edge.
pub data Connected (Edge : ℕ → ℕ → Type 0) : ℕ → ℕ → Type 0 where
  edge : {i j : ℕ} → Edge i j → Connected Edge i j
  alone : {i j : ℕ} → i ≡ j → Connected Edge i j
  back : {i j : ℕ} → Connected Edge j i → Connected Edge i j
  through : {i j k : ℕ} → Connected Edge i j → Connected Edge j k → Connected Edge i k

pub Connected-map :
    {E F : ℕ → ℕ → Type 0} {i j : ℕ}
    → ((i j : ℕ) → E i j → F i j)
    → Connected E i j
    → Connected F i j
Connected-map f (edge e) = edge (f _ _ e)
Connected-map f (alone e) = alone e
Connected-map f (back c) = back (Connected-map f c)
Connected-map f (through c d) = through (Connected-map f c) (Connected-map f d)

pub record Represents (s : DisjointSet) (size : ℕ) (Edge : ℕ → ℕ → Type 0) : Type 0 where
  pub forest : IsForest s.parents
  pub sized : length s.parents ≡ size
  pub reached : (i r : ℕ) → Roots s.parents i r → Connected Edge i r
  pub shared : (i j : ℕ) → Edge i j → (r : ℕ) × Roots s.parents i r × Roots s.parents j r

-- What is connected has one root.
Connected-Roots :
    {s : DisjointSet} {size : ℕ} {Edge : ℕ → ℕ → Type 0} {i j : ℕ}
    → Represents s size Edge
    → Connected Edge i j
    → (root s i).0 ≡ (root s j).0
Connected-Roots {s} {i = i} {j = j} p (edge e) =
    let (r, left, right) = p.shared i j e in
    Roots-unique (root-Roots s i p.forest) left ∙ Roots-unique right (root-Roots s j p.forest)
Connected-Roots {s} p (alone e) = ap (λ (k : ℕ). (root s k).0) e
Connected-Roots p (back c) = sym (Connected-Roots p c)
Connected-Roots p (through c d) = Connected-Roots p c ∙ Connected-Roots p d

-- In a set that represents the edges, two nodes have the same root exactly when edges connect them.
pub root_iff-Connected :
    (s : DisjointSet) (size : ℕ) (Edge : ℕ → ℕ → Type 0) (i j : ℕ)
    → Represents s size Edge
    → ((root s i).0 ≡ (root s j).0) ↔ Connected Edge i j
root_iff-Connected s size Edge i j p = (
  λ e. through (p.reached i (root s i).0 (root-Roots s i p.forest)) (
      back (subst (Connected Edge j) (sym e) (p.reached j (root s j).0 (root-Roots s j p.forest)))),
  λ c. Connected-Roots p c,
)

-- The edges, and one more.
abbrev pub Added : (ℕ → ℕ → Type 0) → ℕ → ℕ → ℕ → ℕ → Type 0
Added Edge left right i j = Edge i j ⊎ ((i ≡ left) × (j ≡ right))

abbrev pub NoEdge : ℕ → ℕ → Type 0
NoEdge i j = ⊥

count_up-parent : (n start i d : ℕ) → i + start ≡ d → get_or (count_up n start) i d ≡ d
count_up-parent zero start i d h = refl
count_up-parent (suc n) start zero d h = omega (arith, h)
count_up-parent (suc n) start (suc i) d h = count_up-parent n (start + 1) i d (omega (arith, h))

length-count_up : (n start : ℕ) → length (count_up n start) ≡ n
length-count_up zero start = refl
length-count_up (suc n) start = ap suc (length-count_up n (start + 1))

-- A node of a new set is its own root.
new-alone : (size i : ℕ) → parent (new size).parents i ≡ i
unfolding new
new-alone size i = count_up-parent size 0 i i (omega arith)

alone-Roots : {ps : List ℕ} {i r : ℕ} → parent ps i ≡ i → Roots ps i r → i ≡ r
alone-Roots own to = Roots-unique (here own refl) to

pub new-Represents : (size : ℕ) → Represents (new size) size NoEdge
unfolding new
new-Represents size = record {
  forest = record { descends = λ i. omega (arith, new-alone size i) };
  sized = length-count_up size 0;
  reached = λ i r to. alone (alone-Roots (new-alone size i) to);
  shared = λ i j e. absurd e;
}

moved_self : (a b : ℕ) → moved a b a ≡ b
moved_self a b = ground arith

moved_other : (a b : ℕ) → moved a b b ≡ b
moved_other a b = ground arith

-- The two roots end at the one that stays.
module _ (E : ℕ → ℕ → Type 0) {child top a b : ℕ}
    (which : ((child ≡ a) × (top ≡ b)) ⊎ ((child ≡ b) × (top ≡ a))) where
  joined_roots : Connected E a b → Connected E child top
  joined_roots c = by_case which
    where
      by_case : ((child ≡ a) × (top ≡ b)) ⊎ ((child ≡ b) × (top ≡ a)) → Connected E child top
      by_case (inl (p, q)) = rw (p, q) c
      by_case (inr (p, q)) = rw (p, q) (back c)

  moved-Connected : Connected E child top → (s : ℕ) → Connected E s (moved child top s)
  moved-Connected c s = elim (Bool-cases (s == child)) [
    | inl same ↦ rw same (through (alone ((==_iff s child).0 same)) c)
    | inr other ↦ rw other (alone refl)
  ]

  moved_first : moved child top a ≡ top
  moved_first = elim which [
    | inl (p, q) ↦ ap (λ (k : ℕ). moved k top a) p ∙ moved_self a top
    | inr (p, q) ↦ ap (λ (k : ℕ). moved child k a) q ∙ moved_other child a ∙ sym q
  ]

  moved_second : moved child top b ≡ top
  moved_second = elim which [
    | inl (p, q) ↦ ap (λ (k : ℕ). moved child k b) q ∙ moved_other child b ∙ sym q
    | inr (p, q) ↦ ap (λ (k : ℕ). moved k top b) p ∙ moved_self b top
  ]

-- A union adds one edge to what the set represents.
pub union-Represents :
    (s : DisjointSet) (size left right : ℕ) (Edge : ℕ → ℕ → Type 0)
    → Represents s size Edge
    → left < size
    → right < size
    → Represents (union s left right) size (Added Edge left right)
union-Represents s size left right Edge p hl hr =
    let (a, b, la, rb, m) =
      union-Merges s left right p.forest (omega (arith, p.sized)) (omega (arith, p.sized)) in
    let ps' = (union s left right).parents in
    let wide = Added Edge left right in
    let keep_edge : (i j : ℕ) → Edge i j → wide i j = λ i j e. inl e in
    let joined : Connected wide a b =
      through (back (Connected-map keep_edge (p.reached left a la)))
        (through (edge (inr (refl, refl))) (Connected-map keep_edge (p.reached right b rb))) in
    let first = subst (Roots ps' left) (moved_first wide m.which) (m.roots left a la) in
    let second = subst (Roots ps' right) (moved_second wide m.which) (m.roots right b rb) in
    record {
      forest = m.forest;
      sized = m.size ∙ p.sized;
      reached = λ i r to.
          let base = root-Roots s i p.forest in
          let end = Roots-unique (m.roots i (root s i).0 base) to in
          through (Connected-map keep_edge (p.reached i (root s i).0 base)) (
            subst (Connected wide (root s i).0) end
              (moved-Connected wide m.which (joined_roots wide m.which joined) (root s i).0));
      shared = λ i j e. added_shared ps' m.child m.top m.roots first second i j e;
    }
  where
    added_shared :
        (ps' : List ℕ) (child top : ℕ)
        → ((i r : ℕ) → Roots s.parents i r → Roots ps' i (moved child top r))
        → Roots ps' left top
        → Roots ps' right top
        → (i j : ℕ) → Added Edge left right i j
        → (r : ℕ) × Roots ps' i r × Roots ps' j r
    added_shared ps' child top roots first second i j (inl e) =
        let (r, x, y) = p.shared i j e in (moved child top r, roots i r x, roots j r y)
    added_shared ps' child top roots first second i j (inr (x, y)) = (
      top,
      subst (λ (k : ℕ). Roots ps' k top) (sym x) first,
      subst (λ (k : ℕ). Roots ps' k top) (sym y) second,
    )
