-- ===== src/Dry/DisjointSet/Roots.antt =====
-- The root of a node, as a relation, and what the loops and the writes do to it.
use reporigor.Dry.DisjointSet.{parent, find_root}
use reporigor.Prelude.{
  ℕ, zero, suc, ◌≤◌, ◌<◌, ◌≡◌, refl, sym, ◌∙◌, ◌≢◌, inl, inr, List, arith, ◌==◌, if◌then◌else◌,
  ==_iff, Bool-cases, ne_of_==, length, set, get_or-set_self, get_or-set_other,
}

-- No parent is larger than its child.
pub record IsForest (parents : List ℕ) : Type 0 where
  pub descends : (i : ℕ) → parent parents i ≤ i

pub data Roots (parents : List ℕ) : ℕ → ℕ → Type 0 where
  here : {i r : ℕ} → parent parents i ≡ i → i ≡ r → Roots parents i r
  up : {i r : ℕ} → parent parents i ≢ i → Roots parents (parent parents i) r → Roots parents i r

pub Roots-unique : {ps : List ℕ} {i r s : ℕ} → Roots ps i r → Roots ps i s → r ≡ s
Roots-unique (here e a) (here e' b) = sym a ∙ b
Roots-unique (here e a) (up n h) = absurd (n e)
Roots-unique (up n h) (here e a) = absurd (n e)
Roots-unique (up n h) (up n' h') = Roots-unique h h'

pub Roots-root : {ps : List ℕ} {i r : ℕ} → Roots ps i r → parent ps r ≡ r
Roots-root {ps} (here e a) = rw (← a) e
Roots-root (up n h) = Roots-root h

pub Roots-le : {ps : List ℕ} {i r : ℕ} → IsForest ps → Roots ps i r → r ≤ i
Roots-le f (here e a) = omega (arith, a)
Roots-le {i = i} f (up n h) = omega (arith, Roots-le f h, f.descends i)

-- In a forest, a round for each number up to the node is enough: the root is found.
pub find_root-Roots :
    (fuel : ℕ) (ps : List ℕ) (i : ℕ) → IsForest ps → i < fuel → Roots ps i (find_root fuel ps i)
unfolding find_root
find_root-Roots zero ps i f h = absurd (omega arith)
find_root-Roots (suc fuel) ps i f h = elim (Bool-cases (parent ps i == i)) [
  | inl stop ↦ rw stop (here ((==_iff _ _).0 stop) refl)
  | inr go ↦ rw go (
      up (ne_of_== _ _ go) (
        find_root-Roots fuel ps (parent ps i) f
          (below fuel (parent ps i) i (ne_of_== _ _ go) (f.descends i) h)))
]
  where
    below : (n a b : ℕ) → a ≢ b → a ≤ b → b < suc n → a < n
    below n a b ne le lt = ground arith

-- A node, not a root itself, is pointed at the root of its own.
module _ {ps : List ℕ} {c r : ℕ} (to : Roots ps c r) (inner : c ≢ r) (inside : c < length ps) where
  abbrev pointed : List ℕ
  pointed = set ps c r

  parent_self : parent pointed c ≡ r
  parent_self = get_or-set_self ps c r c inside

  parent_other : (i : ℕ) → c ≢ i → parent pointed i ≡ parent ps i
  parent_other i n = get_or-set_other ps c i r i n

  stays : parent pointed r ≡ r
  stays = parent_other r inner ∙ Roots-root to

  pub Roots-set : {i s : ℕ} → Roots ps i s → Roots pointed i s
  Roots-set {i = i} {s = s} (here e a) = elim (Bool-cases (c == i)) [
    | inl same ↦ absurd (inner (Roots-unique (here (rw ((==_iff c i).0 same) e) refl) to))
    | inr other ↦ here (parent_other i (ne_of_== c i other) ∙ e) a
  ]
  Roots-set {i = i} {s = s} (up n h) = elim (Bool-cases (c == i)) [
    | inl same ↦
        let c≡i = (==_iff c i).0 same in
        let s≡r : r ≡ s = Roots-unique to (rw c≡i (up n h)) in
        rw (← s≡r)
          (rw (← c≡i) (up (λ e. inner (sym e ∙ parent_self)) (rw parent_self (here stays refl))))
    | inr other ↦
        let kept = parent_other i (ne_of_== c i other) in
        up (λ e. n (sym kept ∙ e)) (rw kept (Roots-set h))
  ]

  pub IsForest-set : IsForest ps → IsForest pointed
  IsForest-set f = record {
    descends = λ i. elim (Bool-cases (c == i)) [
      | inl same ↦ rw (← (==_iff c i).0 same) (omega (arith, parent_self, Roots-le f to))
      | inr other ↦ omega (arith, parent_other i (ne_of_== c i other), f.descends i)
    ];
  }

abbrev pub moved : ℕ → ℕ → ℕ → ℕ
moved child top s = if s == child then top else s

-- A root is hung below another root.
module _ (ps : List ℕ) (c r : ℕ) (child : parent ps c ≡ c) (top : parent ps r ≡ r) (apart : c ≢ r)
    (inside : c < length ps) where
  hung_self : parent (set ps c r) c ≡ r
  hung_self = get_or-set_self ps c r c inside

  hung_other : (i : ℕ) → c ≢ i → parent (set ps c r) i ≡ parent ps i
  hung_other i n = get_or-set_other ps c i r i n

  pub Roots-hung : {i s : ℕ} → Roots ps i s → Roots (set ps c r) i (moved c r s)
  Roots-hung {i = i} {s = s} (here e a) = rw (← a) (elim (Bool-cases (i == c)) [
    | inl same ↦
        let i≡c = (==_iff i c).0 same in
        rw same (
          rw i≡c (
            up (λ e. apart (sym e ∙ hung_self))
              (rw hung_self (here (hung_other r apart ∙ top) refl))))
    | inr other ↦ rw other (here (hung_other i (λ e. ne_of_== i c other (sym e)) ∙ e) refl)
  ])
  Roots-hung {i = i} {s = s} (up n h) =
      let kept = hung_other i (λ e. n (rw (← e) child)) in
      up (λ e. n (sym kept ∙ e)) (rw kept (Roots-hung h))

  pub IsForest-hung : r ≤ c → IsForest ps → IsForest (set ps c r)
  IsForest-hung below f = record {
    descends = λ i. elim (Bool-cases (c == i)) [
      | inl same ↦ rw (← (==_iff c i).0 same) (omega (arith, hung_self))
      | inr other ↦ omega (arith, hung_other i (ne_of_== c i other), f.descends i)
    ];
  }

pub Roots-parent :
    {ps : List ℕ} {i r : ℕ} → parent ps i ≢ i → Roots ps i r → Roots ps (parent ps i) r
Roots-parent n (here e a) = absurd (n e)
Roots-parent n (up n' h) = h
