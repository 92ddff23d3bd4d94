-- ===== src/Dry/DisjointSet.antt =====
-- crates/analysis-dry/src/lib.rs: `DisjointSet`, the components of the accepted function pairs.
pub mod Roots
pub mod Operations
pub mod Classes
mod Samples
use reporigor.Prelude.{ℕ, zero, suc, ◌+◌, List, [], ◌∷◌, ltb, ◌==◌, if◌then◌else◌, get_or, set}

pub record DisjointSet : Type 0 where
  pub parents : List ℕ

abbrev count_up : ℕ → ℕ → List ℕ
count_up zero start = []
count_up (suc n) start = start ∷ count_up n (start + 1)

-- `(0..size).collect()`
unfoldable pub new : ℕ → DisjointSet
new size = record { parents = count_up size 0 }

-- `self.parents[node]`: a node that is out of range, a panic, is its own parent here.
abbrev pub parent : List ℕ → ℕ → ℕ
parent parents node = get_or parents node node

-- `while self.parents[root] != root { root = self.parents[root]; }`, on fuel.
unfoldable pub find_root : ℕ → List ℕ → ℕ → ℕ
find_root zero parents root = root
find_root (suc fuel) parents root =
    let next = find_root fuel parents (parent parents root) in
    if parent parents root == root then root else next

-- The second loop points every node on the way at the root.
unfoldable pub compress : ℕ → List ℕ → ℕ → ℕ → List ℕ
compress zero parents root current = parents
compress (suc fuel) parents root current =
    let next = compress fuel (set parents current root) root (parent parents current) in
    if parent parents current == current then parents else next

-- Parents are never larger than their children, so a node has at most that many steps to go.
unfoldable pub root : DisjointSet → ℕ → ℕ × DisjointSet
root s node =
    let r = find_root (suc node) s.parents node in
    (r, record { parents = compress (suc node) s.parents r node })

-- The smaller of two roots becomes the parent of the other.
abbrev pub hang : List ℕ → ℕ → ℕ → DisjointSet
hang parents left_root right_root =
    if left_root == right_root
    then record { parents = parents }
    else if ltb left_root right_root
    then record { parents = set parents right_root left_root }
    else record { parents = set parents left_root right_root }

unfoldable pub union : DisjointSet → ℕ → ℕ → DisjointSet
union s left right =
    let (left_root, s1) = root s left in
    let (right_root, s2) = root s1 right in hang s2.parents left_root right_root
