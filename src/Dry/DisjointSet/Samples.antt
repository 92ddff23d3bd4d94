-- ===== src/Dry/DisjointSet/Samples.antt =====
-- A set of four nodes.
use reporigor.Dry.DisjointSet.{new, union, find_root, root, compress}
use reporigor.Dry.DisjointSet.Roots.{Roots, IsForest, find_root-Roots}
use reporigor.Dry.DisjointSet.Classes.{Represents, Added, NoEdge, new-Represents, union-Represents}
use reporigor.Prelude.{◌≡◌, refl, [], ◌∷◌, arith}

union-Represents_example : Represents (union (new 4) 3 1) 4 (Added NoEdge 3 1)
union-Represents_example =
    union-Represents (new 4) 4 3 1 NoEdge (new-Represents 4) (omega arith) (omega arith)

-- The smaller root stays.
united : union (new 4) 3 1 ≡ record { parents = 0 ∷ 1 ∷ 2 ∷ 1 ∷ [] }
unfolding union new root find_root compress
united = refl

four-IsForest : IsForest (new 4).parents
four-IsForest = Represents.forest (new-Represents 4)

find_root-Roots_example : Roots (new 4).parents 3 (find_root 4 (new 4).parents 3)
find_root-Roots_example = find_root-Roots 4 (new 4).parents 3 four-IsForest (omega arith)
