-- ===== src/Dry/Pairs.antt =====
-- crates/analysis-dry/src/lib.rs: the accepted pairs of functions, and the components they form.
pub mod Components
pub mod Members
mod Samples
use reporigor.Dry.Limits.{Floats, DryError, CandidateWork, consume}
use reporigor.Dry.Dice.{ShingleIdentity, dice_similarity, can_reach_dice}
use reporigor.Dry.DisjointSet
use reporigor.Dry.DisjointSet.{DisjointSet}
use reporigor.Prelude.Order.{nat_ord, pair_ord, lookup, map_insert, contains, set_insert}
use reporigor.Prelude.{
  ℕ, zero, suc, ◌+◌, ◌&&◌, not, none, some, List, [], ◌∷◌, ◌++◌, if◌then◌else◌, length, get_or,
  Result, ◌>>=◌, ◌>>◌, ok,
}

-- The functions, by their index, and the similarity.
abbrev pub AcceptedPair : Type 0
AcceptedPair = ℕ × ℕ × ℕ

-- `shingles[index]`; an index out of range, a panic, is a function without shingles here.
abbrev pub shingles_of : List (List ShingleIdentity) → ℕ → List ShingleIdentity
shingles_of shingles index = get_or shingles index []

-- `PairCollector`'s test and insertion of one pair, into the set of pairs.
unfoldable pub add_pair :
    Floats
    → List (List ShingleIdentity)
    → ℕ
    → ℕ
    → ℕ
    → List (ℕ × ℕ)
    → CandidateWork
    → Result DryError (List (ℕ × ℕ) × CandidateWork)
unfolding can_reach_dice consume contains set_insert
add_pair f shingles threshold left right pairs work =
    if can_reach_dice f (length (shingles_of shingles left)) (length (shingles_of shingles right))
        threshold
      && not (contains (left, right) pairs)
    then (do spent ← consume work 1; ok (set_insert (left, right) pairs, spent))
    else ok (pairs, work)

-- The loops of `add_bucket` over `bucket.functions`.
unfoldable pub add_rights :
    Floats
    → List (List ShingleIdentity)
    → ℕ
    → ℕ
    → List ℕ
    → List (ℕ × ℕ)
    → CandidateWork
    → Result DryError (List (ℕ × ℕ) × CandidateWork)
unfolding add_pair
add_rights f shingles threshold left [] pairs work = ok (pairs, work)
add_rights f shingles threshold left (right ∷ rights) pairs work = do
  (more, spent) ← add_pair f shingles threshold left right pairs work
  add_rights f shingles threshold left rights more spent

unfoldable pub add_bucket :
    Floats
    → List (List ShingleIdentity)
    → ℕ
    → List ℕ
    → List (ℕ × ℕ)
    → CandidateWork
    → Result DryError (List (ℕ × ℕ) × CandidateWork)
unfolding add_rights
add_bucket f shingles threshold [] pairs work = ok (pairs, work)
add_bucket f shingles threshold (left ∷ rights) pairs work = do
  (more, spent) ← add_rights f shingles threshold left rights pairs work
  add_bucket f shingles threshold rights more spent

-- The loop of `accept_function_pairs`, on the pairs in ascending order.
unfoldable pub accept_pairs :
    Floats
    → List (List ShingleIdentity)
    → ℕ
    → List (ℕ × ℕ)
    → DisjointSet
    → List AcceptedPair
    → CandidateWork
    → Result DryError ((DisjointSet × List AcceptedPair) × CandidateWork)
unfolding dice_similarity DisjointSet.union
accept_pairs f shingles threshold [] components accepted work = ok ((components, accepted), work)
accept_pairs f shingles threshold ((left, right) ∷ candidates) components accepted work = do
  (similarity, spent) ←
      dice_similarity f (shingles_of shingles left) (shingles_of shingles right) threshold work
  let pass = f.le threshold similarity
  accept_pairs f shingles threshold candidates
      (if pass then DisjointSet.union components left right else components)
      (if pass then accepted ++ ((left, right, similarity) ∷ []) else accepted) spent

unfoldable pub accept_function_pairs :
    Floats
    → ℕ
    → List (ℕ × ℕ)
    → List (List ShingleIdentity)
    → ℕ
    → CandidateWork
    → Result DryError ((DisjointSet × List AcceptedPair) × CandidateWork)
unfolding accept_pairs DisjointSet.new
accept_function_pairs f function_count candidates shingles threshold work =
    accept_pairs f shingles threshold candidates (DisjointSet.new function_count) [] work

-- `members.entry(root).or_default().push(index)`
abbrev pub push_member : ℕ → ℕ → List (ℕ × List ℕ) → List (ℕ × List ℕ)
push_member root index members = elim (lookup root members) [
  | none ↦ map_insert root (index ∷ []) members
  | some indices ↦ map_insert root (indices ++ (index ∷ [])) members
]

-- The loop of `component_members` from `index` on; looking for a root compresses its path.
unfoldable pub members_from :
    ℕ → ℕ → DisjointSet → List (ℕ × List ℕ) → List (ℕ × List ℕ) × DisjointSet
unfolding lookup map_insert DisjointSet.root
members_from zero index components members = (members, components)
members_from (suc rounds) index components members =
    let (root, next) = DisjointSet.root components index in
    members_from rounds (index + 1) next (push_member root index members)

unfoldable pub component_members : ℕ → DisjointSet → List (ℕ × List ℕ) × DisjointSet
unfolding members_from
component_members function_count components = members_from function_count 0 components []

-- The loop of `component_similarities`: the smallest similarity of a component's pairs.
unfoldable pub component_similarities :
    Floats → List AcceptedPair → DisjointSet → List (ℕ × ℕ) → List (ℕ × ℕ) × DisjointSet
unfolding lookup map_insert DisjointSet.root
component_similarities f [] components smallest = (smallest, components)
component_similarities f ((left, _, similarity) ∷ accepted) components smallest =
    let (root, next) = DisjointSet.root components left in
    component_similarities f accepted next (elim (lookup root smallest) [
      | none ↦ map_insert root similarity smallest
      | some minimum ↦ map_insert root (f.smaller minimum similarity) smallest
    ])
