-- ===== src/Dry/Pairs/Components.antt =====
-- The components are those of the accepted pairs.
use reporigor.Dry.Limits.{Floats, CandidateWork}
use reporigor.Dry.Dice.{ShingleIdentity, dice_similarity}
use reporigor.Dry.DisjointSet.{DisjointSet, root, union, new}
use reporigor.Dry.DisjointSet.Classes.{
  Connected, Connected-map, Represents, root_iff-Connected, new-Represents, union-Represents, Added,
  NoEdge,
}
use reporigor.Dry.Pairs.{AcceptedPair, accept_pairs, accept_function_pairs, shingles_of}
use reporigor.Prelude.{
  ℕ, ◌<◌, ◌≡◌, ap₂, subst, ◌↔◌, ◌⊎◌, inl, inr, List, [], ◌∷◌, ◌++◌, Bool-cases, All, >>=-eq-ok, ok,
}

-- The pair was accepted, with some similarity.
abbrev pub Accepted : List AcceptedPair → ℕ → ℕ → Type 0
Accepted [] i j = ⊥
Accepted ((left, right, _) ∷ accepted) i j = ((i ≡ left) × (j ≡ right)) ⊎ Accepted accepted i j

-- Both functions of a pair are there.
abbrev pub Inside : ℕ → ℕ × ℕ → Type 0
Inside function_count (left, right) = (left < function_count) × (right < function_count)

Accepted-first : (xs ys : List AcceptedPair) (i j : ℕ) → Accepted xs i j → Accepted (xs ++ ys) i j
Accepted-first ((a, b, c) ∷ xs) ys i j (inl e) = inl e
Accepted-first ((a, b, c) ∷ xs) ys i j (inr h) = inr (Accepted-first xs ys i j h)
Accepted-first [] ys i j h = absurd h

Accepted-last :
    (xs : List AcceptedPair) (left right s i j : ℕ)
    → (i ≡ left) × (j ≡ right)
    → Accepted (xs ++ ((left, right, s) ∷ [])) i j
Accepted-last [] left right s i j h = inl h
Accepted-last ((a, b, c) ∷ xs) left right s i j h = inr (Accepted-last xs left right s i j h)

Accepted-split :
    (xs : List AcceptedPair) (left right s i j : ℕ)
    → Accepted (xs ++ ((left, right, s) ∷ [])) i j
    → Added (Accepted xs) left right i j
Accepted-split [] left right s i j (inl h) = inr h
Accepted-split [] left right s i j (inr h) = absurd h
Accepted-split ((a, b, c) ∷ xs) left right s i j (inl h) = inl (inl h)
Accepted-split ((a, b, c) ∷ xs) left right s i j (inr h) =
    by_case (Accepted-split xs left right s i j h)
  where
    by_case : Added (Accepted xs) left right i j → Added (Accepted ((a, b, c) ∷ xs)) left right i j
    by_case (inl e) = inl (inr e)
    by_case (inr e) = inr e

Added-joined :
    (xs : List AcceptedPair) (left right s i j : ℕ)
    → Added (Accepted xs) left right i j
    → Accepted (xs ++ ((left, right, s) ∷ [])) i j
Added-joined xs left right s i j (inl e) = Accepted-first xs _ i j e
Added-joined xs left right s i j (inr e) = Accepted-last xs left right s i j e

-- What is represented depends only on the edges.
Represents-iff :
    (s : DisjointSet) (n : ℕ) (E F : ℕ → ℕ → Type 0)
    → Represents s n E
    → ((i j : ℕ) → E i j → F i j)
    → ((i j : ℕ) → F i j → E i j)
    → Represents s n F
Represents-iff s n E F p to back = record {
  forest = p.forest;
  sized = p.sized;
  reached = λ i r h. Connected-map to (p.reached i r h);
  shared = λ i j e. p.shared i j (back i j e);
}

module _ (f : Floats) (n : ℕ) (shingles : List (List ShingleIdentity)) (threshold : ℕ) where
  accept_pairs-Represents :
      (candidates : List (ℕ × ℕ)) (s : DisjointSet) (accepted : List AcceptedPair)
      (work : CandidateWork) {components : DisjointSet} {out : List AcceptedPair}
      {w : CandidateWork}
      → All (Inside n) candidates
      → Represents s n (Accepted accepted)
      → accept_pairs f shingles threshold candidates s accepted work ≡ ok ((components, out), w)
      → Represents components n (Accepted out)
  unfolding accept_pairs
  accept_pairs-Represents [] s accepted work {components} {out} {w} h p e =
      let same : s ≡ components = cc e in
      let same' : accepted ≡ out = cc e in
      subst (λ (x : DisjointSet × List AcceptedPair). Represents x.0 n (Accepted x.1))
        (ap₂ (λ a b. (a, b)) same same') p
  accept_pairs-Represents ((left, right) ∷ candidates) s accepted work h p e =
      let ((similarity, spent), _, e1) =
        >>=-eq-ok
          (dice_similarity f (shingles_of shingles left) (shingles_of shingles right) threshold
            work)
          _ e in
      elim (Bool-cases (f.le threshold similarity)) [
        | inl pass ↦
            let more = accepted ++ ((left, right, similarity) ∷ []) in
            let p' =
              Represents-iff (union s left right) n (Added (Accepted accepted) left right)
                (Accepted more) (union-Represents s n left right (Accepted accepted) p h.0.0 h.0.1)
                (Added-joined accepted left right similarity)
                (Accepted-split accepted left right similarity) in
            accept_pairs-Represents candidates (union s left right) more spent h.1 p'
              (rw pass at e1)
        | inr fail ↦ accept_pairs-Represents candidates s accepted spent h.1 p (rw fail at e1)
      ]

  pub accept_function_pairs-Represents :
      (candidates : List (ℕ × ℕ)) (work : CandidateWork) {components : DisjointSet}
      {accepted : List AcceptedPair} {w : CandidateWork}
      → All (Inside n) candidates
      → accept_function_pairs f n candidates shingles threshold work
        ≡ ok ((components, accepted), w)
      → Represents components n (Accepted accepted)
  unfolding accept_function_pairs
  accept_function_pairs-Represents candidates work h e =
      let start =
        Represents-iff (new n) n NoEdge (Accepted []) (new-Represents n) (λ i j e. e)
          (λ i j e. e) in
      accept_pairs-Represents candidates (new n) [] work h start e

  -- If all candidate pairs are of existing functions: two functions have the same root exactly when
  -- a chain of accepted pairs connects them.
  pub accept_function_pairs-Connected :
      (candidates : List (ℕ × ℕ)) (work : CandidateWork) {components : DisjointSet}
      {accepted : List AcceptedPair} {w : CandidateWork}
      → All (Inside n) candidates
      → accept_function_pairs f n candidates shingles threshold work
        ≡ ok ((components, accepted), w)
      → (i j : ℕ)
      → ((root components i).0 ≡ (root components j).0) ↔ Connected (Accepted accepted) i j
  accept_function_pairs-Connected candidates work {components} {accepted} h e i j =
      root_iff-Connected components n (Accepted accepted) i j
        (accept_function_pairs-Represents candidates work h e)
