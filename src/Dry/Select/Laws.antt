-- ===== src/Dry/Select/Laws.antt =====
-- The groups that `select_non_redundant` keeps and drops.
use reporigor.Dry.Locations.{Duplicate}
use reporigor.Dry.Select.{select_loop, select_non_redundant}
use reporigor.Prelude.{
  ℕ, ◌≤◌, ◌<◌, ◌≡◌, refl, sym, ap, subst, ◌∙◌, ◌⊎◌, inl, inr, Bool, true, false, List, [], ◌∷◌,
  ◌++◌, arith, ◌==◌, ==_iff, Bool-cases, ne_of_==, length, any, all, length-append, All,
}

abbrev pub Among : Duplicate → List Duplicate → Type 0
Among group [] = ⊥
Among group (other ∷ others) = (group ≡ other) ⊎ Among group others

any-grown :
    (p : Duplicate → Bool) (xs ys : List Duplicate) → any p xs ≡ true → any p (xs ++ ys) ≡ true
any-grown p [] ys h = cc
any-grown p (x ∷ xs) ys h = ground (arith, any-grown p xs ys)

Among-grown : (g : Duplicate) (xs ys : List Duplicate) → Among g xs → Among g (xs ++ ys)
Among-grown g [] ys h = absurd h
Among-grown g (x ∷ xs) ys (inl e) = inl e
Among-grown g (x ∷ xs) ys (inr h) = inr (Among-grown g xs ys h)

Among-last : (g : Duplicate) (xs : List Duplicate) → Among g (xs ++ (g ∷ []))
Among-last g [] = inl refl
Among-last g (x ∷ xs) = inr (Among-last g xs)

append_nil : (xs : List Duplicate) → xs ++ [] ≡ xs
append_nil [] = refl
append_nil (x ∷ xs) = ap (λ rest. x ∷ rest) (append_nil xs)

append_cons :
    (xs : List Duplicate) (y : Duplicate) (ys : List Duplicate)
    → (xs ++ (y ∷ [])) ++ ys ≡ xs ++ (y ∷ ys)
append_cons [] y ys = refl
append_cons (x ∷ xs) y ys = ap (λ rest. x ∷ rest) (append_cons xs y ys)

All-last :
    (P : Duplicate → Type 0) (xs : List Duplicate) (x : Duplicate)
    → All P xs
    → P x
    → All P (xs ++ (x ∷ []))
All-last P [] x h k = (k, tt)
All-last P (y ∷ ys) x h k = (h.0, All-last P ys x h.1 k)

All-there :
    (x : Duplicate) (groups others : List Duplicate)
    → All (λ g. Among g groups) others
    → All (λ g. Among g (x ∷ groups)) others
All-there x groups [] h = tt
All-there x groups (y ∷ ys) h = (inr h.0, All-there x groups ys h.1)

Among-all : (groups : List Duplicate) → All (λ g. Among g groups) groups
Among-all [] = tt
Among-all (x ∷ xs) = (inl refl, All-there x xs xs (Among-all xs))

-- No group is redundant beside one before it, nor beside those of `before`.
abbrev pub NonRedundant : (Duplicate → Duplicate → Bool) → List Duplicate → List Duplicate → Type 0
NonRedundant redundant before [] = Unit
NonRedundant redundant before (group ∷ groups) =
    (any (redundant group) before ≡ false) × NonRedundant redundant (before ++ (group ∷ [])) groups

NonRedundant-last :
    (redundant : Duplicate → Duplicate → Bool) (before xs : List Duplicate) (g : Duplicate)
    → NonRedundant redundant before xs
    → any (redundant g) (before ++ xs) ≡ false
    → NonRedundant redundant before (xs ++ (g ∷ []))
NonRedundant-last redundant before [] g h k =
    ((sym (ap (any (redundant g)) (append_nil before)) ∙ k), tt)
NonRedundant-last redundant before (x ∷ xs) g h k = (
  h.0,
  NonRedundant-last redundant (before ++ (x ∷ [])) xs g h.1
      (ap (any (redundant g)) (append_cons before x xs) ∙ k),
)

-- Every group is selected, or redundant beside one that is.
abbrev pub Represented : (Duplicate → Duplicate → Bool) → List Duplicate → Duplicate → Type 0
Represented redundant out group = (any (redundant group) out ≡ true) ⊎ Among group out

pub record IsSelection (redundant : Duplicate → Duplicate → Bool) (limit : ℕ)
    (groups out : List Duplicate) : Type 0 where
  pub limited : length out ≤ limit
  pub distinct : NonRedundant redundant [] out
  pub complete : length out < limit → All (Represented redundant out) groups
  pub members : All (λ group. Among group groups) out

-- The loop's own statement: it adds to what is selected.
record Continues (redundant : Duplicate → Duplicate → Bool) (limit : ℕ)
    (selected groups out : List Duplicate) : Type 1 where
  more : List Duplicate
  prefix : out ≡ selected ++ more
  limited : length out ≤ limit
  distinct : NonRedundant redundant [] out
  complete : length out < limit → All (Represented redundant out) groups
  chosen : (P : Duplicate → Type 0) → All P selected → All P groups → All P out

module _ (redundant : Duplicate → Duplicate → Bool) (limit : ℕ) where
  select_loop-Continues :
      (selected groups : List Duplicate)
      → length selected < limit
      → NonRedundant redundant [] selected
      → Continues redundant limit selected groups (select_loop redundant limit selected groups)
  unfolding select_loop
  select_loop-Continues selected [] room d = record {
    more = [];
    prefix = sym (append_nil selected);
    limited = omega arith;
    distinct = d;
    complete = λ _. tt;
    chosen = λ P h k. h;
  }
  select_loop-Continues selected (g ∷ groups) room d =
      elim (Bool-cases (any (redundant g) selected)) [
        | inl covered ↦
            let rest = select_loop-Continues selected groups room d in
            rw covered (record {
              more = rest.more;
              prefix = rest.prefix;
              limited = rest.limited;
              distinct = rest.distinct;
              complete = λ h. (
                inl (
                    ap (any (redundant g)) rest.prefix
                    ∙ any-grown (redundant g) selected rest.more covered),
                rest.complete h,
              );
              chosen = λ P h k. rest.chosen P h k.1;
            })
        | inr fresh ↦
            let grown = selected ++ (g ∷ []) in
            let d' = NonRedundant-last redundant [] selected g d fresh in
            let size = length-append selected (g ∷ []) in
            rw fresh (elim (Bool-cases (length grown == limit)) [
              | inl full ↦
                  let e = (==_iff (length grown) limit).0 full in
                  rw full (record {
                    more = g ∷ [];
                    prefix = refl;
                    limited = omega (arith, e);
                    distinct = d';
                    complete = λ h. absurd (omega (arith, e));
                    chosen = λ P h k. All-last P selected g h k.0;
                  })
              | inr open_ ↦
                  let n = ne_of_== (length grown) limit open_ in
                  let rest = select_loop-Continues grown groups (ground (arith, size, n)) d' in
                  rw open_ (record {
                    more = g ∷ rest.more;
                    prefix = rest.prefix ∙ append_cons selected g rest.more;
                    limited = rest.limited;
                    distinct = rest.distinct;
                    complete = λ h. (
                      inr (
                          subst (Among g) (sym rest.prefix)
                            (Among-grown g grown rest.more (Among-last g selected))),
                      rest.complete h,
                    );
                    chosen = λ P h k. rest.chosen P (All-last P selected g h k.0) k.1;
                  })
            ])
      ]

  -- What holds of every group holds of the selected ones.
  pub All-select_non_redundant :
      (P : Duplicate → Type 0) (groups : List Duplicate)
      → 0 < limit
      → All P groups
      → All P (select_non_redundant groups limit redundant)
  unfolding select_non_redundant
  All-select_non_redundant P groups h all = (select_loop-Continues [] groups h tt).chosen P tt all

  -- With a positive limit, at most so many groups are selected, all of them given ones; none is
  -- redundant beside an earlier one; and if the limit is not reached, every given group is selected
  -- or redundant beside a selected one.
  pub select_non_redundant-IsSelection :
      (groups : List Duplicate)
      → 0 < limit
      → IsSelection redundant limit groups (select_non_redundant groups limit redundant)
  unfolding select_non_redundant
  select_non_redundant-IsSelection groups h =
      let c = select_loop-Continues [] groups h tt in
      record {
        limited = c.limited;
        distinct = c.distinct;
        complete = c.complete;
        members = c.chosen (λ group. Among group groups) tt (Among-all groups);
      }
