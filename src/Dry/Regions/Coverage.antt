-- ===== src/Dry/Regions/Coverage.antt =====
-- Remembering a region covers its starts and no others.
use reporigor.Dry.Regions.{Region, absorb, remember_extended_region, in_region, covered}
use reporigor.Prelude.Order.{any-sort_by, pair_ord, nat_ord}
use reporigor.Prelude.{
  ℕ, ◌≤◌, min, max, ◌≡◌, refl, ap, ◌∙◌, inl, inr, Bool, false, ◌||◌, List, [], ◌∷◌, ◌++◌, arith,
  ltb, Bool-cases, saturating_add, any, All,
}

abbrev pub IsOrdered : Region → Type 0
IsOrdered (first, last) = first ≤ last

any-append : (p : Region → Bool) (xs ys : List Region) → any p (xs ++ ys) ≡ (any p xs || any p ys)
any-append p [] ys = refl
any-append p (x ∷ xs) ys = ground (arith, any-append p xs ys)

-- Two regions that overlap or touch are covered by their hull and nothing else is.
join_covers :
    (a b start end x : ℕ)
    → a ≤ b
    → start ≤ end
    → ltb (saturating_add b 1) start ≡ false
    → ltb (saturating_add end 1) a ≡ false
    → in_region x (min start a, max end b) ≡ (in_region x (a, b) || in_region x (start, end))
join_covers a b start end x h k p q = ground arith

or_shuffle : (p q r : Bool) → (p || (q || r)) ≡ ((q || p) || r)
or_shuffle p q r = ground arith

absorb_covers :
    (regions : List Region) (start end x : ℕ)
    → All IsOrdered regions
    → start ≤ end
    → (any (in_region x) (absorb regions start end).0 || in_region x (absorb regions start end).1)
      ≡ (any (in_region x) regions || in_region x (start, end))
unfolding absorb
absorb_covers [] start end x o h = refl
absorb_covers ((a, b) ∷ regions) start end x o h =
    elim (Bool-cases (ltb (saturating_add b 1) start || ltb (saturating_add end 1) a)) [
      | inl apart ↦ ground (arith, apart, absorb_covers regions start end x o.1 h)
      | inr touch ↦
          let joined = absorb_covers regions (min start a) (max end b) x o.1 (omega arith) in
          let hull =
            join_covers a b start end x o.0 h (ground (arith, touch)) (ground (arith, touch)) in
          rw touch (
            joined
            ∙ ap (λ b. any (in_region x) regions || b) hull
            ∙ or_shuffle (any (in_region x) regions) (in_region x (a, b))
                (in_region x (start, end)))
    ]

-- Where every region starts before it ends: a start is covered afterwards exactly when it was before
-- or lies in the new region.
pub covered-remember_extended_region :
    (regions : List Region) (start end x : ℕ)
    → All IsOrdered regions
    → start ≤ end
    → covered (remember_extended_region regions start end) x
      ≡ (covered regions x || in_region x (start, end))
unfolding covered remember_extended_region
covered-remember_extended_region regions start end x o h =
    let (retained, grown) = absorb regions start end in
    any-sort_by (λ (r : Region). r) (in_region x) (retained ++ (grown ∷ []))
    ∙ any-append (in_region x) retained (grown ∷ [])
    ∙ or_end (any (in_region x) retained) (in_region x grown)
    ∙ absorb_covers regions start end x o h
  where
    or_end : (p q : Bool) → (p || (q || false)) ≡ (p || q)
    or_end p q = ground arith
