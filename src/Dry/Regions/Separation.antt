-- ===== src/Dry/Regions/Separation.antt =====
-- The remembered regions stay apart: no two of them overlap or touch.
use reporigor.Dry.Regions.{Region, absorb, remember_extended_region}
use reporigor.Dry.Regions.Coverage.{IsOrdered}
use reporigor.Prelude.Order.{Pairwise, Pairwise-sort_by, All-sort_by, pair_ord, nat_ord}
use reporigor.Prelude.{
  ℕ, ◌+◌, ◌≤◌, ◌<◌, min, max, ◌≡◌, ◌⊎◌, inl, inr, true, false, ◌||◌, List, [], ◌∷◌, ◌++◌, arith,
  ltb, Bool-cases, u64_max, saturating_add, All,
}

-- There is a start between them that neither covers.
abbrev pub Apart : Region → Region → Type 0
Apart (a, b) (c, d) = (b + 1 < c) ⊎ (d + 1 < a)

abbrev pub Fits : Region → Type 0
Fits (first, last) = (first ≤ last) × (last < u64_max)

pub record IsNormal (regions : List Region) : Type 0 where
  pub fits : All Fits regions
  pub apart : Pairwise Apart regions

Apart-sym : (x y : Region) → Apart x y → Apart y x
Apart-sym (a, b) (c, d) h = ground arith

-- What is apart from two regions that overlap or touch is apart from their hull.
Apart-hull :
    (x y a b start end : ℕ)
    → x ≤ y
    → Fits (a, b)
    → Fits (start, end)
    → ltb (saturating_add b 1) start ≡ false
    → ltb (saturating_add end 1) a ≡ false
    → Apart (x, y) (a, b)
    → Apart (x, y) (start, end)
    → Apart (x, y) (min start a, max end b)
Apart-hull x y a b start end o f g p q h k = ground arith

-- A region that is apart from all that is looked at is apart from all that comes out.
absorb-Apart :
    (regions : List Region) (start end : ℕ) (x : Region)
    → IsOrdered x
    → All Fits regions
    → Fits (start, end)
    → All (Apart x) regions
    → Apart x (start, end)
    → All (Apart x) (absorb regions start end).0 × Apart x (absorb regions start end).1
unfolding absorb
absorb-Apart [] start end x o f g h k = (tt, k)
absorb-Apart ((a, b) ∷ regions) start end (c, d) o f g h k =
    elim (Bool-cases (ltb (saturating_add b 1) start || ltb (saturating_add end 1) a)) [
      | inl clear ↦
          let rest = absorb-Apart regions start end (c, d) o f.1 g h.1 k in
          rw clear ((h.0, rest.0), rest.1)
      | inr touch ↦
          let p : ltb (saturating_add b 1) start ≡ false = ground (arith, touch) in
          let q : ltb (saturating_add end 1) a ≡ false = ground (arith, touch) in
          rw touch (
            absorb-Apart regions (min start a) (max end b) (c, d) o f.1 (ground (arith, f.0, g)) h.1
              (Apart-hull c d a b start end o f.0 g p q h.0 k))
    ]

clear-Apart :
    (a b start end : ℕ)
    → Fits (a, b)
    → Fits (start, end)
    → (ltb (saturating_add b 1) start || ltb (saturating_add end 1) a) ≡ true
    → Apart (a, b) (start, end)
clear-Apart a b start end f g h = ground arith

absorb-IsNormal :
    (regions : List Region) (start end : ℕ)
    → IsNormal regions
    → Fits (start, end)
    → IsNormal ((absorb regions start end).1 ∷ (absorb regions start end).0)
unfolding absorb
absorb-IsNormal [] start end n g = record { fits = (g, tt); apart = (tt, tt) }
absorb-IsNormal ((a, b) ∷ regions) start end n g =
    let inner : IsNormal regions = record { fits = n.fits.1; apart = n.apart.1 } in
    elim (Bool-cases (ltb (saturating_add b 1) start || ltb (saturating_add end 1) a)) [
      | inl clear ↦
          let rest = absorb-IsNormal regions start end inner g in
          let away =
            absorb-Apart regions start end (a, b) n.fits.0.0 n.fits.1 g n.apart.0
              (clear-Apart a b start end n.fits.0 g clear) in
          rw clear (record {
            fits = (rest.fits.0, (n.fits.0, rest.fits.1));
            apart = ((Apart-sym (a, b) _ away.1, rest.apart.0), (away.0, rest.apart.1));
          })
      | inr touch ↦
          rw touch
            (absorb-IsNormal regions (min start a) (max end b) inner (ground (arith, n.fits.0, g)))
    ]

All-last :
    (P : Region → Type 0) (xs : List Region) (x : Region) → All P xs → P x → All P (xs ++ (x ∷ []))
All-last P [] x h k = (k, tt)
All-last P (y ∷ ys) x h k = (h.0, All-last P ys x h.1 k)

Pairwise-last :
    (xs : List Region) (x : Region)
    → All (Apart x) xs
    → Pairwise Apart xs
    → Pairwise Apart (xs ++ (x ∷ []))
Pairwise-last [] x h k = (tt, tt)
Pairwise-last (y ∷ ys) x h k =
    (All-last (Apart y) ys x k.0 (Apart-sym x y h.0), Pairwise-last ys x h.1 k.1)

-- Remembering keeps all regions ordered, below the largest `usize`, and pairwise apart.
pub remember_extended_region-IsNormal :
    (regions : List Region) (start end : ℕ)
    → IsNormal regions
    → start ≤ end
    → end < u64_max
    → IsNormal (remember_extended_region regions start end)
unfolding remember_extended_region
remember_extended_region-IsNormal regions start end n h k =
    let made = absorb-IsNormal regions start end n (h, k) in
    let (retained, grown) = absorb regions start end in
    record {
      fits =
          All-sort_by (λ (r : Region). r) Fits (retained ++ (grown ∷ []))
            (All-last Fits retained grown made.fits.1 made.fits.0);
      apart =
          Pairwise-sort_by (λ (r : Region). r) Apart-sym (retained ++ (grown ∷ []))
            (Pairwise-last retained grown made.apart.0 made.apart.1);
    }
