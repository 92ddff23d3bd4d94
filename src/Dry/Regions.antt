-- ===== src/Dry/Regions.antt =====
-- crates/analysis-dry/src/lib.rs: the regions of one diagonal that have been extended already.
pub mod Coverage
pub mod Separation
mod Samples
use reporigor.Prelude.Order.{sort_by, pair_ord, nat_ord}
use reporigor.Prelude.{
  ℕ, min, max, Bool, ◌&&◌, ◌||◌, List, [], ◌∷◌, ◌++◌, ltb, leb, if◌then◌else◌, saturating_add, any,
}

abbrev pub Region : Type 0
Region = ℕ × ℕ

-- The loop over `regions.drain(..)`: what it retains, and the region that it has grown.
unfoldable pub absorb : List Region → ℕ → ℕ → List Region × Region
absorb [] start end = ([], (start, end))
absorb ((existing_start, existing_end) ∷ regions) start end =
    let apart = absorb regions start end in
    let joined = absorb regions (min start existing_start) (max end existing_end) in
    if ltb (saturating_add existing_end 1) start || ltb (saturating_add end 1) existing_start
    then ((existing_start, existing_end) ∷ apart.0, apart.1)
    else joined

-- `retained.push((start, end)); retained.sort_unstable();`
unfoldable pub remember_extended_region : List Region → ℕ → ℕ → List Region
unfolding absorb
remember_extended_region regions start end =
    let (retained, grown) = absorb regions start end in
    sort_by (λ (region : Region). region) (retained ++ (grown ∷ []))

-- `*first <= start && start <= *last`
abbrev pub in_region : ℕ → Region → Bool
in_region start (first, last) = leb first start && leb start last

-- The test of `already_extended` on the regions of its diagonal.
unfoldable pub covered : List Region → ℕ → Bool
covered regions start = any (in_region start) regions
