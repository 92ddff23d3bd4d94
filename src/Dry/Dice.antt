-- ===== src/Dry/Dice.antt =====
-- crates/analysis-dry/src/lib.rs: the Sørensen-Dice similarity of two sorted multisets of shingles.
pub mod Exit
mod Samples
use Prim.Native.Nat.{compare, Ordering}
use reporigor.Dry.Limits.{Floats, DryError, CandidateWork, consume, zero_bits}
use reporigor.Dry.Fingerprint.{Fingerprint}
use reporigor.Prelude.Order.{then_with}
use reporigor.Prelude.{
  ℕ, ◌+◌, min, Bool, false, not, List, [], ◌∷◌, leb, ◌==◌, if◌then◌else◌, u32_max, saturating_add,
  length, Result, ◌>>=◌, ◌>>◌, ok,
}

pub record ShingleIdentity : Type 0 where
  pub fingerprint : Fingerprint
  pub variant : ℕ

-- The derived `Ord` of `ShingleIdentity`.
abbrev pub compare_shingle : ShingleIdentity → ShingleIdentity → Ordering
compare_shingle left right = then_with (compare left.fingerprint.first right.fingerprint.first) (
    then_with (compare left.fingerprint.second right.fingerprint.second)
      (compare left.variant right.variant))

-- `u32::try_from(count).unwrap_or(u32::MAX)`, also inside `count_as_f64`.
abbrev pub as_u32 : ℕ → ℕ
as_u32 count = if leb count u32_max then count else u32_max

-- The arguments are what is left of each list: `left.0.saturating_sub(left.1)`.
unfoldable pub remaining_can_reach_threshold : Floats → ℕ → ℕ → ℕ → ℕ → ℕ → Bool
remaining_can_reach_threshold f left right shared total threshold =
    f.le threshold (f.twice_ratio (as_u32 (saturating_add shared (min left right))) (as_u32 total))

-- What follows the loop.
unfoldable pub similarity_of : Floats → ℕ → ℕ → ℕ
similarity_of f shared total =
    if total == 0 then zero_bits else f.twice_ratio (as_u32 shared) (as_u32 total)

-- The loop of `dice_similarity`; the lists are `left[left_index..]` and `right[right_index..]`.
unfoldable pub dice_loop :
    Floats
    → ℕ
    → ℕ
    → List ShingleIdentity
    → List ShingleIdentity
    → ℕ
    → CandidateWork
    → Result DryError (ℕ × CandidateWork)
unfolding remaining_can_reach_threshold similarity_of
dice_loop f threshold total [] right shared work = ok (similarity_of f shared total, work)
dice_loop f threshold total (x ∷ left) [] shared work = ok (similarity_of f shared total, work)
dice_loop f threshold total (x ∷ left) (y ∷ right) shared work =
    if not (
      remaining_can_reach_threshold f (length (x ∷ left)) (length (y ∷ right)) shared total
        threshold)
    then ok (zero_bits, work)
    else (do
      spent ← consume work 1
      elim (compare_shingle x y) [
        | Ordering.lt ↦ dice_loop f threshold total left (y ∷ right) shared spent
        | Ordering.gt ↦ dice_loop f threshold total (x ∷ left) right shared spent
        | Ordering.eq ↦ dice_loop f threshold total left right (shared + 1) spent
      ])

unfoldable pub dice_similarity :
    Floats
    → List ShingleIdentity
    → List ShingleIdentity
    → ℕ
    → CandidateWork
    → Result DryError (ℕ × CandidateWork)
unfolding dice_loop
dice_similarity f left right threshold work =
    dice_loop f threshold (saturating_add (length left) (length right)) left right 0 work

unfoldable pub can_reach_dice : Floats → ℕ → ℕ → ℕ → Bool
can_reach_dice f left right threshold =
    let total = saturating_add left right in
    if total == 0
    then false
    else f.le threshold (f.twice_ratio (as_u32 (min left right)) (as_u32 total))
