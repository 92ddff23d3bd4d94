-- ===== src/Dry/Dice/Exit.antt =====
-- The early exit of `dice_similarity` never changes whether the threshold is reached.
use Prim.Native.Nat.{Ordering}
use reporigor.Dry.Dice.{
  ShingleIdentity, compare_shingle, similarity_of, remaining_can_reach_threshold, as_u32, dice_loop,
  CandidateWork, consume, can_reach_dice, dice_similarity,
}
use reporigor.Dry.Limits.{Floats, zero_bits}
use reporigor.Prelude.{
  ℕ, ◌+◌, ◌≤◌, min, ◌≡◌, refl, sym, ap, ◌∙◌, ◌⊎◌, inl, inr, Bool, true, false, List, [], ◌∷◌, arith,
  ◌==◌, Bool-cases, u64_max, saturating_add, length, >>=-eq-ok, ok,
}

-- How many shingles two sorted lists share, without an early exit.
pub shared_count : List ShingleIdentity → List ShingleIdentity → ℕ
shared_count [] right = 0
shared_count (x ∷ left) [] = 0
shared_count (x ∷ left) (y ∷ right) = elim (compare_shingle x y) [
  | Ordering.lt ↦ shared_count left (y ∷ right)
  | Ordering.gt ↦ shared_count (x ∷ left) right
  | Ordering.eq ↦ shared_count left right + 1
]

shared_count-le :
    (left right : List ShingleIdentity)
    → (shared_count left right ≤ length left) × (shared_count left right ≤ length right)
unfolding shared_count
shared_count-le [] right = omega arith
shared_count-le (x ∷ left) [] = omega arith
shared_count-le (x ∷ left) (y ∷ right) = ground (
  arith,
  shared_count-le left (y ∷ right),
  shared_count-le (x ∷ left) right,
  shared_count-le left right,
)

-- What IEEE division and comparison promise: more shared shingles do not make the ratio smaller. And
-- the threshold was validated: it is above zero.
pub record IsMonotone (f : Floats) (threshold : ℕ) : Type 0 where
  pub grows :
      (a b total : ℕ)
      → a ≤ b
      → f.le threshold (f.twice_ratio a total) ≡ true
      → f.le threshold (f.twice_ratio b total) ≡ true
  pub positive : f.le threshold zero_bits ≡ false

as_u32_mono : (a b : ℕ) → a ≤ b → as_u32 a ≤ as_u32 b
as_u32_mono a b h = ground arith

module _ (f : Floats) (threshold : ℕ) (m : IsMonotone f threshold) where
  -- When the rest cannot reach the threshold, the whole does not.
  exit-refused :
      (total left right shared more : ℕ)
      → more ≤ min left right
      → shared + left ≤ u64_max
      → remaining_can_reach_threshold f left right shared total threshold ≡ false
      → f.le threshold (similarity_of f (shared + more) total) ≡ false
  unfolding remaining_can_reach_threshold similarity_of
  exit-refused total left right shared more h room out = elim (Bool-cases (total == 0)) [
    | inl none_at_all ↦ rw none_at_all m.positive
    | inr some_total ↦
        rw some_total
          (elim (Bool-cases
            (f.le threshold (f.twice_ratio (as_u32 (shared + more)) (as_u32 total)))) [
              | inr below ↦ below
              | inl above ↦
                  let wider =
                    m.grows (as_u32 (shared + more))
                      (as_u32 (saturating_add shared (min left right))) (as_u32 total)
                      (as_u32_mono (shared + more) (saturating_add shared (min left right))
                        (ground arith))
                      above in
                  cc
            ])
  ]

Ordering-cases : (o : Ordering) → (o ≡ Ordering.lt) ⊎ ((o ≡ Ordering.eq) ⊎ (o ≡ Ordering.gt))
Ordering-cases Ordering.lt = inl refl
Ordering-cases Ordering.eq = inr (inl refl)
Ordering-cases Ordering.gt = inr (inr refl)

module _ (f : Floats) (threshold : ℕ) (m : IsMonotone f threshold) where
  accepts : ℕ → ℕ → Bool
  accepts shared total = f.le threshold (similarity_of f shared total)

  dice_loop_lem :
      (total : ℕ) (left right : List ShingleIdentity) (shared : ℕ) (work : CandidateWork)
      {similarity : ℕ} {w : CandidateWork}
      → shared + length left ≤ u64_max
      → dice_loop f threshold total left right shared work ≡ ok (similarity, w)
      → f.le threshold similarity ≡ accepts (shared + shared_count left right) total
  unfolding dice_loop shared_count accepts
  dice_loop_lem total [] right shared work {similarity} h e =
      let same : similarity_of f shared total ≡ similarity = cc e in
      let no_more : shared ≡ shared + 0 = omega arith in
      ap (f.le threshold) (sym same) ∙ ap (λ (k : ℕ). accepts k total) no_more
  dice_loop_lem total (x ∷ left) [] shared work {similarity} h e =
      let same : similarity_of f shared total ≡ similarity = cc e in
      let no_more : shared ≡ shared + 0 = omega arith in
      ap (f.le threshold) (sym same) ∙ ap (λ (k : ℕ). accepts k total) no_more
  dice_loop_lem total (x ∷ left) (y ∷ right) shared work {similarity} h e =
      let sizes = shared_count-le (x ∷ left) (y ∷ right) in
      elim (Bool-cases (
        remaining_can_reach_threshold f (length (x ∷ left)) (length (y ∷ right)) shared total
          threshold)) [
            | inr out ↦
                let stopped : zero_bits ≡ similarity = cc (rw out at e) in
                ap (f.le threshold) (sym stopped)
                ∙ m.positive
                ∙ sym (
                    exit-refused f threshold m total (length (x ∷ left)) (length (y ∷ right)) shared
                      (shared_count (x ∷ left) (y ∷ right)) (omega (arith, sizes)) h out)
            | inl goes_on ↦
                let (spent, _, e1) = >>=-eq-ok (consume work 1) _ (rw goes_on at e) in
                elim (Ordering-cases (compare_shingle x y)) [
                  | inl less ↦
                      rw (less, shared_count)
                        (dice_loop_lem total left (y ∷ right) shared spent (omega arith)
                          (rw less at e1))
                  | inr (inl equal) ↦
                      let one_more : shared + 1 + shared_count left right
                          ≡ shared + (shared_count left right + 1) =
                        omega arith in
                      rw (equal, shared_count)
                        (dice_loop_lem total left right (shared + 1) spent (omega arith)
                            (rw equal at e1)
                          ∙ ap (λ (k : ℕ). accepts k total) one_more)
                  | inr (inr greater) ↦
                      rw (greater, shared_count)
                        (dice_loop_lem total (x ∷ left) right shared spent h (rw greater at e1))
                ]
          ]

  -- A comparison that returns, early or not, reaches the threshold exactly when the ratio of all
  -- shared shingles does.
  pub dice_similarity_lem :
      (left right : List ShingleIdentity) (work : CandidateWork) {similarity : ℕ}
      {w : CandidateWork}
      → length left ≤ u64_max
      → dice_similarity f left right threshold work ≡ ok (similarity, w)
      → f.le threshold similarity
        ≡ f.le threshold (
            similarity_of f (shared_count left right) (saturating_add (length left) (length right)))
  unfolding dice_similarity accepts
  dice_similarity_lem left right work h e =
      let from_zero : 0 + shared_count left right ≡ shared_count left right = omega arith in
      dice_loop_lem (saturating_add (length left) (length right)) left right 0 work (omega arith) e
      ∙ ap (λ (k : ℕ). accepts k (saturating_add (length left) (length right))) from_zero

  -- A pair that `can_reach_dice` refuses does not reach the threshold.
  can_reach_dice-refuses :
      (left right : List ShingleIdentity)
      → can_reach_dice f (length left) (length right) threshold ≡ false
      → f.le threshold
          (similarity_of f (shared_count left right) (saturating_add (length left) (length right)))
        ≡ false
  unfolding can_reach_dice similarity_of
  can_reach_dice-refuses left right e =
      elim (Bool-cases (saturating_add (length left) (length right) == 0)) [
        | inl nothing ↦ rw nothing m.positive
        | inr something ↦
            rw something
              (elim (Bool-cases (
                f.le threshold (
                  f.twice_ratio (as_u32 (shared_count left right))
                    (as_u32 (saturating_add (length left) (length right)))))) [
                      | inr below ↦ below
                      | inl above ↦
                          let sizes = shared_count-le left right in
                          let wider =
                            m.grows (as_u32 (shared_count left right))
                              (as_u32 (min (length left) (length right)))
                              (as_u32 (saturating_add (length left) (length right)))
                              (as_u32_mono (shared_count left right)
                                (min (length left) (length right)) (omega (arith, sizes)))
                              above in
                          cc (wider, rw something at e)
                    ])
      ]
