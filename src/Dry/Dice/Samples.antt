-- ===== src/Dry/Dice/Samples.antt =====
-- Two functions that share three of their four shingles.
use native.Mathlib.Nat.{div-zero, div-mul-le_self, le-div_iff_mul-le}
use reporigor.Dry.Limits.{Floats, CandidateWork, consume}
use reporigor.Dry.Dice.{ShingleIdentity, dice_similarity, similarity_of}
use reporigor.Dry.Dice.Exit.{IsMonotone, dice_similarity_lem, shared_count}
use reporigor.Prelude.{
  ℕ, zero, suc, ◌*◌, ◌/◌, ◌≤◌, min, ◌≡◌, refl, true, List, [], ◌∷◌, arith, ltb, leb, saturating_add,
  ok,
}

abbrev thousandths : Floats
thousandths = record {
  is_finite = λ x. true;
  le = leb;
  lt = ltb;
  twice_ratio = λ shared total. 2000 * shared / total;
  smaller = min;
}

div_mono : (k x y : ℕ) → x ≤ y → x / k ≤ y / k
div_mono zero x y h = omega (arith, div-zero x, div-zero y)
div_mono (suc k) x y h =
    (le-div_iff_mul-le (omega arith)).1 (omega (arith, div-mul-le_self x (suc k)))

thousandths-IsMonotone : IsMonotone thousandths 700
thousandths-IsMonotone = record {
  grows = λ a b total h reached. ground (arith, div_mono total (2000 * a) (2000 * b));
  positive = refl;
}

abbrev shingle : ℕ → ShingleIdentity
shingle n = record { fingerprint = record { first = n; second = n }; variant = 0 }

abbrev left : List ShingleIdentity
left = shingle 1 ∷ shingle 2 ∷ shingle 3 ∷ shingle 5 ∷ []

abbrev right : List ShingleIdentity
right = shingle 1 ∷ shingle 2 ∷ shingle 4 ∷ shingle 5 ∷ []

abbrev fresh : CandidateWork
fresh = record { used = 0; limit = 100 }

compared :
    dice_similarity thousandths left right 700 fresh ≡ ok (750, record { used = 5; limit = 100 })
unfolding dice_similarity consume
compared = refl

dice_similarity_lem_example :
    leb 700 750 ≡ leb 700 (similarity_of thousandths (shared_count left right) (saturating_add 4 4))
dice_similarity_lem_example =
    dice_similarity_lem thousandths 700 thousandths-IsMonotone left right fresh (omega arith)
      compared
