-- ===== src/Dry/Fingerprint/Lanes.antt =====
-- One lane of a window's fingerprint: a polynomial in the base modulo 2 ^ 64, and its rolling update.
use native.Mathlib.Nat.{mod-add-mod, add-mul, mul_assoc, mul_comm, mul-one, pow-zero, pow-suc}
use reporigor.Dry.Fingerprint.{word, wrapping_mul, wrapping_add, wrapping_sub, roll_lane}
use reporigor.Dry.Fingerprint.Power.{mod-mul-mod, mul-mod-mod}
use reporigor.Prelude.{
  ℕ, suc, ◌+◌, ◌*◌, ◌%◌, ◌^◌, ◌≡◌, refl, sym, ap, ◌∙◌, List, [], ◌∷◌, ◌++◌, arith, length,
}

-- `append` on one lane, over the values of the tokens.
abbrev pub lane : ℕ → ℕ → List ℕ → ℕ
lane base acc [] = acc
lane base acc (x ∷ xs) = lane base (wrapping_add (wrapping_mul acc base) x) xs

-- The same polynomial, not reduced.
abbrev polynomial : ℕ → ℕ → List ℕ → ℕ
polynomial base acc [] = acc
polynomial base acc (x ∷ xs) = polynomial base (acc * base + x) xs

lane-polynomial :
    (base acc : ℕ) (xs : List ℕ) → lane base (acc % word) xs ≡ polynomial base acc xs % word
lane-polynomial base acc [] = refl
lane-polynomial base acc (x ∷ xs) =
    ap (λ (t : ℕ). lane base ((t + x) % word) xs) (mod-mul-mod acc base word)
    ∙ ap (λ (t : ℕ). lane base t xs) (mod-add-mod (acc * base) word x)
    ∙ lane-polynomial base (acc * base + x) xs

polynomial_split :
    (base acc : ℕ) (xs : List ℕ)
    → polynomial base acc xs ≡ acc * base ^ length xs + polynomial base 0 xs
polynomial_split base acc [] =
    sym (mul-one acc) ∙ ap (λ (t : ℕ). acc * t) (sym (pow-zero base)) ∙ omega arith
polynomial_split base acc (x ∷ xs) =
    let t = base ^ length xs in
    let power : acc * base ^ suc (length xs) ≡ acc * base * t =
      ap (λ (k : ℕ). acc * k) (pow-suc base (length xs) ∙ mul_comm t base)
      ∙ sym (mul_assoc acc base t) in
    let first : 0 * base + x ≡ x = omega arith in
    let start : polynomial base (0 * base + x) xs ≡ x * t + polynomial base 0 xs =
      ap (λ (k : ℕ). polynomial base k xs) first ∙ polynomial_split base x xs in
    let grown = polynomial_split base (acc * base + x) xs in
    let shared : (acc * base + x) * t ≡ acc * base * t + x * t = add-mul (acc * base) x t in
    omega (arith, grown, shared, power, start)

lane-append :
    (base acc : ℕ) (xs ys : List ℕ) → lane base acc (xs ++ ys) ≡ lane base (lane base acc xs) ys
lane-append base acc [] ys = refl
lane-append base acc (x ∷ xs) ys = lane-append base (wrapping_add (wrapping_mul acc base) x) xs ys

-- Taking off what was added, modulo 2 ^ 64.
take_off : (a b r : ℕ) → a % word ≡ b % word → wrapping_sub ((a + r) % word) (b % word) ≡ r % word
take_off a b r e = omega arith

pub roll_lane_lem :
    (base out incoming : ℕ) (rest : List ℕ)
    → roll_lane base (base ^ length rest % word) (lane base 0 (out ∷ rest)) out incoming
      ≡ lane base 0 (rest ++ (incoming ∷ []))
roll_lane_lem base out incoming rest =
    let t = base ^ length rest in
    let r = polynomial base 0 rest in
    let whole : lane base 0 (out ∷ rest) ≡ (out * t + r) % word =
      lane-polynomial base 0 (out ∷ rest)
      ∙ ap (λ (k : ℕ). polynomial base k rest % word) (omega arith)
      ∙ ap (λ (k : ℕ). k % word) (polynomial_split base out rest) in
    let off : wrapping_sub (lane base 0 (out ∷ rest)) (out * (t % word) % word) ≡ lane base 0 rest =
      ap (λ (k : ℕ). wrapping_sub k (out * (t % word) % word)) whole
      ∙ take_off (out * t) (out * (t % word)) r (sym (mul-mod-mod out t word))
      ∙ sym (lane-polynomial base 0 rest) in
    ap (λ (k : ℕ). wrapping_add (wrapping_mul k base) incoming) off
    ∙ sym (lane-append base 0 rest (incoming ∷ []))
