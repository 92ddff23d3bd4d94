-- ===== src/Dry/Fingerprint/Power.antt =====
-- `wrapping_pow` is the power modulo 2 ^ 64.
use native.Mathlib.Nat.{
  add-mul-mod_self_right, mod-add-div', add-mul, mul_assoc, mul_comm, mul_right_comm, pow-zero,
  pow-suc, mul-one, mod-eq_of_lt,
}
use reporigor.Dry.Fingerprint.{wrapping_pow, pow_loop, word}
use reporigor.Prelude.{
  ℕ, zero, suc, ◌+◌, ◌*◌, ◌/◌, ◌%◌, ◌^◌, ◌≤◌, ◌<◌, ◌≡◌, sym, ap, ◌∙◌, inl, inr, arith, ◌==◌, ==_iff,
  Bool-cases,
}

-- A factor may be reduced first.
pub mod-mul-mod : (a b m : ℕ) → a % m * b % m ≡ a * b % m
mod-mul-mod a b m =
    sym (add-mul-mod_self_right (a % m * b) (a / m * b) m)
    ∙ ap (λ (t : ℕ). t % m)
        (ap (λ (t : ℕ). a % m * b + t) (mul_right_comm (a / m) b m)
          ∙ sym (add-mul (a % m) (a / m * m) b)
          ∙ ap (λ (t : ℕ). t * b) (mod-add-div' a m))

pub mul-mod-mod : (a b m : ℕ) → a * (b % m) % m ≡ a * b % m
mul-mod-mod a b m =
    ap (λ (t : ℕ). t % m) (mul_comm a (b % m))
    ∙ mod-mul-mod b a m
    ∙ ap (λ (t : ℕ). t % m) (mul_comm b a)

pow-mod : (base k m : ℕ) → (base % m) ^ k % m ≡ base ^ k % m
pow-mod base zero m = ap (λ (t : ℕ). t % m) (pow-zero (base % m) ∙ sym (pow-zero base))
pow-mod base (suc k) m =
    ap (λ (t : ℕ). t % m) (pow-suc (base % m) k)
    ∙ sym (mod-mul-mod ((base % m) ^ k) (base % m) m)
    ∙ ap (λ (t : ℕ). t * (base % m) % m) (pow-mod base k m)
    ∙ mod-mul-mod (base ^ k) (base % m) m
    ∙ mul-mod-mod (base ^ k) base m
    ∙ ap (λ (t : ℕ). t % m) (sym (pow-suc base k))

pow_square : (base k : ℕ) → (base * base) ^ k ≡ base ^ (k * 2)
pow_square base zero =
    pow-zero (base * base) ∙ sym (pow-zero base) ∙ ap (λ (t : ℕ). base ^ t) (omega arith)
pow_square base (suc k) =
    let e : suc k * 2 ≡ suc (suc (k * 2)) = omega arith in
    pow-suc (base * base) k
    ∙ ap (λ (t : ℕ). t * (base * base)) (pow_square base k)
    ∙ sym (mul_assoc (base ^ (k * 2)) base base)
    ∙ ap (λ (t : ℕ). t * base) (sym (pow-suc base (k * 2)))
    ∙ sym (pow-suc base (suc (k * 2)))
    ∙ ap (λ (t : ℕ). base ^ t) (sym e)

-- Half of the exponent, with the base squared, and the odd factor.
halved : (base exponent : ℕ) → exponent % 2 ≡ 0 → (base * base) ^ (exponent / 2) ≡ base ^ exponent
halved base exponent even = pow_square base (exponent / 2) ∙ ap (λ (t : ℕ). base ^ t) (omega arith)

halved_odd :
    (base exponent : ℕ) → exponent % 2 ≡ 1 → base * (base * base) ^ (exponent / 2) ≡ base ^ exponent
halved_odd base exponent odd =
    let e : suc (exponent / 2 * 2) ≡ exponent = omega arith in
    ap (λ (t : ℕ). base * t) (pow_square base (exponent / 2))
    ∙ mul_comm base (base ^ (exponent / 2 * 2))
    ∙ sym (pow-suc base (exponent / 2 * 2))
    ∙ ap (λ (t : ℕ). base ^ t) e

-- One round multiplies the rest of the power onto the result.
squared :
    (result base k : ℕ)
    → result * (base * base % word) ^ k % word ≡ result * (base * base) ^ k % word
squared result base k =
    sym (mul-mod-mod result ((base * base % word) ^ k) word)
    ∙ ap (λ (t : ℕ). result * t % word) (pow-mod (base * base) k word)
    ∙ mul-mod-mod result ((base * base) ^ k) word

no_more :
    (result base exponent : ℕ)
    → exponent ≡ 0
    → result < word
    → result ≡ result * base ^ exponent % word
no_more result base exponent e small =
    sym (mod-eq_of_lt small)
    ∙ ap (λ (t : ℕ). t % word) (sym (mul-one result))
    ∙ ap (λ (t : ℕ). result * t % word) (sym (pow-zero base))
    ∙ ap (λ (t : ℕ). result * base ^ t % word) (sym e)

pow_loop_lem :
    (fuel result base exponent : ℕ)
    → exponent ≤ fuel
    → result < word
    → pow_loop fuel result base exponent ≡ result * base ^ exponent % word
unfolding pow_loop
pow_loop_lem zero result base exponent h small = no_more result base exponent (omega arith) small
pow_loop_lem (suc fuel) result base exponent h small = elim (Bool-cases (exponent == 0)) [
  | inl done ↦ rw done (no_more result base exponent ((==_iff exponent 0).0 done) small)
  | inr more ↦ rw more (elim (Bool-cases (exponent % 2 == 1)) [
    | inl odd ↦ rw odd (
        pow_loop_lem fuel (result * base % word) (base * base % word) (exponent / 2)
          (ground (arith, more)) (omega arith)
        ∙ squared (result * base % word) base (exponent / 2)
        ∙ mod-mul-mod (result * base) ((base * base) ^ (exponent / 2)) word
        ∙ ap (λ (t : ℕ). t % word) (mul_assoc result base ((base * base) ^ (exponent / 2)))
        ∙ ap (λ (t : ℕ). result * t % word)
            (halved_odd base exponent ((==_iff (exponent % 2) 1).0 odd)))
    | inr even ↦ rw even (
        pow_loop_lem fuel result (base * base % word) (exponent / 2) (ground (arith, more)) small
        ∙ squared result base (exponent / 2)
        ∙ ap (λ (t : ℕ). result * t % word) (halved base exponent (ground (arith, even))))
  ])
]

-- The loop ends within its fuel, with the power modulo 2 ^ 64.
pub wrapping_pow_lem : (base exponent : ℕ) → wrapping_pow base exponent ≡ base ^ exponent % word
unfolding wrapping_pow
wrapping_pow_lem base exponent =
    pow_loop_lem exponent 1 base exponent (omega arith) (omega arith)
    ∙ ap (λ (t : ℕ). t % word) (mul_comm 1 (base ^ exponent) ∙ mul-one (base ^ exponent))
