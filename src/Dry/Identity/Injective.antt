-- ===== src/Dry/Identity/Injective.antt =====
-- The encoding of components is injective: the lengths in front delimit them.
use reporigor.Dry.Identity.{encoded_components, to_string, digits_onto}
use reporigor.Prelude.{
  ℕ, zero, suc, ◌+◌, ◌-◌, ◌*◌, ◌/◌, ◌%◌, ◌≤◌, ◌≡◌, refl, sym, ap, ap₂, ◌∙◌, ◌≢◌, inl, inr, List, [],
  ◌∷◌, ◌++◌, arith, ltb, Bool-cases, length, All, Text, append_injective,
}

-- The number that decimal digits spell, read from the left after `acc`.
read_digits : ℕ → Text → ℕ
read_digits acc [] = acc
read_digits acc (digit ∷ rest) = read_digits (acc * 10 + (digit - b'0')) rest

abbrev IsDigit : ℕ → Type 0
IsDigit byte = (b'0' ≤ byte) × (byte ≤ b'9')

digits_onto-digits :
    (rounds n : ℕ) (rest : Text) → All IsDigit rest → All IsDigit (digits_onto rounds n rest)
unfolding digits_onto
digits_onto-digits zero n rest h = (omega arith, h)
digits_onto-digits (suc rounds) n rest h =
    ground (arith, digits_onto-digits rounds (n / 10) ((b'0' + n % 10) ∷ rest))

-- Reading what was written in front of `rest` gives the number, and goes on with `rest`.
read-digits_onto :
    (rounds n : ℕ) (rest : Text)
    → n ≤ rounds
    → read_digits 0 (digits_onto rounds n rest) ≡ read_digits n rest
unfolding digits_onto read_digits
read-digits_onto zero n rest h = ap (λ (k : ℕ). read_digits k rest) (omega arith)
read-digits_onto (suc rounds) n rest h = elim (Bool-cases (ltb n 10)) [
  | inl small ↦ rw small (ap (λ (k : ℕ). read_digits k rest) (omega arith))
  | inr large ↦ rw large (
      read-digits_onto rounds (n / 10) ((b'0' + n % 10) ∷ rest) (ground arith)
      ∙ ap (λ (k : ℕ). read_digits k rest) (omega arith))
]

to_string-digits : (n : ℕ) → All IsDigit (to_string n)
unfolding to_string
to_string-digits n = digits_onto-digits n n [] tt

to_string_injective : (m n : ℕ) → to_string m ≡ to_string n → m ≡ n
unfolding to_string read_digits
to_string_injective m n e =
    sym (read-digits_onto m m [] (omega arith))
    ∙ ap (read_digits 0) e
    ∙ read-digits_onto n n [] (omega arith)

-- The first colon ends the digits.
split_at_colon :
    (xs ys r s : Text)
    → All IsDigit xs
    → All IsDigit ys
    → xs ++ (b':' ∷ r) ≡ ys ++ (b':' ∷ s)
    → (xs ≡ ys) × (r ≡ s)
split_at_colon [] [] r s h k e = (refl, cc)
split_at_colon [] (y ∷ ys) r s h k e = ground (arith, k.0)
split_at_colon (x ∷ xs) [] r s h k e = ground (arith, h.0)
split_at_colon (x ∷ xs) (y ∷ ys) r s h k e = ground (arith, split_at_colon xs ys r s h.1 k.1)

append_cons-ne-nil : (xs : Text) (c : ℕ) (r : Text) → xs ++ (c ∷ r) ≢ []
append_cons-ne-nil [] c r e = cc
append_cons-ne-nil (x ∷ xs) c r e = cc

-- Two sequences of components with the same encoding are equal.
pub encoded_components_injective :
    (xs ys : List Text) → encoded_components xs ≡ encoded_components ys → xs ≡ ys
unfolding encoded_components
encoded_components_injective [] [] e = refl
encoded_components_injective [] (y ∷ ys) e =
    absurd (append_cons-ne-nil (to_string (length y)) b':' _ (sym e))
encoded_components_injective (x ∷ xs) [] e =
    absurd (append_cons-ne-nil (to_string (length x)) b':' _ e)
encoded_components_injective (x ∷ xs) (y ∷ ys) e =
    let (digits, values) =
      split_at_colon (to_string (length x)) (to_string (length y)) _ _ (to_string-digits (length x))
        (to_string-digits (length y)) e in
    let (first, rest) = append_injective x y _ _ (to_string_injective _ _ digits) values in
    ap₂ (λ (v : Text) (vs : List Text). v ∷ vs) first (encoded_components_injective xs ys rest)
