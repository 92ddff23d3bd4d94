-- ===== src/Prelude/Results.antt =====
-- Rust's `Result`, and the `?` operator as a bind.
use mathlib.Core.Path.{◌≡◌, refl}
use mathlib.Core.Logic.{◌⊎◌, inl, inr}
use mathlib.Core.Bool.{Bool, true, false}

pub data Result {ℓ κ} (E : Type ℓ) (A : Type κ) : Type (ℓ ⊔ κ) where
  ok : A → Result E A
  err : E → Result E A

module _ {ℓ κ υ} {E : Type ℓ} {A : Type κ} {B : Type υ} where
  infixl 10 ◌>>=◌ ◌>>◌
  -- `let value = step?; rest`
  abbrev pub ◌>>=◌ : Result E A → (A → Result E B) → Result E B
  err failure >>= rest = err failure
  ok value >>= rest = rest value

  -- `step?; rest`
  abbrev pub ◌>>◌ : Result E A → Result E B → Result E B
  step >> rest = step >>= λ _. rest

-- `if failed { return Err(e); }`
abbrev pub reject_if {ℓ} : {E : Type ℓ} → Bool → E → Result E (Unit {0})
reject_if true e = err e
reject_if false e = ok tt

-- `self.step()?; rest`: an error ends the method, and what was written before it stays written.
abbrev pub and_then {ℓ κ υ} :
    {E : Type ℓ} {S : Type κ} {A : Type υ}
    → Result E (Unit {0}) × S
    → (S → Result E A × S)
    → Result E A × S
and_then (ok _, s) next = next s
and_then (err e, s) next = (err e, s)

pub Result-cases {ℓ κ} :
    {E : Type ℓ} {A : Type κ} (r : Result E A) → ((a : A) × (r ≡ ok a)) ⊎ ((e : E) × (r ≡ err e))
Result-cases (ok a) = inl (a, refl)
Result-cases (err e) = inr (e, refl)

pub and_then-ok {ℓ κ υ} :
    {E : Type ℓ} {S : Type κ} {A : Type υ} (r : Result E (Unit {0}) × S) (next : S → Result E A × S)
    {a : A}
    → (and_then r next).0 ≡ ok a
    → (r.0 ≡ ok tt) × ((next r.1).0 ≡ ok a)
and_then-ok (ok tt, s) next h = (refl, h)
and_then-ok (err e, s) next h = cc

module _ {ℓ κ υ} {E : Type ℓ} {A : Type κ} {B : Type υ} where
  -- If `let value = step?; rest` succeeded, so did the step, and the rest on its value.
  pub >>=-eq-ok :
      (step : Result E A) (rest : A → Result E B) {out : B}
      → (step >>= rest) ≡ ok out
      → (value : A) × (step ≡ ok value) × (rest value ≡ ok out)
  >>=-eq-ok (err failure) rest made = cc
  >>=-eq-ok (ok value) rest made = (value, refl, made)

module _ {ℓ κ} {E : Type ℓ} {A : Type κ} where
  -- The two values of equal successes.
  pub ok_injective : (a b : A) → ◌≡◌ {A = Result E A} (ok a) (ok b) → a ≡ b
  ok_injective a b e = cc
