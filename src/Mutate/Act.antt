-- ===== src/Mutate/Act.antt =====
-- Actions on the disk that may fail or be cut off at every write: a fault schedule says which.
pub mod Keeps
use reporigor.Prelude.{List, [], ◌∷◌, Result}

-- The process dies (power loss, SIGKILL) in `crashed`: nothing runs after it.
pub data Outcome {ℓ κ} (E : Type ℓ) (A : Type κ) : Type (ℓ ⊔ κ) where
  ok : A → Outcome E A
  err : E → Outcome E A
  crashed : Outcome E A

-- What happens at one access: it works, it reports an error having done nothing or everything,
-- or the process dies just before or just after it.
pub data Fault : Type 0 where
  works fails_before fails_after dies_before dies_after : Fault

abbrev pub next_fault : List Fault → Fault
next_fault [] = works
next_fault (f ∷ _) = f

abbrev pub later_faults : List Fault → List Fault
later_faults [] = []
later_faults (_ ∷ fs) = fs

module _ {ℓ} (S : Type ℓ) where
  -- A disk, and the faults still to come; none left means that everything works.
  pub record World : Type ℓ where
    pub disk : S
    pub faults : List Fault

  abbrev pub Act {κ υ} : Type κ → Type υ → Type (ℓ ⊔ κ ⊔ υ)
  Act E A = World → Outcome E A × World

module _ {ℓ κ υ} {S : Type ℓ} {E : Type κ} {A : Type υ} where
  unfoldable pub pure : A → Act S E A
  pure a w = (ok a, w)

  unfoldable pub fail : E → Act S E A
  fail e w = (err e, w)

  unfoldable pub gets : (S → A) → Act S E A
  gets f w = (ok (f w.disk), w)

  unfoldable pub lift : Result E A → Act S E A
  unfolding pure fail
  lift (Result.ok a) = pure a
  lift (Result.err e) = fail e

module _ {ℓ κ υ ξ} {S : Type ℓ} {E : Type κ} {A : Type υ} {B : Type ξ} where
  abbrev pub continue : Outcome E A × World S → (A → Act S E B) → Outcome E B × World S
  continue (ok a, w) f = f a w
  continue (err e, w) f = (err e, w)
  continue (crashed, w) f = (crashed, w)

  infixl 10 ◌>>=◌ ◌>>◌
  -- opening this opens `pure`, `fail`, `gets` and `lift` too
  unfoldable pub ◌>>=◌ : Act S E A → (A → Act S E B) → Act S E B
  unfolding pure fail gets lift
  ◌>>=◌ m f w = continue (m w) f

  abbrev pub ◌>>◌ : Act S E A → Act S E B → Act S E B
  m >> n = m >>= λ _. n

module _ {ℓ κ} {S : Type ℓ} {E : Type κ} where
  abbrev pub strike : E → Fault → (S → S) → World S → Outcome E (Unit {0}) × World S
  strike io works change w = (ok tt, record w { disk = change w.disk })
  strike io fails_before change w = (err io, w)
  strike io fails_after change w = (err io, record w { disk = change w.disk })
  strike io dies_before change w = (crashed, w)
  strike io dies_after change w = (crashed, record w { disk = change w.disk })

  -- One atomic change of the disk, with the error that it reports if it fails.
  unfoldable pub access : E → (S → S) → Act S E (Unit {0})
  access io change w =
      strike io (next_fault w.faults) change (record w { faults = later_faults w.faults })

abbrev pub map_error {ℓ κ υ} :
    {E : Type ℓ} {F : Type κ} {A : Type υ} → (E → F) → Outcome E A → Outcome F A
map_error f (ok a) = ok a
map_error f (err e) = err (f e)
map_error f crashed = crashed

-- `result.map_err(f)`
unfoldable pub map_err {ℓ κ υ ξ} :
    {S : Type ℓ} {E : Type κ} {F : Type υ} {A : Type ξ} → (E → F) → Act S E A → Act S F A
map_err f m w = (map_error f (m w).0, (m w).1)
