-- ===== src/Mutate/Act/Keeps.antt =====
-- Triples for actions that may be cut off: from `P`, the action ends in `Q` if it returns, and in
-- `I` if it fails or the process dies.
use reporigor.Mutate.Act.{
  ◌>>=◌, ok, err, pure, lift, access, Act, fail, gets, Outcome, World, Fault, map_err, strike,
  continue, map_error, next_fault, later_faults, crashed, works, fails_before, fails_after,
  dies_before, dies_after,
}
use reporigor.Prelude.{◌≡◌, refl, List, Result}

module _ {ℓ κ υ ξ} {S : Type ℓ} {E : Type κ} {A : Type υ} where
  abbrev pub Settles : (S → Type ξ) → (A → S → Type ξ) → Outcome E A × World S → Type ξ
  Settles I Q (ok a, w) = Q a w.disk
  Settles I Q (err e, w) = I w.disk
  Settles I Q (crashed, w) = I w.disk

  pub record Keeps (P I : S → Type ξ) (Q : A → S → Type ξ) (m : Act S E A) : Type (ℓ ⊔ ξ) where
    pub at : (w : World S) → P w.disk → Settles I Q (m w)

  pub Keeps-pure :
      {P I : S → Type ξ} {Q : A → S → Type ξ} (a : A)
      → ((d : S) → P d → Q a d)
      → Keeps P I Q (pure a)
  unfolding pure
  Keeps-pure a h = record { at = λ w k. h w.disk k }

  pub Keeps-fail :
      {P I : S → Type ξ} {Q : A → S → Type ξ} (e : E) → ((d : S) → P d → I d) → Keeps P I Q (fail e)
  unfolding fail
  Keeps-fail e h = record { at = λ w k. h w.disk k }

  pub Keeps-gets :
      {P I : S → Type ξ} {Q : A → S → Type ξ} (f : S → A)
      → ((d : S) → P d → Q (f d) d)
      → Keeps P I Q (gets f)
  unfolding gets
  Keeps-gets f h = record { at = λ w k. h w.disk k }

  -- What a pure check returned may be used afterwards.
  pub Keeps-lift :
      {P I : S → Type ξ} {Q : A → S → Type ξ} (r : Result E A)
      → ((d : S) → P d → I d)
      → ((a : A) (d : S) → r ≡ Result.ok a → P d → Q a d)
      → Keeps P I Q (lift r)
  unfolding lift
  Keeps-lift (Result.ok a) stop go = record { at = λ w k. go a w.disk refl k }
  Keeps-lift (Result.err e) stop go = record { at = λ w k. stop w.disk k }

  pub Keeps-weaken :
      {P P' I : S → Type ξ} {Q Q' : A → S → Type ξ} {m : Act S E A}
      → ((d : S) → P' d → P d)
      → ((a : A) (d : S) → Q a d → Q' a d)
      → Keeps P I Q m
      → Keeps P' I Q' m
  Keeps-weaken {I = I} {Q = Q} {Q' = Q'} {m = m} pre post k = record {
    at = λ w h. settle (m w) (k.at w (pre w.disk h));
  }
    where
      settle : (r : Outcome E A × World S) → Settles I Q r → Settles I Q' r
      settle (ok a, w) h = post a w.disk h
      settle (err e, w) h = h
      settle (crashed, w) h = h

module _ {ℓ κ υ ξ τ} {S : Type ℓ} {E : Type κ} {A : Type υ} {B : Type τ} where
  pub Keeps-bind :
      {P I : S → Type ξ} {Q : A → S → Type ξ} {R : B → S → Type ξ} (m : Act S E A)
      (f : A → Act S E B)
      → Keeps P I Q m
      → ((a : A) → Keeps (Q a) I R (f a))
      → Keeps P I R (m >>= f)
  unfolding ◌>>=◌
  Keeps-bind {I = I} {Q = Q} {R = R} m f first rest = record {
    at = λ w h. settle (m w) (first.at w h);
  }
    where
      settle : (r : Outcome E A × World S) → Settles I Q r → Settles I R (continue r f)
      settle (ok a, w) h = (rest a).at w h
      settle (err e, w) h = h
      settle (crashed, w) h = h

module _ {ℓ κ ξ} {S : Type ℓ} {E : Type κ} where
  -- One access: the disk is as before or as after, whatever is reported.
  pub Keeps-access :
      {P I : S → Type ξ} {Q : Unit {0} → S → Type ξ} (io : E) (change : S → S)
      → ((d : S) → P d → I d)
      → ((d : S) → P d → I (change d))
      → ((d : S) → P d → Q tt (change d))
      → Keeps P I Q (access io change)
  unfolding access
  Keeps-access {P} {I} {Q} io change before after done = record {
    at = λ w h. settle (next_fault w.faults) w.disk (later_faults w.faults) h;
  }
    where
      settle :
          (f : Fault) (d : S) (fs : List Fault)
          → P d
          → Settles I Q (strike io f change (record { disk = d; faults = fs }))
      settle works d fs h = done d h
      settle fails_before d fs h = before d h
      settle fails_after d fs h = after d h
      settle dies_before d fs h = before d h
      settle dies_after d fs h = after d h

module _ {ℓ κ υ ξ τ} {S : Type ℓ} {E : Type κ} {F : Type υ} {A : Type τ} where
  pub Keeps-map_err :
      {P I : S → Type ξ} {Q : A → S → Type ξ} (f : E → F) (m : Act S E A)
      → Keeps P I Q m
      → Keeps P I Q (map_err f m)
  unfolding map_err
  Keeps-map_err {I = I} {Q = Q} f m k = record { at = λ w h. settle (m w) (k.at w h) }
    where
      settle :
          (r : Outcome E A × World S) → Settles I Q r → Settles {E = F} I Q (map_error f r.0, r.1)
      settle (ok a, w) h = h
      settle (err e, w) h = h
      settle (crashed, w) h = h

module _ {ℓ κ υ ξ} {S : Type ℓ} {E : Type κ} {A : Type υ} where
  pub Keeps-stop :
      {P I I' : S → Type ξ} {Q : A → S → Type ξ} {m : Act S E A}
      → ((d : S) → I d → I' d)
      → Keeps P I Q m
      → Keeps P I' Q m
  Keeps-stop {I = I} {I' = I'} {Q = Q} {m = m} stop k = record {
    at = λ w h. settle (m w) (k.at w h);
  }
    where
      settle : (r : Outcome E A × World S) → Settles I Q r → Settles I' Q r
      settle (ok a, w) h = h
      settle (err e, w) h = stop w.disk h
      settle (crashed, w) h = stop w.disk h

  -- What an earlier step established may be used in a later one.
  pub Keeps-given :
      {P I : S → Type ξ} {Q : A → S → Type ξ} {F : Type ξ} {m : Act S E A}
      → (F → Keeps P I Q m)
      → Keeps (λ d. F × P d) I Q m
  Keeps-given k = record { at = λ w h. (k h.0).at w h.1 }
