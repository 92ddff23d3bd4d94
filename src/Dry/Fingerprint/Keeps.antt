-- ===== src/Dry/Fingerprint/Keeps.antt =====
-- What every accepted window keeps, the whole visit keeps.
use reporigor.Dry.Fingerprint.{Fingerprint, roll_windows, for_each_fingerprinted_window}
use reporigor.Prelude.{
  ℕ, zero, suc, ◌+◌, ◌-◌, ◌≡◌, subst, inl, inr, List, ltb, Bool-cases, length, Result, >>=-eq-ok,
  ok_injective, ok,
}

module _ {ℓ κ} {E : Type ℓ} {S : Type κ} (P : S → Type 0)
    (accept : ℕ → Fingerprint → S → Result E S)
    (keeps : (start : ℕ) (key : Fingerprint) (s s' : S)
      → P s
      → accept start key s ≡ ok s'
      → P s') where
  roll_windows-keeps :
      (fingerprints : List Fingerprint) (size p q rounds start : ℕ) (window : Fingerprint) (s : S)
      {out : S}
      → P s
      → roll_windows fingerprints size p q accept rounds start window s ≡ ok out
      → P out
  unfolding roll_windows
  roll_windows-keeps fingerprints size p q zero start window s h e = subst P (ok_injective _ _ e) h
  roll_windows-keeps fingerprints size p q (suc rounds) start window s h e =
      let (next, accepted, e1) = >>=-eq-ok (accept start _ s) _ e in
      roll_windows-keeps fingerprints size p q rounds (start + 1) _ next
        (keeps start _ s next h accepted) e1

  pub for_each_fingerprinted_window-keeps {υ} :
      {T : Type υ} (tokens : List T) (size : ℕ) (token_hasher : T → Fingerprint) (s : S) {out : S}
      → P s
      → for_each_fingerprinted_window tokens size token_hasher accept s ≡ ok out
      → P out
  unfolding for_each_fingerprinted_window
  for_each_fingerprinted_window-keeps tokens size token_hasher s h e =
      elim (Bool-cases (ltb (length tokens) size)) [
        | inl short ↦ subst P (ok_injective _ _ (rw short at e)) h
        | inr enough ↦
            let (next, accepted, e1) = >>=-eq-ok (accept 0 _ s) _ (rw enough at e) in
            roll_windows-keeps _ size _ _ (length tokens - size) 1 _ next
              (keeps 0 _ s next h accepted) e1
      ]
