-- ===== src/Dry/Fingerprint/Visits.antt =====
-- `for_each_fingerprinted_window` visits every window with the fingerprint of its own tokens.
use reporigor.Dry.Fingerprint.{
  Fingerprint, append_all, roll, roll_windows, for_each_fingerprinted_window, wrapping_pow,
  zero_fingerprint, fingerprint_at, window_base_first, window_base_second,
}
use reporigor.Dry.Fingerprint.Rolling.{roll_lem, window-next}
use reporigor.Prelude.{
  ℕ, zero, suc, ◌+◌, ◌-◌, ◌≤◌, ◌<◌, ◌≡◌, refl, sym, ap, fun_ext, ◌∙◌, inl, inr, List, [], ◌∷◌, map,
  arith, ltb, Bool-cases, length, take, drop, length-take, length-drop, Result, ◌>>=◌, ok,
}

-- The fingerprint of the window at `start`, from its tokens alone.
abbrev pub window_fingerprint : List Fingerprint → ℕ → ℕ → Fingerprint
window_fingerprint fingerprints size start =
    append_all zero_fingerprint (take size (drop start fingerprints))

abbrev next_window : List Fingerprint → ℕ → ℕ → Fingerprint
next_window fingerprints size start =
    roll (wrapping_pow window_base_first (size - 1)) (wrapping_pow window_base_second (size - 1))
      (window_fingerprint fingerprints size (start - 1)) (fingerprint_at fingerprints (start - 1))
      (fingerprint_at fingerprints (start + size - 1))

length-window :
    (tokens : List Fingerprint) (size start : ℕ)
    → start + size ≤ length tokens
    → length (take size (drop start tokens)) ≡ size
length-window tokens size start h =
    length-take size (drop start tokens) (omega (arith, length-drop start tokens))

length-map {ℓ} : {T : Type ℓ} (f : T → Fingerprint) (xs : List T) → length (map f xs) ≡ length xs
length-map f [] = refl
length-map f (x ∷ xs) = ap suc (length-map f xs)

-- With the places spelled as the proof needs them.
next_window_at :
    (fingerprints : List Fingerprint) (n k : ℕ)
    → k + suc n < length fingerprints
    → roll
        (wrapping_pow window_base_first n)
        (wrapping_pow window_base_second n)
        (window_fingerprint fingerprints (suc n) k)
        (fingerprint_at fingerprints k)
        (fingerprint_at fingerprints (k + suc n))
      ≡ window_fingerprint fingerprints (suc n) (k + 1)
next_window_at fingerprints n k h =
    let (here, there) = window-next fingerprints n k h in
    let rest = take n (drop (k + 1) fingerprints) in
    let size : n ≡ length rest = sym (length-window fingerprints n (k + 1) (omega arith)) in
    let out = fingerprint_at fingerprints k in
    let incoming = fingerprint_at fingerprints (k + suc n) in
    ap
      (λ (m : ℕ).
        roll (wrapping_pow window_base_first m) (wrapping_pow window_base_second m)
          (window_fingerprint fingerprints (suc n) k) out incoming)
      size
    ∙ ap
        (λ ts.
          roll (wrapping_pow window_base_first (length rest))
            (wrapping_pow window_base_second (length rest)) (append_all zero_fingerprint ts) out
            incoming)
        here
    ∙ roll_lem out incoming rest
    ∙ ap (append_all zero_fingerprint) (sym there)

next_window_lem :
    (fingerprints : List Fingerprint) (size start : ℕ)
    → 0 < size
    → 0 < start
    → start + size ≤ length fingerprints
    → next_window fingerprints size start ≡ window_fingerprint fingerprints size start
next_window_lem fingerprints zero start p q h = elim p [ ]
next_window_lem fingerprints (suc n) start p q h =
    let n' : suc n - 1 ≡ n = omega arith in
    let k = start - 1 in
    let last : start + suc n - 1 ≡ k + suc n = omega arith in
    let back : k + 1 ≡ start = omega arith in
    ap
      (λ (m : ℕ).
        roll (wrapping_pow window_base_first m) (wrapping_pow window_base_second m)
          (window_fingerprint fingerprints (suc n) k) (fingerprint_at fingerprints k)
          (fingerprint_at fingerprints (start + suc n - 1)))
      n'
    ∙ ap
        (λ (m : ℕ).
          roll (wrapping_pow window_base_first n) (wrapping_pow window_base_second n)
            (window_fingerprint fingerprints (suc n) k) (fingerprint_at fingerprints k)
            (fingerprint_at fingerprints m))
        last
    ∙ next_window_at fingerprints n k (omega arith)
    ∙ ap (window_fingerprint fingerprints (suc n)) back

module _ {ℓ κ} {E : Type ℓ} {S : Type κ} (accept : ℕ → Fingerprint → S → Result E S) where
  -- The windows from `start`, each visited with its own fingerprint.
  pub visit_windows : List Fingerprint → ℕ → ℕ → ℕ → S → Result E S
  visit_windows fingerprints size zero start state = ok state
  visit_windows fingerprints size (suc rounds) start state = do
    accepted ← accept start (window_fingerprint fingerprints size start) state
    visit_windows fingerprints size rounds (start + 1) accepted

  roll_windows_lem :
      (fingerprints : List Fingerprint) (size rounds start : ℕ) (window : Fingerprint) (state : S)
      → 0 < size
      → 0 < start
      → start + size + rounds ≤ length fingerprints + 1
      → window ≡ window_fingerprint fingerprints size (start - 1)
      → roll_windows fingerprints size
          (wrapping_pow window_base_first (size - 1))
          (wrapping_pow window_base_second (size - 1))
          accept
          rounds
          start
          window
          state
        ≡ visit_windows fingerprints size rounds start state
  unfolding roll_windows visit_windows
  roll_windows_lem fingerprints size zero start window state p q h e = refl
  roll_windows_lem fingerprints size (suc rounds) start window state p q h e =
      let own = window_fingerprint fingerprints size start in
      let first_power = wrapping_pow window_base_first (size - 1) in
      let second_power = wrapping_pow window_base_second (size - 1) in
      let rolled : roll first_power second_power window (fingerprint_at fingerprints (start - 1))
            (fingerprint_at fingerprints (start + size - 1))
          ≡ own =
        ap
          (λ w.
            roll first_power second_power w (fingerprint_at fingerprints (start - 1))
              (fingerprint_at fingerprints (start + size - 1)))
          e
        ∙ next_window_lem fingerprints size start p q (omega arith) in
      let before : start ≡ start + 1 - 1 = omega arith in
      ap
        (λ w. accept start w state >>= λ accepted.
          roll_windows fingerprints size first_power second_power accept rounds (start + 1) w
            accepted)
        rolled
      ∙ ap (λ (rest : S → Result E S). accept start own state >>= rest)
          (fun_ext (λ accepted.
            roll_windows_lem fingerprints size rounds (start + 1) own accepted p (omega arith)
              (omega arith) (ap (window_fingerprint fingerprints size) before)))

  -- The optimised visit is the plain one.
  pub for_each_fingerprinted_window_lem {υ} :
      {T : Type υ} (tokens : List T) (size : ℕ) (token_hasher : T → Fingerprint) (state : S)
      → 0 < size
      → for_each_fingerprinted_window tokens size token_hasher accept state
        ≡ visit_windows (map token_hasher tokens) size (length tokens + 1 - size) 0 state
  unfolding for_each_fingerprinted_window visit_windows
  for_each_fingerprinted_window_lem tokens size token_hasher state p =
      let fingerprints = map token_hasher tokens in
      let count : length fingerprints ≡ length tokens = length-map token_hasher tokens in
      elim (Bool-cases (ltb (length tokens) size)) [
        | inl short ↦
            let none_left : 0 ≡ length tokens + 1 - size = ground (arith, short) in
            rw short (ap (λ (rounds : ℕ). visit_windows fingerprints size rounds 0 state) none_left)
        | inr enough ↦
            let more : suc (length tokens - size) ≡ length tokens + 1 - size =
              ground (arith, enough) in
            rw enough (
              ap
                (λ (rest : S → Result E S).
                  accept 0 (window_fingerprint fingerprints size 0) state >>= rest)
                (fun_ext (λ accepted.
                  roll_windows_lem fingerprints size (length tokens - size) 1
                    (window_fingerprint fingerprints size 0) accepted p (omega arith)
                    (ground (arith, enough, count)) refl))
              ∙ ap (λ (rounds : ℕ). visit_windows fingerprints size rounds 0 state) more)
      ]
