-- ===== src/Dry/Fingerprint.antt =====
-- crates/analysis-dry/src/lib.rs: the fingerprints of tokens and of windows of tokens, two `u64` lanes.
pub mod Power
pub mod Lanes
pub mod Rolling
pub mod Visits
pub mod Keeps
mod Samples
use Prim.Native.Nat.{bit_xor}
use reporigor.Prelude.{
  ℕ, zero, suc, ◌+◌, ◌-◌, ◌*◌, ◌/◌, ◌%◌, ◌^◌, List, [], ◌∷◌, map, ltb, ◌==◌, if◌then◌else◌, length,
  Text, take, get_or, Result, ◌>>=◌, ◌>>◌, ok,
}

pub record Fingerprint : Type 0 where
  pub first : ℕ
  pub second : ℕ

abbrev pub word : ℕ
word = 18446744073709551616

-- `u64::wrapping_mul`, `wrapping_add` and `wrapping_sub`
abbrev pub wrapping_mul : ℕ → ℕ → ℕ
wrapping_mul a b = a * b % word

abbrev pub wrapping_add : ℕ → ℕ → ℕ
wrapping_add a b = (a + b) % word

abbrev pub wrapping_sub : ℕ → ℕ → ℕ
wrapping_sub a b = (a + word - b) % word

abbrev pub window_base_first : ℕ
window_base_first = 0x9e3779b185ebca87

abbrev pub window_base_second : ℕ
window_base_second = 0xc2b2ae3d27d4eb4f

-- `bytes.len() as u64` of a `usize` is the length.
unfoldable pub mix_bytes : ℕ → ℕ → Text → ℕ
mix_bytes multiplier value [] = value
mix_bytes multiplier value (byte ∷ bytes) =
    let mixed = wrapping_mul (bit_xor value byte) multiplier in
    mix_bytes multiplier (bit_xor mixed (mixed / 2 ^ 29)) bytes

unfoldable pub fingerprint_token_lane : Text → ℕ → ℕ → ℕ
unfolding mix_bytes
fingerprint_token_lane bytes seed multiplier =
    let value =
      mix_bytes multiplier (bit_xor seed (wrapping_mul (length bytes) 0x517cc1b727220a95)) bytes in
    let folded = wrapping_mul (bit_xor value (value / 2 ^ 33)) 0xff51afd7ed558ccd in
    bit_xor folded (folded / 2 ^ 33)

unfoldable pub stable_token_fingerprint : Text → Fingerprint
unfolding fingerprint_token_lane
stable_token_fingerprint value = record {
  first = fingerprint_token_lane value 0xcbf29ce484222325 0x00000100000001b3;
  second = fingerprint_token_lane value 0x6a09e667f3bcc909 0x165667b19e3779f9;
}

unfoldable pub append : Fingerprint → Fingerprint → Fingerprint
append self token = record {
  first = wrapping_add (wrapping_mul self.first window_base_first) token.first;
  second = wrapping_add (wrapping_mul self.second window_base_second) token.second;
}

-- The loop of `wrapping_pow` over `result`, `base` and `exponent`, on fuel.
unfoldable pub pow_loop : ℕ → ℕ → ℕ → ℕ → ℕ
pow_loop zero result base exponent = result
pow_loop (suc fuel) result base exponent =
    let rest =
      pow_loop fuel (if exponent % 2 == 1 then wrapping_mul result base else result)
        (wrapping_mul base base) (exponent / 2) in
    if exponent == 0 then result else rest

-- The exponent is halved, so as many rounds as its value are enough.
unfoldable pub wrapping_pow : ℕ → ℕ → ℕ
unfolding pow_loop
wrapping_pow base exponent = pow_loop exponent 1 base exponent

abbrev pub zero_fingerprint : Fingerprint
zero_fingerprint = record { first = 0; second = 0 }

-- `for token in &token_fingerprints[..size] { window = window.append(*token); }`
unfoldable pub append_all : Fingerprint → List Fingerprint → Fingerprint
unfolding append
append_all window [] = window
append_all window (token ∷ tokens) = append_all (append window token) tokens

-- One lane of the rolling update.
abbrev pub roll_lane : ℕ → ℕ → ℕ → ℕ → ℕ → ℕ
roll_lane base power window outgoing incoming =
    wrapping_add (wrapping_mul (wrapping_sub window (wrapping_mul outgoing power)) base) incoming

unfoldable pub roll : ℕ → ℕ → Fingerprint → Fingerprint → Fingerprint → Fingerprint
roll first_power second_power window outgoing incoming = record {
  first = roll_lane window_base_first first_power window.first outgoing.first incoming.first;
  second = roll_lane window_base_second second_power window.second outgoing.second incoming.second;
}

-- `token_fingerprints[at]`
abbrev pub fingerprint_at : List Fingerprint → ℕ → Fingerprint
fingerprint_at fingerprints at = get_or fingerprints at zero_fingerprint

module _ {ℓ κ} {E : Type ℓ} {S : Type κ} where
  -- The second loop of `for_each_fingerprinted_window`, from `start` for `rounds` windows; `accept`
  -- is `FnMut`, so it takes a state and returns the next one.
  unfoldable pub roll_windows :
      List Fingerprint
      → ℕ
      → ℕ
      → ℕ
      → (ℕ → Fingerprint → S → Result E S)
      → ℕ
      → ℕ
      → Fingerprint
      → S
      → Result E S
  unfolding roll
  roll_windows fingerprints size first_power second_power accept zero start window state = ok state
  roll_windows fingerprints size first_power second_power accept (suc rounds) start window state =
      let next =
        roll first_power second_power window (fingerprint_at fingerprints (start - 1))
          (fingerprint_at fingerprints (start + size - 1)) in
      (do
        accepted ← accept start next state
        roll_windows fingerprints size first_power second_power accept rounds (start + 1) next
            accepted)

  unfoldable pub for_each_fingerprinted_window {υ} :
      {T : Type υ}
      → List T
      → ℕ
      → (T → Fingerprint)
      → (ℕ → Fingerprint → S → Result E S)
      → S
      → Result E S
  unfolding wrapping_pow append_all roll_windows
  for_each_fingerprinted_window tokens size token_hasher accept state =
      let fingerprints = map token_hasher tokens in
      let window = append_all zero_fingerprint (take size fingerprints) in
      if ltb (length tokens) size then ok state else (do
        accepted ← accept 0 window state
        roll_windows fingerprints size (wrapping_pow window_base_first (size - 1))
            (wrapping_pow window_base_second (size - 1)) accept (length tokens - size) 1 window
            accepted)
