-- ===== src/Dry/Fingerprint/Samples.antt =====
-- The windows of three tokens in a stream of five.
use reporigor.Dry.Fingerprint.{
  Fingerprint, for_each_fingerprinted_window, stable_token_fingerprint, wrapping_pow,
}
use reporigor.Dry.Fingerprint.Visits.{visit_windows, for_each_fingerprinted_window_lem}
use reporigor.Dry.Limits.{DryError}
use reporigor.Prelude.{
  ℕ, ◌%◌, ◌^◌, ◌≡◌, refl, List, [], ◌∷◌, ◌++◌, map, arith, Text, codes, Result, ok,
}

abbrev stream : List Text
stream = codes "if" ∷ codes "ID" ∷ codes "{" ∷ codes "ID" ∷ codes "}" ∷ []

-- The closure that collects what it is given.
abbrev collect : ℕ → Fingerprint → List (ℕ × Fingerprint) → Result DryError (List (ℕ × Fingerprint))
collect start fingerprint seen = ok (seen ++ ((start, fingerprint) ∷ []))

for_each_fingerprinted_window_lem_example :
    for_each_fingerprinted_window stream 3 stable_token_fingerprint collect []
    ≡ visit_windows collect (map stable_token_fingerprint stream) 3 3 0 []
for_each_fingerprinted_window_lem_example =
    for_each_fingerprinted_window_lem collect stream 3 stable_token_fingerprint [] (omega arith)

cubed : wrapping_pow 0x100000001b3 3 ≡ 0x100000001b3 ^ 3 % 2 ^ 64
unfolding wrapping_pow
cubed = refl
