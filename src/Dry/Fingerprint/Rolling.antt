-- ===== src/Dry/Fingerprint/Rolling.antt =====
-- The rolling fingerprints are those of the windows.
use reporigor.Dry.Fingerprint.{
  Fingerprint, append_all, append, roll, wrapping_pow, zero_fingerprint, fingerprint_at,
  window_base_first, window_base_second, word, roll_lane,
}
use reporigor.Dry.Fingerprint.Power.{wrapping_pow_lem}
use reporigor.Dry.Fingerprint.Lanes.{lane, roll_lane_lem}
use reporigor.Prelude.{
  ℕ, suc, ◌+◌, ◌%◌, ◌^◌, ◌<◌, ◌≡◌, refl, sym, ap, ap₂, ◌∙◌, List, [], ◌∷◌, ◌++◌, map, arith, length,
  take, drop, length-drop, get_or, get_or-drop, drop-cons, take-suc,
}

abbrev firsts : List Fingerprint → List ℕ
firsts = map (λ (f : Fingerprint). f.first)

abbrev seconds : List Fingerprint → List ℕ
seconds = map (λ (f : Fingerprint). f.second)

append_all_lanes :
    (window : Fingerprint) (tokens : List Fingerprint)
    → append_all window tokens ≡ record {
      first = lane window_base_first window.first (firsts tokens);
      second = lane window_base_second window.second (seconds tokens);
    }
unfolding append_all
append_all_lanes window [] = refl
append_all_lanes window (token ∷ tokens) = append_all_lanes (append window token) tokens

lane_snoc :
    (f : Fingerprint → ℕ) (base : ℕ) (rest : List Fingerprint) (incoming : Fingerprint)
    → lane base 0 (map f rest ++ (f incoming ∷ [])) ≡ lane base 0 (map f (rest ++ (incoming ∷ [])))
lane_snoc f base rest incoming = ap (lane base 0) (map_snoc rest)
  where
    map_snoc :
        (xs : List Fingerprint) → map f xs ++ (f incoming ∷ []) ≡ map f (xs ++ (incoming ∷ []))
    map_snoc [] = refl
    map_snoc (x ∷ xs) = ap (λ ys. f x ∷ ys) (map_snoc xs)

length-map : (f : Fingerprint → ℕ) (xs : List Fingerprint) → length (map f xs) ≡ length xs
length-map f [] = refl
length-map f (x ∷ xs) = ap suc (length-map f xs)

abbrev both : ℕ → ℕ → Fingerprint
both a b = record { first = a; second = b }

rolled_lane :
    (f : Fingerprint → ℕ) (base : ℕ) (out incoming : Fingerprint) (rest : List Fingerprint)
    → roll_lane base
        (wrapping_pow base (length rest))
        (lane base 0 (map f (out ∷ rest)))
        (f out)
        (f incoming)
      ≡ lane base 0 (map f (rest ++ (incoming ∷ [])))
rolled_lane f base out incoming rest =
    ap (λ (p : ℕ). roll_lane base p (lane base 0 (map f (out ∷ rest))) (f out) (f incoming))
      (wrapping_pow_lem base (length rest)
        ∙ ap (λ (n : ℕ). base ^ n % word) (sym (length-map f rest)))
    ∙ roll_lane_lem base (f out) (f incoming) (map f rest)
    ∙ lane_snoc f base rest incoming

-- One rolling update goes from a window to the next one.
pub roll_lem :
    (out incoming : Fingerprint) (rest : List Fingerprint)
    → roll
        (wrapping_pow window_base_first (length rest))
        (wrapping_pow window_base_second (length rest))
        (append_all zero_fingerprint (out ∷ rest))
        out
        incoming
      ≡ append_all zero_fingerprint (rest ++ (incoming ∷ []))
unfolding roll
roll_lem out incoming rest =
    let p = wrapping_pow window_base_first (length rest) in
    let q = wrapping_pow window_base_second (length rest) in
    ap (λ w. roll p q w out incoming) (append_all_lanes zero_fingerprint (out ∷ rest))
    ∙ ap₂ (λ (a b : ℕ). both a b) (rolled_lane (λ f. f.first) window_base_first out incoming rest)
        (rolled_lane (λ f. f.second) window_base_second out incoming rest)
    ∙ sym (append_all_lanes zero_fingerprint (rest ++ (incoming ∷ [])))

-- Two windows side by side, one token apart.
pub window-next :
    (tokens : List Fingerprint) (size start : ℕ)
    → start + suc size < length tokens
    → (take (suc size) (drop start tokens)
        ≡ fingerprint_at tokens start ∷ take size (drop (start + 1) tokens))
      × (take (suc size) (drop (start + 1) tokens)
          ≡ take size (drop (start + 1) tokens) ++ (fingerprint_at tokens (start + suc size) ∷ []))
window-next tokens size start h =
    let next = start + 1 in
    let there : size < length (drop next tokens) = omega (arith, length-drop next tokens) in
    let e : next + size ≡ start + suc size = omega arith in
    (
      ap (take (suc size)) (drop-cons tokens start zero_fingerprint (omega arith)),
      take-suc (drop next tokens) size zero_fingerprint there
          ∙ ap (λ (f : Fingerprint). take size (drop next tokens) ++ (f ∷ []))
              (get_or-drop tokens next size zero_fingerprint
                ∙ ap (λ (k : ℕ). get_or tokens k zero_fingerprint) e),
    )
