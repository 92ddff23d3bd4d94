-- ===== src/Core/StableId/Framing.antt =====
-- The length prefixes make the hashed text unambiguous.
use mathlib.Core.List.{append_assoc}
use reporigor.Core.StableId.{to_be_bytes, frame, hash_input, length_u64}
use reporigor.Prelude.{
  ℕ, zero, suc, ◌≤◌, ◌≡◌, ap, [], ◌∷◌, ◌++◌, arith, u64_max, length, All, Text, append_injective,
}

-- A text that a program can hold: Rust bounds every allocation below this.
abbrev pub IsAllocatable : Text → Type 0
IsAllocatable text = length text ≤ u64_max

abbrev nth : ℕ → Text → ℕ
nth i [] = 0
nth zero (byte ∷ text) = byte
nth (suc i) (byte ∷ text) = nth i text

abbrev after_eight : Text → Text
after_eight (_ ∷ _ ∷ _ ∷ _ ∷ _ ∷ _ ∷ _ ∷ _ ∷ text) = text
after_eight text = text

to_be_bytes_injective :
    (m n : ℕ)
    → m ≤ u64_max
    → n ≤ u64_max
    → (r s : Text) → to_be_bytes m ++ r ≡ to_be_bytes n ++ s
    → (m ≡ n) × (r ≡ s)
unfolding to_be_bytes
to_be_bytes_injective m n hm hn r s e =
    let byte : (i : ℕ) → nth i (to_be_bytes m ++ r) ≡ nth i (to_be_bytes n ++ s) =
      λ i. ap (nth i) e in
    (
      omega (arith, byte 0, byte 1, byte 2, byte 3, byte 4, byte 5, byte 6, byte 7),
      ap (λ (text : Text). after_eight text) e,
    )

frame_injective :
    (a b r s : Text)
    → IsAllocatable a
    → IsAllocatable b
    → frame a ++ r ≡ frame b ++ s
    → (a ≡ b) × (r ≡ s)
unfolding frame
frame_injective a b r s ha hb e =
    let (l, tails) =
      to_be_bytes_injective (length_u64 a) (length_u64 b) (ground arith) (ground arith) (a ++ r)
        (b ++ s) (rw (append_assoc, append_assoc) at e) in
    append_injective a b r s (ground arith) tails

-- Two hashed texts are equal only if all four components are, whatever bytes they hold.
pub hash_input_injective :
    (rule path symbol evidence rule' path' symbol' evidence' : Text)
    → All IsAllocatable (rule ∷ path ∷ symbol ∷ evidence ∷ [])
    → All IsAllocatable (rule' ∷ path' ∷ symbol' ∷ evidence' ∷ [])
    → hash_input rule path symbol evidence ≡ hash_input rule' path' symbol' evidence'
    → (rule ≡ rule') × (path ≡ path') × (symbol ≡ symbol') × (evidence ≡ evidence')
unfolding hash_input
hash_input_injective r p s v r' p' s' v' h h' e =
    let (er, e1) = frame_injective r r' _ _ h.0 h'.0 e in
    let (ep, e2) = frame_injective p p' _ _ h.1.0 h'.1.0 e1 in
    let (es, e3) = frame_injective s s' _ _ h.1.1.0 h'.1.1.0 e2 in
    let (ev, _) = frame_injective v v' _ _ h.1.1.1.0 h'.1.1.1.0 e3 in (er, ep, es, ev)
