-- ===== src/Core/StableId/Identity.antt =====
-- The identifier's alphabet, and what two equal identifiers say.
use mathlib.Core.Path.{ap₂}
use reporigor.Core.StableId.Framing.{IsAllocatable, hash_input_injective}
use reporigor.Core.RepositoryPath.{is_lowercase_sha256, is_lowercase_hex}
use reporigor.Core.StableId.{hex, stable_id, hash_input, stable_path, hex_digit}
use reporigor.Prelude.{
  ℕ, ◌*◌, ◌/◌, ◌%◌, ◌<◌, ◌≡◌, refl, ap₂, ◌≢◌, ◌⊎◌, inl, inr, true, [], ◌∷◌, arith, length, all, All,
  Text, text_discrete,
}

abbrev IsByte : ℕ → Type 0
IsByte byte = byte < 256

-- What `sha2` documents of its output: 32 bytes.
pub record IsDigest (digest : Text) : Type 0 where
  pub bytes : All IsByte digest
  pub size : length digest ≡ 32

hex_digit_injective : (c d : ℕ) → c < 16 → d < 16 → hex_digit c ≡ hex_digit d → c ≡ d
hex_digit_injective c d hc hd e = ground arith

hex_injective : (a b : Text) → All IsByte a → All IsByte b → hex a ≡ hex b → a ≡ b
unfolding hex
hex_injective [] [] ha hb e = refl
hex_injective [] (y ∷ b) ha hb e = cc
hex_injective (x ∷ a) [] ha hb e = cc
hex_injective (x ∷ a) (y ∷ b) ha hb e =
    let high : x / 16 ≡ y / 16 =
      hex_digit_injective (x / 16) (y / 16) (omega (arith, ha.0)) (omega (arith, hb.0))
        (ground (arith, e)) in
    let low : x % 16 ≡ y % 16 =
      hex_digit_injective (x % 16) (y % 16) (omega arith) (omega arith) (ground (arith, e)) in
    let rest : a ≡ b = hex_injective a b ha.1 hb.1 (ground (arith, e)) in
    ap₂ (λ (byte : ℕ) (text : Text). byte ∷ text) (omega (arith, high, low)) rest

length-hex : (a : Text) → length (hex a) ≡ 2 * length a
unfolding hex
length-hex [] = refl
length-hex (x ∷ a) = omega (arith, length-hex a)

hex_lowercase : (a : Text) → All IsByte a → all is_lowercase_hex (hex a) ≡ true
unfolding hex
hex_lowercase [] h = refl
hex_lowercase (x ∷ a) h = ground (arith, hex_lowercase a h.1)

-- Every identifier passes the program's own test for a digest.
pub stable_id-is_lowercase_sha256 :
    (sha256 : Text → Text)
    → ((input : Text) → IsDigest (sha256 input))
    → (rule path symbol evidence : Text)
    → is_lowercase_sha256 (stable_id sha256 rule path symbol evidence) ≡ true
unfolding stable_id is_lowercase_sha256
stable_id-is_lowercase_sha256 sha256 d r p s v =
    let digest = d (hash_input r (stable_path p) s v) in
    ground (
      arith,
      digest.size,
      length-hex (sha256 (hash_input r (stable_path p) s v)),
      hex_lowercase (sha256 (hash_input r (stable_path p) s v)) digest.bytes,
    )

-- Two texts that collide under the hash function.
pub record Collides (sha256 : Text → Text) (left right : Text) : Type 0 where
  pub differ : left ≢ right
  pub agree : sha256 left ≡ sha256 right

-- Where SHA-256 answers 32 bytes, and for texts that a program can hold: if two findings have one
-- identifier, they agree in rule, canonical path, symbol and evidence, or their own two framed texts
-- differ and have one digest.
pub stable_id_distinct :
    (sha256 : Text → Text)
    → ((input : Text) → IsDigest (sha256 input))
    → (rule path symbol evidence rule' path' symbol' evidence' : Text)
    → All IsAllocatable (rule ∷ stable_path path ∷ symbol ∷ evidence ∷ [])
    → All IsAllocatable (rule' ∷ stable_path path' ∷ symbol' ∷ evidence' ∷ [])
    → stable_id sha256 rule path symbol evidence ≡ stable_id sha256 rule' path' symbol' evidence'
    → ((rule ≡ rule')
        × (stable_path path ≡ stable_path path')
        × (symbol ≡ symbol')
        × (evidence ≡ evidence'))
      ⊎ Collides sha256
          (hash_input rule (stable_path path) symbol evidence)
          (hash_input rule' (stable_path path') symbol' evidence')
unfolding stable_id
stable_id_distinct sha256 d r p s v r' p' s' v' h h' e =
    let input = hash_input r (stable_path p) s v in
    let input' = hash_input r' (stable_path p') s' v' in
    let agree : sha256 input ≡ sha256 input' =
      hex_injective (sha256 input) (sha256 input') (d input).bytes (d input').bytes e in
    elim (text_discrete input input') [
      | yes equal ↦
          inl (hash_input_injective r (stable_path p) s v r' (stable_path p') s' v' h h' equal)
      | no differ ↦ inr (record { differ = differ; agree = agree })
    ]
