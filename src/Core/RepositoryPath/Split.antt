-- ===== src/Core/RepositoryPath/Split.antt =====
-- `str::split('/')` and `[_]::join("/")`, inverse to one another.
use reporigor.Prelude.{
  ℕ, ◌≡◌, refl, ap, ◌≢◌, inl, inr, List, [], ◌∷◌, ◌++◌, arith, ◌==◌, if◌then◌else◌, Bool-cases, All,
  Text,
}

abbrev IsNotSlash : ℕ → Type 0
IsNotSlash byte = byte ≢ b'/'

-- A component has no separator in it.
abbrev pub IsUnsplit : Text → Type 0
IsUnsplit = All IsNotSlash

-- Put a byte in front of the first piece.
abbrev onto_first : ℕ → List Text → List Text
onto_first byte [] = (byte ∷ []) ∷ []
onto_first byte (piece ∷ pieces) = (byte ∷ piece) ∷ pieces

unfoldable pub split : Text → List Text
split [] = [] ∷ []
split (byte ∷ rest) =
    let pieces = split rest in if byte == b'/' then [] ∷ pieces else onto_first byte pieces

unfoldable pub join : List Text → Text
join [] = []
join (piece ∷ []) = piece
join (piece ∷ next ∷ pieces) = piece ++ b'/' ∷ join (next ∷ pieces)

-- `split` gives at least one piece.
pub split-cons :
    (text : Text) → (piece : Text) × (pieces : List Text) × (split text ≡ piece ∷ pieces)
unfolding split
split-cons [] = ([], [], refl)
split-cons (byte ∷ rest) =
    let (piece, pieces, e) = split-cons rest in
    elim (Bool-cases (byte == b'/')) [
      | inl slash ↦ ([], split rest, rw slash)
      | inr plain ↦ (byte ∷ piece, pieces, rw (plain, e))
    ]

-- Every piece is free of separators.
pub split-IsUnsplit : (text : Text) → All IsUnsplit (split text)
unfolding split
split-IsUnsplit [] = (tt, tt)
split-IsUnsplit (byte ∷ rest) =
    let (piece, pieces, e) = split-cons rest in
    let ih : All IsUnsplit (piece ∷ pieces) = rw e at (split-IsUnsplit rest) in
    elim (Bool-cases (byte == b'/')) [
      | inl slash ↦ rw slash (tt, split-IsUnsplit rest)
      | inr plain ↦ rw (plain, e) ((ground arith, ih.0), ih.1)
    ]

-- One separator after a plain piece ends that piece.
split-append :
    (piece rest : Text) → IsUnsplit piece → split (piece ++ b'/' ∷ rest) ≡ piece ∷ split rest
unfolding split
split-append [] rest u = refl
split-append (byte ∷ piece) rest u = rw (split-append piece rest u.1) (ground (arith, u.0))

split_plain : (piece : Text) → IsUnsplit piece → split piece ≡ piece ∷ []
unfolding split
split_plain [] u = refl
split_plain (byte ∷ piece) u = rw (split_plain piece u.1) (ground (arith, u.0))

-- Splitting what was joined gives the pieces back.
pub split-join :
    (piece : Text) (pieces : List Text)
    → All IsUnsplit (piece ∷ pieces)
    → split (join (piece ∷ pieces)) ≡ piece ∷ pieces
unfolding join
split-join piece [] u = split_plain piece u.0
split-join piece (next ∷ pieces) u =
    rw (split-append piece (join (next ∷ pieces)) u.0)
      (ap (λ ps. piece ∷ ps) (split-join next pieces u.1))
