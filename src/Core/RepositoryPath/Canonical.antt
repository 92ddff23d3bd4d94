-- ===== src/Core/RepositoryPath/Canonical.antt =====
-- What an accepted path looks like, and what normalising it again does.
use reporigor.Core.RepositoryPath.Split.{IsUnsplit, split-cons}
use reporigor.Core.RepositoryPath.{
  replace_separators, join, is_empty, split, push_components, is_current, is_parent,
  starts_with_slash,
}
use reporigor.Prelude.{
  ℕ, ◌≡◌, refl, ◌≢◌, ◌⊎◌, inl, inr, false, ◌||◌, List, [], ◌∷◌, ◌++◌, arith, ◌==◌, Bool-cases, All,
  Text, Result-cases, ok,
}

abbrev IsPlainByte : ℕ → Type 0
IsPlainByte byte = (byte ≢ b'/') × (byte ≢ b'\\')

-- A component that a canonical path may hold.
pub record IsComponent (component : Text) : Type 0 where
  pub bytes : All IsPlainByte component
  pub not_empty : is_empty component ≡ false
  pub not_current : is_current component ≡ false
  pub not_parent : is_parent component ≡ false

-- One or more components, joined by single separators.
pub record IsCanonical (path : Text) : Type 0 where
  pub first : Text
  pub rest : List Text
  pub components : All IsComponent (first ∷ rest)
  pub joined : path ≡ join (first ∷ rest)

abbrev pub IsNotBackslash : ℕ → Type 0
IsNotBackslash byte = byte ≢ b'\\'

pub replace_separators-clean : (path : Text) → All IsNotBackslash (replace_separators path)
replace_separators-clean [] = tt
replace_separators-clean (byte ∷ path) = (ground arith, replace_separators-clean path)

pub replace_separators_clean :
    (path : Text) → All IsNotBackslash path → replace_separators path ≡ path
replace_separators_clean [] h = refl
replace_separators_clean (byte ∷ path) h = ground (arith, h.0, replace_separators_clean path h.1)

pub split-clean : (text : Text) → All IsNotBackslash text → All (All IsNotBackslash) (split text)
unfolding split
split-clean [] h = (tt, tt)
split-clean (byte ∷ rest) h =
    let (piece, pieces, e) = split-cons rest in
    let ih : All (All IsNotBackslash) (piece ∷ pieces) = rw e at (split-clean rest h.1) in
    elim (Bool-cases (byte == b'/')) [
      | inl slash ↦ rw slash (tt, split-clean rest h.1)
      | inr plain ↦ rw (plain, e) ((h.0, ih.0), ih.1)
    ]

all_plain : (piece : Text) → IsUnsplit piece → All IsNotBackslash piece → All IsPlainByte piece
all_plain [] u c = tt
all_plain (byte ∷ piece) u c = ((u.0, c.0), all_plain piece u.1 c.1)

plain-IsUnsplit : (piece : Text) → All IsPlainByte piece → IsUnsplit piece
plain-IsUnsplit [] h = tt
plain-IsUnsplit (byte ∷ piece) h = (h.0.0, plain-IsUnsplit piece h.1)

plain_clean : (piece : Text) → All IsPlainByte piece → All IsNotBackslash piece
plain_clean [] h = tt
plain_clean (byte ∷ piece) h = (h.0.1, plain_clean piece h.1)

-- One round of the loop: the piece is passed over, or it is kept as it is.
push_components_step :
    (original piece : Text) (pieces cs : List Text)
    → push_components original (piece ∷ pieces) ≡ ok cs
    → (push_components original pieces ≡ ok cs)
      ⊎ ((more : List Text) × (cs ≡ piece ∷ more)
          × (push_components original pieces ≡ ok more)
          × (is_empty piece ≡ false)
          × (is_current piece ≡ false)
          × (is_parent piece ≡ false))
unfolding push_components
push_components_step original piece pieces cs h =
    elim (Result-cases (push_components original pieces)) [
      | inl (more, e) ↦ elim (Bool-cases (is_empty piece || is_current piece)) [
        | inl skip ↦ inl (ground arith)
        | inr kept ↦ inr (more, ground arith, e, ground arith, ground arith, ground arith)
      ]
      | inr (x, e) ↦ absurd (ground arith)
    ]

-- The loop keeps components only.
pub push-components :
    (original : Text) (pieces : List Text) (cs : List Text)
    → All IsUnsplit pieces
    → All (All IsNotBackslash) pieces
    → push_components original pieces ≡ ok cs
    → All IsComponent cs
push-components original [] cs u c h = unfold push_components in ground arith
push-components original (piece ∷ pieces) cs u c h =
    elim (push_components_step original piece pieces cs h) [
      | inl skipped ↦ push-components original pieces cs u.1 c.1 skipped
      | inr (more, e, kept, full, here, up) ↦ rw e (
        record {
          bytes = all_plain piece u.0 c.0;
          not_empty = full;
          not_current = here;
          not_parent = up;
        },
        push-components original pieces more u.1 c.1 kept,
      )
    ]

-- It keeps every component.
pub push_components-all :
    (original : Text) (cs : List Text) → All IsComponent cs → push_components original cs ≡ ok cs
unfolding push_components
push_components-all original [] h = refl
push_components-all original (c ∷ cs) h =
    rw (h.0.not_empty, h.0.not_current, h.0.not_parent, push_components-all original cs h.1)

pub components-IsUnsplit : (cs : List Text) → All IsComponent cs → All IsUnsplit cs
components-IsUnsplit [] h = tt
components-IsUnsplit (c ∷ cs) h = (plain-IsUnsplit c h.0.bytes, components-IsUnsplit cs h.1)

clean-append :
    (left right : Text)
    → All IsNotBackslash left
    → All IsNotBackslash right
    → All IsNotBackslash (left ++ right)
clean-append [] right h k = k
clean-append (byte ∷ left) right h k = (h.0, clean-append left right h.1 k)

pub join-clean : (cs : List Text) → All IsComponent cs → All IsNotBackslash (join cs)
unfolding join
join-clean [] h = tt
join-clean (c ∷ []) h = plain_clean c h.0.bytes
join-clean (c ∷ d ∷ cs) h =
    clean-append c (b'/' ∷ join (d ∷ cs)) (plain_clean c h.0.bytes)
      (omega arith, join-clean (d ∷ cs) h.1)

pub join-starts :
    (first : Text) (rest : List Text)
    → IsComponent first
    → (is_empty (join (first ∷ rest)) ≡ false) × (starts_with_slash (join (first ∷ rest)) ≡ false)
unfolding join
join-starts [] rest h = cc (h.not_empty)
join-starts (byte ∷ first) [] h = (refl, ground (arith, h.bytes.0.0))
join-starts (byte ∷ first) (next ∷ rest) h = (refl, ground (arith, h.bytes.0.0))
