-- ===== src/Dry/Tokens.antt =====
-- crates/analysis-dry/src/lib.rs: `TokenPair`, two token streams compared from a pair of positions.
pub mod Scan
pub mod Match
pub mod Extend
pub mod Enough
mod Samples
use reporigor.Dry.Limits.{DryError, CandidateWork, consume}
use reporigor.Prelude.{
  ℕ, zero, suc, ◌+◌, ◌-◌, Bool, true, false, ◌&&◌, Option, none, some, List, [], ◌∷◌, ltb, leb,
  if◌then◌else◌, length, Text, text_eq, take, drop, get_or, Result, ◌>>=◌, ◌>>◌, ok,
}

pub record TokenRecord : Type 0 where
  pub value : Text
  pub line : ℕ
  pub index : ℕ

pub record TokenPair : Type 0 where
  pub left : List TokenRecord
  pub left_start : ℕ
  pub right : List TokenRecord
  pub right_start : ℕ

abbrev pub no_token : TokenRecord
no_token = record { value = []; line = 0; index = 0 }

-- `tokens[at]`; the panic past the end is a token without a value here.
abbrev pub token_at : List TokenRecord → ℕ → TokenRecord
token_at tokens at = get_or tokens at no_token

abbrev pub value_at : List TokenRecord → ℕ → Text
value_at tokens at = (token_at tokens at).value

-- `tokens.get(start..start + size)`
abbrev pub slice {ℓ} : {A : Type ℓ} → List A → ℕ → ℕ → Option (List A)
slice tokens start size =
    if leb (start + size) (length tokens) then some (take size (drop start tokens)) else none

unfoldable pub sequences_equal {ℓ κ} :
    {A : Type ℓ} {B : Type κ}
    → (A → B → Bool)
    → List A
    → List B
    → CandidateWork
    → Result DryError (Bool × CandidateWork)
sequences_equal equal [] right work = ok (true, work)
sequences_equal equal (first ∷ left) [] work = ok (true, work)
sequences_equal equal (first ∷ left) (second ∷ right) work = do
  spent ← consume work 1
  if equal first second then sequences_equal equal left right spent else ok (false, spent)

-- `first.value == second.value`
abbrev pub same_value : TokenRecord → TokenRecord → Bool
same_value first second = text_eq first.value second.value

-- Both windows of `size` tokens, if both streams have one.
abbrev pub both_windows {ℓ κ} :
    {A : Type ℓ} {B : Type κ}
    → (A → B → Bool)
    → Option (List A)
    → Option (List B)
    → CandidateWork
    → Result DryError (Bool × CandidateWork)
both_windows equal none right work = ok (false, work)
both_windows equal (some left) none work = ok (false, work)
both_windows equal (some left) (some right) work = sequences_equal equal left right work

unfoldable pub windows_equal :
    TokenPair → ℕ → CandidateWork → Result DryError (Bool × CandidateWork)
unfolding sequences_equal
windows_equal pair size work =
    both_windows same_value (slice pair.left pair.left_start size)
      (slice pair.right pair.right_start size) work

-- The loop of `matching_before`, which makes `left_start - before` rounds at most.
unfoldable pub scan_before : ℕ → TokenPair → ℕ → CandidateWork → Result DryError (ℕ × CandidateWork)
scan_before zero pair before work = ok (before, work)
scan_before (suc rounds) pair before work =
    if ltb before pair.left_start && ltb before pair.right_start
    then (do
      spent ← consume work 1
      if text_eq (value_at pair.left (pair.left_start - before - 1))
            (value_at pair.right (pair.right_start - before - 1))
          then scan_before rounds pair (before + 1) spent
          else ok (before, spent))
    else ok (before, work)

unfoldable pub matching_before : TokenPair → CandidateWork → Result DryError (ℕ × CandidateWork)
unfolding scan_before
matching_before pair work = scan_before pair.left_start pair 0 work

-- The loop of `matching_after`, which makes at most a round for each token on the left.
unfoldable pub scan_after : ℕ → TokenPair → ℕ → CandidateWork → Result DryError (ℕ × CandidateWork)
scan_after zero pair after work = ok (after, work)
scan_after (suc rounds) pair after work =
    if ltb (pair.left_start + after) (length pair.left)
      && ltb (pair.right_start + after) (length pair.right)
    then (do
      spent ← consume work 1
      if text_eq (value_at pair.left (pair.left_start + after))
            (value_at pair.right (pair.right_start + after))
          then scan_after rounds pair (after + 1) spent
          else ok (after, spent))
    else ok (after, work)

unfoldable pub matching_after : TokenPair → ℕ → CandidateWork → Result DryError (ℕ × CandidateWork)
unfolding scan_after
matching_after pair minimum work = scan_after (length pair.left) pair minimum work

-- The starts of the extended match, and its size.
unfoldable pub extend_match :
    TokenPair → ℕ → CandidateWork → Result DryError ((ℕ × ℕ × ℕ) × CandidateWork)
unfolding matching_before matching_after
extend_match pair minimum work = do
  (before, work1) ← matching_before pair work
  (after, work2) ← matching_after pair minimum work1
  ok ((pair.left_start - before, pair.right_start - before, before + after), work2)
