-- ===== src/Dry/Tokens/Match.antt =====
-- `windows_equal` and `extend_match`: what a success says of the tokens.
use reporigor.Dry.Tokens.{
  TokenRecord, TokenPair, value_at, no_token, windows_equal, sequences_equal, slice, same_value,
}
use reporigor.Dry.Limits.{CandidateWork, consume, DryError}
use reporigor.Prelude.{
  ℕ, zero, suc, ◌+◌, ◌≤◌, ◌<◌, ◌≡◌, refl, sym, ap, ◌∙◌, ◌⊎◌, inl, inr, Bool, true, false, none,
  some, List, [], ◌∷◌, arith, leb, if◌then◌else◌, leb→le, Bool-cases, length, text_eq_iff, take,
  drop, length-take, length-drop, get_or-drop, get_or-take, Result, >>=-eq-ok, ok,
}

-- The `size` tokens from `l` on the left are the `size` tokens from `r` on the right.
pub record IsMatch (left right : List TokenRecord) (l r size : ℕ) : Type 0 where
  pub in_left : l + size ≤ length left
  pub in_right : r + size ≤ length right
  pub equal : (k : ℕ) → k < size → value_at left (l + k) ≡ value_at right (r + k)

unequal_ends :
    (same : Bool) (rest : Result DryError (Bool × CandidateWork)) (spent : CandidateWork)
    {w : CandidateWork}
    → (if same then rest else ok (false, spent)) ≡ ok (true, w)
    → (same ≡ true) × (rest ≡ ok (true, w))
unequal_ends true rest spent e = (refl, e)
unequal_ends false rest spent e = cc

sequences_equal_values :
    (left right : List TokenRecord) (work : CandidateWork) {w : CandidateWork}
    → length left ≡ length right
    → sequences_equal same_value left right work ≡ ok (true, w)
    → (k : ℕ) → k < length left
    → value_at left k ≡ value_at right k
unfolding sequences_equal
sequences_equal_values [] right work l e k h = absurd (omega arith)
sequences_equal_values (x ∷ xs) [] work l e k h = absurd (omega arith)
sequences_equal_values (x ∷ xs) (y ∷ ys) work l e zero h =
    let (spent, _, e') = >>=-eq-ok (consume work 1) _ e in
    (text_eq_iff x.value y.value).0
      (unequal_ends (same_value x y) (sequences_equal same_value xs ys spent) spent e').0
sequences_equal_values (x ∷ xs) (y ∷ ys) work l e (suc k) h =
    let (spent, _, e') = >>=-eq-ok (consume work 1) _ e in
    sequences_equal_values xs ys spent (omega arith)
      (unequal_ends (same_value x y) (sequences_equal same_value xs ys spent) spent e').1 k
      (omega arith)

-- A window is there exactly when the stream is long enough.
slice-cases :
    (tokens : List TokenRecord) (start size : ℕ)
    → (slice tokens start size ≡ none)
      ⊎ ((start + size ≤ length tokens)
          × (slice tokens start size ≡ some (take size (drop start tokens))))
slice-cases tokens start size = elim (Bool-cases (leb (start + size) (length tokens))) [
  | inl fits ↦ inr (leb→le _ _ fits, rw fits)
  | inr short ↦ inl (rw short)
]

value_at-window :
    (tokens : List TokenRecord) (start size k : ℕ)
    → k < size
    → value_at (take size (drop start tokens)) k ≡ value_at tokens (start + k)
value_at-window tokens start size k h =
    ap (λ (token : TokenRecord). token.value)
      (get_or-take (drop start tokens) size k no_token h ∙ get_or-drop tokens start k no_token)

length-window :
    (tokens : List TokenRecord) (start size : ℕ)
    → start + size ≤ length tokens
    → length (take size (drop start tokens)) ≡ size
length-window tokens start size h =
    length-take size (drop start tokens) (omega (arith, length-drop start tokens))

pub windows_equal-IsMatch :
    (pair : TokenPair) (size : ℕ) (work : CandidateWork) {w : CandidateWork}
    → windows_equal pair size work ≡ ok (true, w)
    → IsMatch pair.left pair.right pair.left_start pair.right_start size
unfolding windows_equal
windows_equal-IsMatch pair size work {w} e = elim (slice-cases pair.left pair.left_start size) [
  | inl gone ↦ absurd (cc (rw gone at e))
  | inr (fits_left, l) ↦ elim (slice-cases pair.right pair.right_start size) [
    | inl gone ↦ absurd (cc (rw (l, gone) at e))
    | inr (fits_right, r) ↦
        let ll = length-window pair.left pair.left_start size fits_left in
        let lr = length-window pair.right pair.right_start size fits_right in
        record {
          in_left = fits_left;
          in_right = fits_right;
          equal = λ k h.
              sym (value_at-window pair.left pair.left_start size k h)
              ∙ sequences_equal_values _ _ work (ll ∙ sym lr) (rw (l, r) at e) k (omega (arith, ll))
              ∙ value_at-window pair.right pair.right_start size k h;
        }
  ]
]
