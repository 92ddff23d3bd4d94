-- ===== src/Dry/Tokens/Extend.antt =====
-- `extend_match`: the extended match is one, and cannot be extended further.
use reporigor.Dry.Tokens.{
  TokenPair, value_at, extend_match, CandidateWork, windows_equal, matching_before, matching_after,
}
use reporigor.Dry.Tokens.Match.{IsMatch, windows_equal-IsMatch}
use reporigor.Dry.Tokens.Scan.{
  Reaches, inside_before, same_before, inside_after, same_after, matching_before-Reaches,
  matching_after-Reaches,
}
use reporigor.Prelude.{
  ℕ, ◌+◌, ◌-◌, ◌≤◌, ◌<◌, ◌≡◌, sym, ap, ◌∙◌, ◌≢◌, true, false, arith, dec_lt, length, Text, text_eq,
  text_eq_iff, >>=-eq-ok, ok,
}

-- The match around the window of `minimum` tokens, which no further token extends.
pub record IsMaximalMatch (pair : TokenPair) (minimum l r size : ℕ) : Type 0 where
  pub match : IsMatch pair.left pair.right l r size
  pub starts : l ≤ pair.left_start
  pub diagonal : l + pair.right_start ≡ r + pair.left_start
  pub covers : pair.left_start + minimum ≤ l + size
  pub front : 0 < l → 0 < r → value_at pair.left (l - 1) ≢ value_at pair.right (r - 1)
  pub back :
      l + size < length pair.left
      → r + size < length pair.right
      → value_at pair.left (l + size) ≢ value_at pair.right (r + size)

-- The three parts of an extended match.
module _ (pair : TokenPair) (minimum : ℕ)
    (window : IsMatch pair.left pair.right pair.left_start pair.right_start minimum)
    (before after : ℕ) (front : Reaches (inside_before pair) (same_before pair) 0 before)
    (back : Reaches (inside_after pair) (same_after pair) minimum after) where
  abbrev AtOffset : ℕ → Type 0
  AtOffset k =
      value_at pair.left (pair.left_start - before + k)
      ≡ value_at pair.right (pair.right_start - before + k)

  front_inside : (before ≤ pair.left_start) × (before ≤ pair.right_start)
  front_inside = ground (arith, front.within (before - 1))

  back_inside :
      (pair.left_start + after ≤ length pair.left) × (pair.right_start + after ≤ length pair.right)
  back_inside = ground (arith, back.within (after - 1), window.in_left, window.in_right, back.grows)

  -- To read the tokens at equal positions that are spelled differently.
  at_equal :
      (l l' r r' : ℕ)
      → l ≡ l'
      → r ≡ r'
      → value_at pair.left l' ≡ value_at pair.right r'
      → value_at pair.left l ≡ value_at pair.right r
  at_equal l l' r r' p q e =
      ap (λ (k : ℕ). value_at pair.left k) p ∙ e ∙ ap (λ (k : ℕ). value_at pair.right k) (sym q)

  at_front : (k : ℕ) → k < before → AtOffset k
  at_front k h =
      let (bl, br) = front_inside in
      let j = before - k - 1 in
      at_equal _ (pair.left_start - j - 1) _ (pair.right_start - j - 1) (omega arith) (omega arith)
        ((text_eq_iff _ _).0 (front.equal j (omega arith) (omega arith)))

  at_window : (k : ℕ) → before ≤ k → k < before + minimum → AtOffset k
  at_window k le lt =
      let (bl, br) = front_inside in
      at_equal _ (pair.left_start + (k - before)) _ (pair.right_start + (k - before)) (omega arith)
        (omega arith) (window.equal (k - before) (omega arith))

  at_back : (k : ℕ) → before + minimum ≤ k → k < before + after → AtOffset k
  at_back k le lt =
      let (bl, br) = front_inside in
      at_equal _ (pair.left_start + (k - before)) _ (pair.right_start + (k - before)) (omega arith)
        (omega arith) ((text_eq_iff _ _).0 (back.equal (k - before) (omega arith) (omega arith)))

  at_every : (k : ℕ) → k < before + after → AtOffset k
  at_every k h = elim (dec_lt k before) [
    | yes first ↦ at_front k first
    | no not_first ↦ elim (dec_lt k (before + minimum)) [
      | yes middle ↦ at_window k (omega arith) middle
      | no last ↦ at_back k (omega arith) h
    ]
  ]

  differ : (a b : Text) → text_eq a b ≡ false → a ≢ b
  differ a b h e = cc (h, (text_eq_iff a b).1 e)

  region-IsMaximalMatch :
      IsMaximalMatch pair minimum
        (pair.left_start - before)
        (pair.right_start - before)
        (before + after)
  region-IsMaximalMatch =
      let (bl, br) = front_inside in
      let (al, ar) = back_inside in
      let grows = back.grows in
      record {
        match = record { in_left = omega arith; in_right = omega arith; equal = at_every };
        starts = omega arith;
        diagonal = omega arith;
        covers = omega arith;
        front = λ l r. differ _ _ (front.maximal (ground arith));
        back = λ l r e.
            differ _ _ (back.maximal (ground arith))
              (at_equal _ _ _ _ (omega arith) (omega arith) e);
      }

-- If the windows of `minimum` tokens are equal, the extended region is a match of all its tokens
-- around them, on the same diagonal, and the tokens before it and after it differ or a stream ends.
pub extend_match-IsMaximalMatch :
    (pair : TokenPair) (minimum : ℕ) (work work' : CandidateWork) {compared : CandidateWork}
    {l r size : ℕ} {out : CandidateWork}
    → windows_equal pair minimum work ≡ ok (true, compared)
    → extend_match pair minimum work' ≡ ok ((l, r, size), out)
    → IsMaximalMatch pair minimum l r size
unfolding extend_match
extend_match-IsMaximalMatch pair minimum work work' {l = l} {r} {size} {out} same e =
    let ((before, work1), first, e1) = >>=-eq-ok (matching_before pair work') _ e in
    let ((after, work2), second, e2) = >>=-eq-ok (matching_after pair minimum work1) _ e1 in
    let made =
      region-IsMaximalMatch pair minimum (windows_equal-IsMatch pair minimum work same) before after
        (matching_before-Reaches pair work' first)
        (matching_after-Reaches pair minimum work1 second) in
    let el : pair.left_start - before ≡ l = cc (e2) in
    let er : pair.right_start - before ≡ r = cc (e2) in
    let es : before + after ≡ size = cc (e2) in rw (← el, ← er, ← es) made
