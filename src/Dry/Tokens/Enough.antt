-- ===== src/Dry/Tokens/Enough.antt =====
-- What the comparing loops of `TokenPair` cost, and the limit that is enough for them.
use reporigor.Dry.Tokens.{TokenPair, scan_before, scan_after, extend_match}
use reporigor.Dry.Tokens.Scan.{inside_before, same_before, inside_after, same_after}
use reporigor.Dry.Limits.{CandidateWork, DryError, consume}
use reporigor.Prelude.{
  ℕ, zero, suc, ◌+◌, ◌-◌, ◌≤◌, ◌<◌, min, ◌≡◌, refl, ◌∙◌, inl, inr, Bool, true, false, ◌&&◌, arith,
  ltb, if◌then◌else◌, Bool-cases, u64_max, length, Result, ◌>>=◌, ok,
}

abbrev pub one_if : Bool → ℕ
one_if b = if b then 1 else 0

abbrev charged : CandidateWork → CandidateWork
charged work = record work { used = work.used + 1 }

consume-charges :
    (work : CandidateWork)
    → work.used + 1 ≤ work.limit
    → work.limit < u64_max
    → consume work 1 ≡ ok (charged work)
unfolding consume
consume-charges work room small = ground arith

-- A loop that went up from `k`: one comparison for each step, and one more where it stopped inside.
record Costs (inside : ℕ → Bool) (k : ℕ) (work : CandidateWork)
    (result : Result DryError (ℕ × CandidateWork)) : Type 0 where
  value : ℕ
  spent : CandidateWork
  returned : result ≡ ok (value, spent)
  grows : k ≤ value
  cost : spent.used + k ≡ work.used + value + one_if (inside value)
  bounded :
      (most : ℕ)
      → ((j : ℕ) → inside j ≡ true → j < most)
      → k ≤ most
      → value + one_if (inside value) ≤ most
  same_limit : spent.limit ≡ work.limit

-- One round, if the rounds after it succeed.
module _ (inside : ℕ → Bool) (k : ℕ) (work : CandidateWork) (small : work.limit < u64_max)
    (rest : CandidateWork → Result DryError (ℕ × CandidateWork)) where
  ended-Costs : inside k ≡ false → Costs inside k work (ok (k, work))
  ended-Costs out = record {
    value = k;
    spent = work;
    returned = refl;
    grows = omega arith;
    cost = rw out (omega arith);
    bounded = λ most below start. rw out (omega arith);
    same_limit = refl;
  }

  went-Costs :
      (same : Bool)
      → inside k ≡ true
      → work.used + 1 ≤ work.limit
      → Costs inside (k + 1) (charged work) (rest (charged work))
      → Costs inside k work (do spent ← consume work 1; if same then rest spent else ok (k, spent))
  went-Costs false at room next = rw (consume-charges work room small) (record {
    value = k;
    spent = charged work;
    returned = refl;
    grows = omega arith;
    cost = rw at (omega arith);
    bounded = λ most below start. rw at (omega (arith, below k at));
    same_limit = refl;
  })
  went-Costs true at room next = rw (consume-charges work room small) (record {
    value = next.value;
    spent = next.spent;
    returned = next.returned;
    grows = omega (arith, next.grows);
    cost = omega (arith, next.cost);
    bounded = λ most below start. next.bounded most below (omega (arith, below k at));
    same_limit = next.same_limit;
  })

  round-Costs :
      (same : Bool)
      → (inside k ≡ true → work.used + 1 ≤ work.limit)
      → (inside k ≡ true → Costs inside (k + 1) (charged work) (rest (charged work)))
      → Costs inside k work (
          if inside k
          then (do spent ← consume work 1; if same then rest spent else ok (k, spent))
          else ok (k, work))
  round-Costs same room next = elim (Bool-cases (inside k)) [
    | inl at ↦ rw at (went-Costs same at (room at) (next at))
    | inr out ↦ rw out (ended-Costs out)
  ]

-- The tokens that both streams have before and after the windows.
abbrev pub tokens_before : TokenPair → ℕ
tokens_before pair = min pair.left_start pair.right_start

abbrev pub tokens_after : TokenPair → ℕ
tokens_after pair = min (length pair.left - pair.left_start) (length pair.right - pair.right_start)

inside_before-lt : (pair : TokenPair) (k : ℕ) → inside_before pair k ≡ true → k < tokens_before pair
inside_before-lt pair k h = ground arith

inside_after-lt : (pair : TokenPair) (k : ℕ) → inside_after pair k ≡ true → k < tokens_after pair
inside_after-lt pair k h = ground arith

scan_before-Costs :
    (rounds : ℕ) (pair : TokenPair) (k : ℕ) (work : CandidateWork)
    → pair.left_start ≤ k + rounds
    → work.used + (tokens_before pair - k) ≤ work.limit
    → work.limit < u64_max
    → Costs (inside_before pair) k work (scan_before rounds pair k work)
unfolding scan_before
scan_before-Costs zero pair k work enough room small =
    ended-Costs (inside_before pair) k work small (λ w. ok (k, w)) (ground arith)
scan_before-Costs (suc rounds) pair k work enough room small =
    round-Costs (inside_before pair) k work small (λ spent. scan_before rounds pair (k + 1) spent)
      (same_before pair k) (λ at. omega (arith, inside_before-lt pair k at))
      (λ at.
        scan_before-Costs rounds pair (k + 1) (charged work) (omega arith)
          (omega (arith, inside_before-lt pair k at)) small)

scan_after-Costs :
    (rounds : ℕ) (pair : TokenPair) (k : ℕ) (work : CandidateWork)
    → length pair.left ≤ k + rounds
    → work.used + (tokens_after pair - k) ≤ work.limit
    → work.limit < u64_max
    → Costs (inside_after pair) k work (scan_after rounds pair k work)
unfolding scan_after
scan_after-Costs zero pair k work enough room small =
    ended-Costs (inside_after pair) k work small (λ w. ok (k, w)) (ground arith)
scan_after-Costs (suc rounds) pair k work enough room small =
    round-Costs (inside_after pair) k work small (λ spent. scan_after rounds pair (k + 1) spent)
      (same_after pair k) (λ at. omega (arith, inside_after-lt pair k at))
      (λ at.
        scan_after-Costs rounds pair (k + 1) (charged work) (omega arith)
          (omega (arith, inside_after-lt pair k at)) small)

-- The ends of the extended match are where the loops stopped.
before_end : (v l r : ℕ) → (ltb 0 (l - v) && ltb 0 (r - v)) ≡ (ltb v l && ltb v r)
before_end v l r = ground arith

after_end :
    (v after l r m n : ℕ)
    → v ≤ l
    → v ≤ r
    → (ltb (l - v + (v + after)) m && ltb (r - v + (v + after)) n)
      ≡ (ltb (l + after) m && ltb (r + after) n)
after_end v after l r m n hl hr =
    let left : l - v + (v + after) ≡ l + after = omega arith in
    let right : r - v + (v + after) ≡ r + after = omega arith in rw (left, right) refl

-- An extension that succeeds, from windows of `minimum` tokens, and what it has used: a comparison
-- for each token that was added to the windows, and one for each end where both streams go on.
pub record Extends (pair : TokenPair) (minimum : ℕ) (work : CandidateWork) : Type 0 where
  pub left : ℕ
  pub right : ℕ
  pub size : ℕ
  pub spent : CandidateWork
  pub returned : extend_match pair minimum work ≡ ok ((left, right, size), spent)
  pub cost :
      spent.used + minimum
      ≡ work.used
        + size
        + (one_if (ltb 0 left && ltb 0 right)
            + one_if
                (ltb (left + size) (length pair.left) && ltb (right + size) (length pair.right)))
  pub same_limit : spent.limit ≡ work.limit

-- With a limit below the largest `usize` that has room for the tokens that both streams have before
-- and after the windows, the extension succeeds, and uses exactly one comparison for each token that
-- it adds to the windows and one for each end at which both streams go on.
pub extend_match-Extends :
    (pair : TokenPair) (minimum : ℕ) (work : CandidateWork)
    → work.used + (tokens_before pair + (tokens_after pair - minimum)) ≤ work.limit
    → work.limit < u64_max
    → Extends pair minimum work
unfolding extend_match
extend_match-Extends pair minimum work room small =
    let first = scan_before-Costs pair.left_start pair 0 work (omega arith) (omega arith) small in
    let v = first.value in
    let most = first.bounded (tokens_before pair) (inside_before-lt pair) (omega arith) in
    let second =
      scan_after-Costs (length pair.left) pair minimum first.spent (omega arith)
        (omega (arith, first.cost, first.same_limit, most)) (omega (arith, first.same_limit)) in
    let low = before_end v pair.left_start pair.right_start in
    let high =
      after_end v second.value pair.left_start pair.right_start (length pair.left)
        (length pair.right) (omega (arith, most)) (omega (arith, most)) in
    record {
      left = pair.left_start - v;
      right = pair.right_start - v;
      size = v + second.value;
      spent = second.spent;
      returned = rw (first.returned, second.returned) refl;
      cost = rw (low, high) (omega (arith, first.cost, second.cost));
      same_limit = second.same_limit ∙ first.same_limit;
    }
