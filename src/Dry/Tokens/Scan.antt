-- ===== src/Dry/Tokens/Scan.antt =====
-- What the comparing loops of `TokenPair` find.
use reporigor.Dry.Tokens.{
  TokenPair, scan_before, scan_after, value_at, matching_before, matching_after,
}
use reporigor.Dry.Limits.{CandidateWork, DryError, consume}
use reporigor.Prelude.{
  ℕ, zero, suc, ◌+◌, ◌-◌, ◌≤◌, ◌<◌, ◌≡◌, refl, subst, Bool, true, false, ◌&&◌, arith, dec_lt, ltb,
  if◌then◌else◌, length, text_eq, Result, ◌>>=◌, >>=-eq-ok, ok,
}

-- A loop that goes up from `k` while it is inside and the tokens are the same, and ends at `n`.
data Scan (inside same : ℕ → Bool) : ℕ → ℕ → Type 0 where
  ends : {k n : ℕ} → inside k ≡ false → n ≡ k → Scan inside same k n
  differs : {k n : ℕ} → inside k ≡ true → same k ≡ false → n ≡ k → Scan inside same k n
  next :
      {k n : ℕ}
      → inside k ≡ true
      → same k ≡ true
      → Scan inside same (k + 1) n
      → Scan inside same k n

-- Everything from `start` to `n` is inside and the same, and nothing more could be added at `n`.
pub record Reaches (inside same : ℕ → Bool) (start n : ℕ) : Type 0 where
  pub grows : start ≤ n
  pub within : (k : ℕ) → start ≤ k → k < n → inside k ≡ true
  pub equal : (k : ℕ) → start ≤ k → k < n → same k ≡ true
  pub maximal : inside n ≡ true → same n ≡ false

from_here :
    (P : ℕ → Type 0) (k : ℕ) {n : ℕ}
    → P k
    → ((j : ℕ) → k + 1 ≤ j → j < n → P j)
    → (j : ℕ) → k ≤ j
    → j < n
    → P j
from_here P k here rest j le lt = elim (dec_lt k j) [
  | yes above ↦ rest j (omega arith) lt
  | no not_above ↦ let e : k ≡ j = omega arith in subst P e here
]

module _ {inside same : ℕ → Bool} where
  Scan-Reaches : {k n : ℕ} → Scan inside same k n → Reaches inside same k n
  Scan-Reaches {k} (ends out e) = rw e (record {
    grows = omega arith;
    within = λ j le lt. absurd (omega arith);
    equal = λ j le lt. absurd (omega arith);
    maximal = λ at. cc;
  })
  Scan-Reaches {k} (differs at no_match e) = rw e (record {
    grows = omega arith;
    within = λ j le lt. absurd (omega arith);
    equal = λ j le lt. absurd (omega arith);
    maximal = λ _. no_match;
  })
  Scan-Reaches {k} (next at match rest) =
      let r = Scan-Reaches rest in
      record {
        grows = omega (arith, r.grows);
        within = from_here (λ j. inside j ≡ true) k at r.within;
        equal = from_here (λ j. same j ≡ true) k match r.equal;
        maximal = r.maximal;
      }

abbrev pub inside_before : TokenPair → ℕ → Bool
inside_before pair k = ltb k pair.left_start && ltb k pair.right_start

abbrev pub same_before : TokenPair → ℕ → Bool
same_before pair k =
    text_eq (value_at pair.left (pair.left_start - k - 1))
      (value_at pair.right (pair.right_start - k - 1))

abbrev pub inside_after : TokenPair → ℕ → Bool
inside_after pair k =
    ltb (pair.left_start + k) (length pair.left) && ltb (pair.right_start + k) (length pair.right)

abbrev pub same_after : TokenPair → ℕ → Bool
same_after pair k =
    text_eq (value_at pair.left (pair.left_start + k)) (value_at pair.right (pair.right_start + k))

-- One round of either loop, as a value of its tests.
data Round (inside same : Bool) (k n : ℕ) (w : CandidateWork)
    (rest : CandidateWork → Result DryError (ℕ × CandidateWork)) : Type 0 where
  ended : inside ≡ false → n ≡ k → Round inside same k n w rest
  differed : inside ≡ true → same ≡ false → n ≡ k → Round inside same k n w rest
  went_on :
      (spent : CandidateWork)
      → inside ≡ true
      → same ≡ true
      → rest spent ≡ ok (n, w)
      → Round inside same k n w rest

Round-inversion :
    (inside same : Bool) (k : ℕ) (work : CandidateWork)
    (rest : CandidateWork → Result DryError (ℕ × CandidateWork)) {n : ℕ} {w : CandidateWork}
    → (if inside
        then (do spent ← consume work 1; if same then rest spent else ok (k, spent))
        else ok (k, work))
      ≡ ok (n, w)
    → Round inside same k n w rest
Round-inversion false same k work rest e = ended refl (cc)
Round-inversion true same k work rest {n} {w} e =
    let (spent, _, e') = >>=-eq-ok (consume work 1) _ e in after same spent e'
  where
    after :
        (same : Bool) (spent : CandidateWork)
        → (if same then rest spent else ok (k, spent)) ≡ ok (n, w)
        → Round true same k n w rest
    after false spent e' = differed refl refl (cc)
    after true spent e' = went_on spent refl refl e'

scan_before-Scan :
    (rounds : ℕ) (pair : TokenPair) (before : ℕ) (work : CandidateWork) {n : ℕ} {w : CandidateWork}
    → pair.left_start ≤ before + rounds
    → scan_before rounds pair before work ≡ ok (n, w)
    → Scan (inside_before pair) (same_before pair) before n
unfolding scan_before
scan_before-Scan zero pair before work enough e = ends (ground arith) (ground arith)
scan_before-Scan (suc rounds) pair before work enough e =
    elim (Round-inversion (inside_before pair before) (same_before pair before) before work
      (λ spent. scan_before rounds pair (before + 1) spent) e) [
        | ended out h ↦ ends out h
        | differed at no_match h ↦ differs at no_match h
        | went_on spent at match more ↦
            next at match (scan_before-Scan rounds pair (before + 1) spent (omega arith) more)
      ]

scan_after-Scan :
    (rounds : ℕ) (pair : TokenPair) (after : ℕ) (work : CandidateWork) {n : ℕ} {w : CandidateWork}
    → length pair.left ≤ after + rounds
    → scan_after rounds pair after work ≡ ok (n, w)
    → Scan (inside_after pair) (same_after pair) after n
unfolding scan_after
scan_after-Scan zero pair after work enough e = ends (ground arith) (ground arith)
scan_after-Scan (suc rounds) pair after work enough e =
    elim (Round-inversion (inside_after pair after) (same_after pair after) after work
      (λ spent. scan_after rounds pair (after + 1) spent) e) [
        | ended out h ↦ ends out h
        | differed at no_match h ↦ differs at no_match h
        | went_on spent at match more ↦
            next at match (scan_after-Scan rounds pair (after + 1) spent (omega arith) more)
      ]

pub matching_before-Reaches :
    (pair : TokenPair) (work : CandidateWork) {n : ℕ} {w : CandidateWork}
    → matching_before pair work ≡ ok (n, w)
    → Reaches (inside_before pair) (same_before pair) 0 n
unfolding matching_before
matching_before-Reaches pair work e =
    Scan-Reaches (scan_before-Scan pair.left_start pair 0 work (omega arith) e)

pub matching_after-Reaches :
    (pair : TokenPair) (minimum : ℕ) (work : CandidateWork) {n : ℕ} {w : CandidateWork}
    → matching_after pair minimum work ≡ ok (n, w)
    → Reaches (inside_after pair) (same_after pair) minimum n
unfolding matching_after
matching_after-Reaches pair minimum work e =
    Scan-Reaches (scan_after-Scan (length pair.left) pair minimum work (omega arith) e)
