-- ===== src/Dry/Candidates/Steps.antt =====
-- The ways in which `process_pair` succeeds.
use reporigor.Dry.Candidates.{
  CandidateBuilder, Occurrence, token_pair, insert_region, process_pair, extend_region,
  diagonal_key, already_extended, regions_of, Diagonal,
}
use reporigor.Dry.Limits.{CandidateWork, DryError, consume}
use reporigor.Dry.Tokens.{windows_equal, extend_match}
use reporigor.Dry.Regions.{remember_extended_region}
use reporigor.Prelude.Order.{map_insert, nat_ord, pair_ord}
use reporigor.Prelude.{
  ℕ, ◌-◌, ◌≡◌, ap, ◌∙◌, inl, inr, Bool, true, false, if◌then◌else◌, Bool-cases, saturating_add,
  Text, Result, ◌>>=◌, >>=-eq-ok, ok_injective, ok,
}

abbrev pub worked : CandidateBuilder → CandidateWork → CandidateBuilder
worked b work = record b { work = work }

-- The builder after a region has been remembered on its diagonal.
abbrev pub remembered : CandidateBuilder → Diagonal → ℕ → ℕ → CandidateWork → CandidateBuilder
remembered b diagonal start size work = record b {
  work = work;
  extended_regions =
      map_insert diagonal
        (remember_extended_region (regions_of b diagonal) start
          (saturating_add start (size - b.min_tokens)))
        b.extended_regions;
}

pub data Processed (sha256 : Text → Text) (b : CandidateBuilder) (left right : Occurrence)
    (b' : CandidateBuilder) : Type 0 where
  skipped :
      (work : CandidateWork)
      → already_extended b (diagonal_key left right) left.start ≡ true
      → worked b work ≡ b'
      → Processed sha256 b left right b'
  differed :
      (before work : CandidateWork)
      → windows_equal (token_pair b left right) b.min_tokens before ≡ ok (false, work)
      → worked b work ≡ b'
      → Processed sha256 b left right b'
  extended :
      (before compared work : CandidateWork) (l r size : ℕ)
      → windows_equal (token_pair b left right) b.min_tokens before ≡ ok (true, compared)
      → extend_match (token_pair b left right) b.min_tokens compared ≡ ok ((l, r, size), work)
      → insert_region sha256
          (remembered b (diagonal_key left right) l size work)
          left
          right
          (l, r, size)
        ≡ b'
      → Processed sha256 b left right b'

module _ (sha256 : Text → Text) (b : CandidateBuilder) (left right : Occurrence)
    (b' : CandidateBuilder) where
  abbrev diagonal : Diagonal
  diagonal = diagonal_key left right

  compare_next : Bool → CandidateWork → Result DryError CandidateBuilder
  compare_next equal compared =
      if equal
      then (do
        (region, next) ← extend_region (worked b compared) diagonal left right
        ok (insert_region sha256 next left right region))
      else ok (worked b compared)

  compare_next-Processed :
      (equal : Bool) (before compared : CandidateWork)
      → windows_equal (token_pair b left right) b.min_tokens before ≡ ok (equal, compared)
      → compare_next equal compared ≡ ok b'
      → Processed sha256 b left right b'
  unfolding compare_next extend_region
  compare_next-Processed false before compared same e =
      differed before compared same (ok_injective _ _ e)
  compare_next-Processed true before compared same e =
      let ((region, next), made, e1) =
        >>=-eq-ok (extend_region (worked b compared) diagonal left right) _ e in
      let (((l, r, size), work), found, e2) =
        >>=-eq-ok (extend_match (token_pair b left right) b.min_tokens compared) _ made in
      let e3 = ok_injective _ _ e2 in
      extended before compared work l r size same found (
        ap (λ (x : (ℕ × ℕ × ℕ) × CandidateBuilder). insert_region sha256 x.1 left right x.0) e3
        ∙ ok_injective _ _ e1)

  pub process_pair-Processed :
      process_pair sha256 b left right ≡ ok b' → Processed sha256 b left right b'
  unfolding process_pair compare_next
  process_pair-Processed e =
      let (work, _, e1) = >>=-eq-ok (consume b.work 1) _ e in
      elim (Bool-cases (already_extended b diagonal left.start)) [
        | inl skip ↦ skipped work skip (ok_injective _ _ (rw skip at e1))
        | inr fresh ↦
            let ((equal, compared), same, e2) =
              >>=-eq-ok (windows_equal (token_pair b left right) b.min_tokens work) _
                (rw fresh at e1) in
            compare_next-Processed equal work compared same e2
      ]
