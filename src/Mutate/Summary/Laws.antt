-- ===== src/Mutate/Summary/Laws.antt =====
-- The counters partition the results, and the two ways to the score agree.
use reporigor.Mutate.Summary.{
  from_results, record_all, MutationSummary, summary_score, mutation_score, empty_summary,
  record_status, is_killed, is_scoreable_status,
}
use reporigor.Mutate.Model.{MutationStatus, MutationResult}
use reporigor.Prelude.{
  ℕ, suc, ◌+◌, ◌≤◌, ◌≡◌, refl, sym, ap, fun_ext, ◌∙◌, Bool, true, false, List, [], ◌∷◌, arith,
  if◌then◌else◌, u64_max, saturating_add, length, count_if,
}

abbrev pub counted : MutationSummary → ℕ
counted s =
    s.killed + s.survived + s.no_coverage + s.compile_error + s.runtime_error + s.timeout
    + s.invalid + s.ignored + s.pending

abbrev pub count_of : MutationSummary → MutationStatus → ℕ
count_of s MutationStatus.killed = s.killed
count_of s MutationStatus.survived = s.survived
count_of s MutationStatus.no_coverage = s.no_coverage
count_of s MutationStatus.compile_error = s.compile_error
count_of s MutationStatus.runtime_error = s.runtime_error
count_of s MutationStatus.timeout = s.timeout
count_of s MutationStatus.invalid = s.invalid
count_of s MutationStatus.ignored = s.ignored
count_of s MutationStatus.pending = s.pending

abbrev pub status_eq : MutationStatus → MutationStatus → Bool
status_eq MutationStatus.killed MutationStatus.killed = true
status_eq MutationStatus.survived MutationStatus.survived = true
status_eq MutationStatus.no_coverage MutationStatus.no_coverage = true
status_eq MutationStatus.compile_error MutationStatus.compile_error = true
status_eq MutationStatus.runtime_error MutationStatus.runtime_error = true
status_eq MutationStatus.timeout MutationStatus.timeout = true
status_eq MutationStatus.invalid MutationStatus.invalid = true
status_eq MutationStatus.ignored MutationStatus.ignored = true
status_eq MutationStatus.pending MutationStatus.pending = true
status_eq _ _ = false

counted-record :
    (t : MutationStatus) (s : MutationSummary) → counted (record_status t s) ≡ suc (counted s)
counted-record MutationStatus.killed s = omega arith
counted-record MutationStatus.survived s = omega arith
counted-record MutationStatus.no_coverage s = omega arith
counted-record MutationStatus.compile_error s = omega arith
counted-record MutationStatus.runtime_error s = omega arith
counted-record MutationStatus.timeout s = omega arith
counted-record MutationStatus.invalid s = omega arith
counted-record MutationStatus.ignored s = omega arith
counted-record MutationStatus.pending s = omega arith

counted-all :
    (rs : List MutationResult) (s : MutationSummary)
    → counted (record_all rs s) ≡ length rs + counted s
unfolding record_all
counted-all [] s = omega arith
counted-all (r ∷ rs) s =
    omega (arith, counted-all rs (record_status r.status s), counted-record r.status s)

abbrev one_if : Bool → ℕ
one_if true = 1
one_if false = 0

count_of-record :
    (u t : MutationStatus) (s : MutationSummary)
    → count_of (record_status u s) t ≡ one_if (status_eq u t) + count_of s t
count_of-record MutationStatus.killed MutationStatus.killed s = omega arith
count_of-record MutationStatus.killed _ s = omega arith
count_of-record MutationStatus.survived MutationStatus.survived s = omega arith
count_of-record MutationStatus.survived _ s = omega arith
count_of-record MutationStatus.no_coverage MutationStatus.no_coverage s = omega arith
count_of-record MutationStatus.no_coverage _ s = omega arith
count_of-record MutationStatus.compile_error MutationStatus.compile_error s = omega arith
count_of-record MutationStatus.compile_error _ s = omega arith
count_of-record MutationStatus.runtime_error MutationStatus.runtime_error s = omega arith
count_of-record MutationStatus.runtime_error _ s = omega arith
count_of-record MutationStatus.timeout MutationStatus.timeout s = omega arith
count_of-record MutationStatus.timeout _ s = omega arith
count_of-record MutationStatus.invalid MutationStatus.invalid s = omega arith
count_of-record MutationStatus.invalid _ s = omega arith
count_of-record MutationStatus.ignored MutationStatus.ignored s = omega arith
count_of-record MutationStatus.ignored _ s = omega arith
count_of-record MutationStatus.pending MutationStatus.pending s = omega arith
count_of-record MutationStatus.pending _ s = omega arith

if-one_if : (b : Bool) (n : ℕ) → (if b then suc n else n) ≡ one_if b + n
if-one_if true n = omega arith
if-one_if false n = omega arith

count_if-step :
    (p : MutationStatus → Bool) (r : MutationResult) (rs : List MutationResult)
    → count_if (λ x. p x.status) (r ∷ rs) ≡ one_if (p r.status) + count_if (λ x. p x.status) rs
count_if-step p r rs = if-one_if (p r.status) (count_if (λ x. p x.status) rs)

count_of-all :
    (t : MutationStatus) (rs : List MutationResult) (s : MutationSummary)
    → count_of (record_all rs s) t ≡ count_if (λ r. status_eq r.status t) rs + count_of s t
unfolding record_all
count_of-all t [] s = omega arith
count_of-all t (r ∷ rs) s = omega (
  arith,
  count_of-all t rs (record_status r.status s),
  count_of-record r.status t s,
  count_if-step (λ u. status_eq u t) r rs,
)

-- Every status has its counter, which counts exactly the results of that status, and the counters
-- add up to the total: no result is counted twice and none is lost.
pub from_results-partitions :
    (results : List MutationResult)
    → (counted (from_results results) ≡ length results)
      × ((from_results results).total ≡ length results)
      × ((t : MutationStatus)
          → count_of (from_results results) t ≡ count_if (λ r. status_eq r.status t) results)
unfolding from_results
from_results-partitions results = (omega (arith, counted-all results empty_summary), refl, counter)
  where
    counter :
        (t : MutationStatus)
        → count_of (record (record_all results empty_summary) { total = length results }) t
          ≡ count_if (λ r. status_eq r.status t) results
    counter MutationStatus.killed =
        omega (arith, count_of-all MutationStatus.killed results empty_summary)
    counter MutationStatus.survived =
        omega (arith, count_of-all MutationStatus.survived results empty_summary)
    counter MutationStatus.no_coverage =
        omega (arith, count_of-all MutationStatus.no_coverage results empty_summary)
    counter MutationStatus.compile_error =
        omega (arith, count_of-all MutationStatus.compile_error results empty_summary)
    counter MutationStatus.runtime_error =
        omega (arith, count_of-all MutationStatus.runtime_error results empty_summary)
    counter MutationStatus.timeout =
        omega (arith, count_of-all MutationStatus.timeout results empty_summary)
    counter MutationStatus.invalid =
        omega (arith, count_of-all MutationStatus.invalid results empty_summary)
    counter MutationStatus.ignored =
        omega (arith, count_of-all MutationStatus.ignored results empty_summary)
    counter MutationStatus.pending =
        omega (arith, count_of-all MutationStatus.pending results empty_summary)

killed_as_eq : (u : MutationStatus) → is_killed u ≡ status_eq u MutationStatus.killed
killed_as_eq MutationStatus.killed = refl
killed_as_eq MutationStatus.survived = refl
killed_as_eq MutationStatus.no_coverage = refl
killed_as_eq MutationStatus.compile_error = refl
killed_as_eq MutationStatus.runtime_error = refl
killed_as_eq MutationStatus.timeout = refl
killed_as_eq MutationStatus.invalid = refl
killed_as_eq MutationStatus.ignored = refl
killed_as_eq MutationStatus.pending = refl

scoreable_one :
    (u : MutationStatus)
    → one_if (is_scoreable_status u)
      ≡ one_if (status_eq u MutationStatus.killed) + one_if (status_eq u MutationStatus.survived)
scoreable_one MutationStatus.killed = refl
scoreable_one MutationStatus.survived = refl
scoreable_one MutationStatus.no_coverage = refl
scoreable_one MutationStatus.compile_error = refl
scoreable_one MutationStatus.runtime_error = refl
scoreable_one MutationStatus.timeout = refl
scoreable_one MutationStatus.invalid = refl
scoreable_one MutationStatus.ignored = refl
scoreable_one MutationStatus.pending = refl

scoreable_count :
    (rs : List MutationResult)
    → count_if (λ r. is_scoreable_status r.status) rs
      ≡ count_if (λ r. status_eq r.status MutationStatus.killed) rs
        + count_if (λ r. status_eq r.status MutationStatus.survived) rs
scoreable_count [] = refl
scoreable_count (r ∷ rs) = omega (
  arith,
  scoreable_count rs,
  scoreable_one r.status,
  count_if-step is_scoreable_status r rs,
  count_if-step (λ u. status_eq u MutationStatus.killed) r rs,
  count_if-step (λ u. status_eq u MutationStatus.survived) r rs,
)

unsaturated : (a b n : ℕ) → n ≡ a + b → a + b ≤ u64_max → n ≡ saturating_add a b
unsaturated a b n e h = ground arith

-- The score that a run's summary shows and the score that is calculated from its results are the
-- same, for as many results as a `usize` counts.
pub summary_score-mutation_score :
    (results : List MutationResult)
    → length results ≤ u64_max
    → summary_score (from_results results) ≡ mutation_score results
unfolding mutation_score
summary_score-mutation_score results small =
    let (sum, total, counter) = from_results-partitions results in
    let killed = counter MutationStatus.killed in
    let survived = counter MutationStatus.survived in
    let same : count_if (λ (r : MutationResult). is_killed r.status) results
        ≡ (from_results results).killed =
      ap (λ (q : MutationStatus → Bool). count_if (λ (r : MutationResult). q r.status) results)
        (fun_ext killed_as_eq)
      ∙ sym killed in
    let scoreable : count_if (λ (r : MutationResult). is_scoreable_status r.status) results
        ≡ saturating_add (from_results results).killed (from_results results).survived =
      unsaturated _ _ _ (omega (arith, scoreable_count results, killed, survived))
        (omega (arith, sum, small)) in
    rw same (rw scoreable refl)
