-- ===== src/Core/SourceBudget/Laws.antt =====
-- What an accepted source set is known to satisfy.
use reporigor.Prelude.{
  ℕ, ◌+◌, ◌≤◌, ◌<◌, ◌≡◌, refl, ap, ◌↔◌, List, [], ◌∷◌, arith, length, All, Text, Result,
  and_then-ok, >>=-eq-ok, ok, err,
}
use reporigor.Core.SourceBudget.{
  SourceAnswer, unresolved, absent, unreadable, regular_file, source_unresolved, source_missing,
  source_unreadable, BudgetError, SourceBudget, max_source_bytes_hard_limit,
  max_selected_source_files, max_selected_source_bytes, observe, observe_each,
  observe_mutation_source, observe_mutation_source_budget, new,
}

-- The aggregate stays inside the immutable ceilings.
pub record IsWithin (b : SourceBudget) : Type 0 where
  pub limit : b.max_source_bytes ≤ max_source_bytes_hard_limit
  pub files : b.selected_files ≤ max_selected_source_files
  pub bytes : b.selected_bytes ≤ max_selected_source_bytes

-- What one more source needs.
pub record Fits (b : SourceBudget) (size : ℕ) : Type 0 where
  pub file : size ≤ b.max_source_bytes
  pub count : b.selected_files + 1 ≤ max_selected_source_files
  pub total : b.selected_bytes + size ≤ max_selected_source_bytes

abbrev charge : SourceBudget → ℕ → SourceBudget
charge b size = record b {
  selected_files = b.selected_files + 1;
  selected_bytes = b.selected_bytes + size;
}

observe-Fits :
    (b : SourceBudget) (path : Text) (size : ℕ)
    → IsWithin b
    → Fits b size
    → observe b path size ≡ (ok tt, charge b size)
unfolding observe
observe-Fits b path size w f = ground arith

observe-ok :
    (b : SourceBudget) (path : Text) (size : ℕ)
    → IsWithin b
    → (observe b path size).0 ≡ ok tt
    → Fits b size
unfolding observe
observe-ok b path size w h = ground arith

observe-err :
    (b : SourceBudget) (path : Text) (size : ℕ) (e : BudgetError)
    → (observe b path size).0 ≡ err e
    → (observe b path size).1 ≡ b
unfolding observe
observe-err b path size e h = ground arith

-- A listed source that exists and is small enough on its own.
abbrev IsReadable : (Text → SourceAnswer) → ℕ → Text → Type 0
IsReadable size_of limit path = (size : ℕ) × (size_of path ≡ regular_file size) × (size ≤ limit)

abbrev size_or_zero : SourceAnswer → ℕ
size_or_zero (regular_file size) = size
size_or_zero _ = 0

abbrev total_size : (Text → SourceAnswer) → List Text → ℕ
total_size size_of [] = 0
total_size size_of (path ∷ rest) = size_or_zero (size_of path) + total_size size_of rest

-- The set fits into what is left of a budget.
pub record FitsAll (size_of : Text → SourceAnswer) (b : SourceBudget) (files : List Text)
    : Type 0 where
  pub each : All (IsReadable size_of b.max_source_bytes) files
  pub count : b.selected_files + length files ≤ max_selected_source_files
  pub total : b.selected_bytes + total_size size_of files ≤ max_selected_source_bytes

abbrev charge_all : (Text → SourceAnswer) → SourceBudget → List Text → SourceBudget
charge_all size_of b files = record b {
  selected_files = b.selected_files + length files;
  selected_bytes = b.selected_bytes + total_size size_of files;
}

charge-IsWithin :
    (b : SourceBudget) (size : ℕ) → IsWithin b → Fits b size → IsWithin (charge b size)
charge-IsWithin b size w f = record { limit = w.limit; files = f.count; bytes = f.total }

module _ (size_of : Text → SourceAnswer) where
  observe_source-ok :
      (b : SourceBudget) (path : Text)
      → IsWithin b
      → (observe_mutation_source size_of b path).0 ≡ ok tt
      → (size : ℕ) × (size_of path ≡ regular_file size) × Fits b size
  unfolding observe_mutation_source
  observe_source-ok b path w h = by_answer (size_of path) h
    where
      by_answer :
          (answer : SourceAnswer)
          → (elim answer as (λ _. Result BudgetError (Unit {0}) × SourceBudget) [
            | unresolved ↦ (err (source_unresolved path), b)
            | absent ↦ (err (source_missing path), b)
            | unreadable ↦ (err (source_unreadable path), b)
            | regular_file len ↦ observe b path len
          ]).0
            ≡ ok tt
          → (size : ℕ) × (answer ≡ regular_file size) × Fits b size
      by_answer (regular_file size) e = (size, refl, observe-ok b path size w e)
      by_answer unresolved e = cc
      by_answer absent e = cc
      by_answer unreadable e = cc

  observe_source-Fits :
      (b : SourceBudget) (path : Text) (size : ℕ)
      → IsWithin b
      → size_of path ≡ regular_file size
      → Fits b size
      → observe_mutation_source size_of b path ≡ (ok tt, charge b size)
  unfolding observe_mutation_source
  observe_source-Fits b path size w e f =
      rw (e, observe_mutation_source) (observe-Fits b path size w f)

  observe_each-FitsAll :
      (b : SourceBudget) (files : List Text)
      → IsWithin b
      → FitsAll size_of b files
      → observe_each size_of b files ≡ (ok tt, charge_all size_of b files)
  unfolding observe_each
  observe_each-FitsAll b [] w f = ground arith
  observe_each-FitsAll b (path ∷ rest) w f =
      let (size, known, small) = f.each.0 in
      let fits : Fits b size = record {
        file = small;
        count = omega arith;
        total = ground (arith, known, f.total);
      } in
      rw (observe_source-Fits b path size w known fits) (
        ground (
          arith,
          observe_each-FitsAll (charge b size) rest (charge-IsWithin b size w fits) (record {
            each = f.each.1;
            count = ground (arith, f.count);
            total = ground (arith, known, f.total);
          }),
        ))

  observe_each-ok :
      (b : SourceBudget) (files : List Text)
      → IsWithin b
      → (observe_each size_of b files).0 ≡ ok tt
      → FitsAll size_of b files
  unfolding observe_each
  observe_each-ok b [] w h = record { each = tt; count = omega arith; total = omega arith }
  observe_each-ok b (path ∷ rest) w h =
      let (accepted, rest_ok) = and_then-ok (observe_mutation_source size_of b path) _ h in
      let (size, known, fits) = observe_source-ok b path w accepted in
      let more : FitsAll size_of (charge b size) rest =
        observe_each-ok (charge b size) rest (charge-IsWithin b size w fits)
          (rw (observe_source-Fits b path size w known fits) at rest_ok) in
      record {
        each = ((size, known, fits.file), more.each);
        count = ground (arith, more.count);
        total = ground (arith, known, more.total);
      }

-- What a whole selected set needs, said with no running state.
pub record IsAcceptable (size_of : Text → SourceAnswer) (limit : ℕ) (files : List Text)
    : Type 0 where
  pub positive : 0 < limit
  pub below_hard_limit : limit ≤ max_source_bytes_hard_limit
  pub each : All (IsReadable size_of limit) files
  pub count : length files ≤ max_selected_source_files
  pub total : total_size size_of files ≤ max_selected_source_bytes

abbrev fresh : ℕ → SourceBudget
fresh limit = record { max_source_bytes = limit; selected_files = 0; selected_bytes = 0 }

new-ok :
    (limit : ℕ) → 0 < limit → limit ≤ max_source_bytes_hard_limit → new limit ≡ ok (fresh limit)
unfolding new
new-ok limit p h = ground arith

new-valid :
    (limit : ℕ) (b : SourceBudget)
    → new limit ≡ ok b
    → (b ≡ fresh limit) × (0 < limit) × (limit ≤ max_source_bytes_hard_limit)
unfolding new
new-valid limit b h = ground arith

-- A selected set passes the budget exactly when the configured limit is legal, every source exists
-- and is within it, and the number of sources and their total size are within the fixed ceilings:
-- no order of the sources and no saturation of the counters changes the answer.
pub observe_mutation_source_budget_iff :
    (size_of : Text → SourceAnswer) (files : List Text) (limit : ℕ)
    → (observe_mutation_source_budget size_of files limit ≡ ok tt)
      ↔ IsAcceptable size_of limit files
unfolding observe_mutation_source_budget
observe_mutation_source_budget_iff size_of files limit = (
  λ h.
      let (b, made, passed) = >>=-eq-ok (new limit) (λ b. (observe_each size_of b files).0) h in
      let (e, positive, low) = new-valid limit b made in
      let fits : FitsAll size_of (fresh limit) files =
        observe_each-ok size_of (fresh limit) files
          (record { limit = low; files = omega arith; bytes = omega arith }) (rw e at passed) in
      record {
        positive = positive;
        below_hard_limit = low;
        each = fits.each;
        count = omega (arith, fits.count);
        total = omega (arith, fits.total);
      },
  λ a. rw (new-ok limit a.positive a.below_hard_limit) (
      ap (λ (p : Result BudgetError (Unit {0}) × SourceBudget). p.0)
        (observe_each-FitsAll size_of (fresh limit) files
          (record { limit = a.below_hard_limit; files = omega arith; bytes = omega arith })
          (record {
            each = a.each;
            count = omega (arith, a.count);
            total = omega (arith, a.total);
          }))),
)
