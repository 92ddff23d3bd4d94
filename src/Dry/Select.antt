-- ===== src/Dry/Select.antt =====
-- crates/analysis-dry/src/lib.rs: the choice of the groups that are reported.
pub mod Laws
mod Samples
use reporigor.Dry.Locations.{
  Location, Duplicate, compare_duplicates, contained_by, exact_group_contained_by,
}
use reporigor.Prelude.Order.{nat_ord, list_ord, lookup, map_insert, sort_with}
use reporigor.Prelude.{
  ℕ, Bool, ◌||◌, none, some, List, [], ◌∷◌, ◌++◌, ltb, ◌==◌, if◌then◌else◌, u64_max, length, any,
  all, keep, Text, take,
}

-- The loop of `select_non_redundant`, on what is selected so far in order.
unfoldable pub select_loop :
    (Duplicate → Duplicate → Bool) → ℕ → List Duplicate → List Duplicate → List Duplicate
select_loop redundant limit selected [] = selected
select_loop redundant limit selected (group ∷ groups) =
    let skipped = select_loop redundant limit selected groups in
    let grown = selected ++ (group ∷ []) in
    let continued = select_loop redundant limit grown groups in
    if any (redundant group) selected
    then skipped
    else if length grown == limit
    then grown
    else continued

unfoldable pub select_non_redundant :
    List Duplicate → ℕ → (Duplicate → Duplicate → Bool) → List Duplicate
unfolding select_loop
select_non_redundant groups limit redundant = select_loop redundant limit [] groups

unfoldable pub select_candidates : List Duplicate → ℕ → List Duplicate
unfolding select_non_redundant contained_by
select_candidates candidates max_groups = select_non_redundant candidates max_groups contained_by

unfoldable pub select_maximal_exact_groups : List Duplicate → List Duplicate
unfolding select_non_redundant exact_group_contained_by
select_maximal_exact_groups groups = select_non_redundant groups u64_max exact_group_contained_by

-- `sort_by(compare_duplicates)` and `truncate(max_groups)`
unfoldable pub limit_groups : List Duplicate → ℕ → List Duplicate
unfolding compare_duplicates
limit_groups groups max_groups = take max_groups (sort_with compare_duplicates groups)

-- The line intervals that are reported already, by file.
abbrev pub Covered : Type 0
Covered = List (Text × List (ℕ × ℕ))

abbrev pub lines_of : Covered → Text → List (ℕ × ℕ)
lines_of covered file = elim (lookup file covered) [ none ↦ [] | some intervals ↦ intervals ]

-- `location.end_line < *start || *end < location.start_line`
abbrev pub apart_from : Location → ℕ × ℕ → Bool
apart_from location (start, end) = ltb location.end_line start || ltb end location.start_line

unfoldable pub independent_occurrence_count : Duplicate → Covered → ℕ
unfolding lookup
independent_occurrence_count group covered =
    length (
      keep (λ location. all (apart_from location) (lines_of covered location.file)) group.locations)

-- The loop of `remember_group_occurrences`.
unfoldable pub remember_locations : List Location → Covered → Covered
unfolding lookup map_insert
remember_locations [] covered = covered
remember_locations (location ∷ locations) covered = remember_locations locations (
    map_insert location.file
      (lines_of covered location.file ++ ((location.start_line, location.end_line) ∷ [])) covered)

unfoldable pub remember_group_occurrences : Duplicate → Covered → Covered
unfolding remember_locations
remember_group_occurrences group covered = remember_locations group.locations covered

-- The loop of `select_independent_exact_groups`.
unfoldable pub select_independent : List Duplicate → Covered → List Duplicate
unfolding independent_occurrence_count remember_group_occurrences
select_independent [] covered = []
select_independent (group ∷ groups) covered =
    let dropped = select_independent groups covered in
    let chosen = select_independent groups (remember_group_occurrences group covered) in
    if ltb (independent_occurrence_count group covered) 2 then dropped else group ∷ chosen

unfoldable pub select_independent_exact_groups : List Duplicate → List Duplicate
unfolding select_independent compare_duplicates
select_independent_exact_groups groups = select_independent (sort_with compare_duplicates groups) []
