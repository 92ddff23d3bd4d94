-- ===== src/Dry/Select/Samples.antt =====
-- Three groups, of which one lies inside another.
use reporigor.Dry.Locations.{Location, Duplicate, contained_by}
use reporigor.Dry.Select.{select_non_redundant, select_candidates}
use reporigor.Dry.Select.Laws.{IsSelection, select_non_redundant-IsSelection}
use reporigor.Prelude.{ℕ, ◌+◌, ◌≡◌, refl, none, List, [], ◌∷◌, arith, codes, text_eq}

abbrev at : ℕ → ℕ → Location
at start end = record {
  file = codes "src/lib.rs";
  start_line = start;
  end_line = end;
  stable_symbol = none;
  start_token = start;
  end_token = end;
}

abbrev group : ℕ → ℕ → ℕ → Duplicate
group size first second = record {
  token_count = size;
  locations = at first (first + size) ∷ at second (second + size) ∷ [];
  clone_group_id = none;
  similarity = none;
  statement_count = none;
  algorithm = none;
}

abbrev groups : List Duplicate
groups = group 20 0 40 ∷ group 10 5 45 ∷ group 8 100 200 ∷ []

select_non_redundant-IsSelection_example :
    IsSelection contained_by 5 groups (select_non_redundant groups 5 contained_by)
select_non_redundant-IsSelection_example =
    select_non_redundant-IsSelection contained_by 5 groups (omega arith)

-- The second group is dropped.
two_left : select_candidates groups 5 ≡ group 20 0 40 ∷ group 8 100 200 ∷ []
unfolding select_candidates text_eq
two_left = refl
