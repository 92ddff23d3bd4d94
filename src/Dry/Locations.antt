-- ===== src/Dry/Locations.antt =====
-- crates/analysis-dry/src/lib.rs: `Location` and `Duplicate`, how they overlap, contain one another
-- and compare. A line, a token offset and a count are plain numbers.
use Prim.Native.Nat.{compare, Ordering}
use reporigor.Core.StableId.{stable_path}
use reporigor.Prelude.Order.{cmp_list, cmp_option, then_with, nat_ord, list_ord, is_lt}
use reporigor.Prelude.{
  ℕ, Bool, false, ◌&&◌, ◌||◌, not, Option, none, some, List, ◌∷◌, ltb, leb, if◌then◌else◌, length,
  any, all, Text, text_eq,
}

pub record Location : Type 0 where
  pub file : Text
  pub start_line : ℕ
  pub end_line : ℕ
  pub stable_symbol : Option Text
  pub start_token : ℕ
  pub end_token : ℕ

-- A similarity is the bit pattern of its `f64`.
pub record Duplicate : Type 0 where
  pub token_count : ℕ
  pub locations : List Location
  pub clone_group_id : Option Text
  pub similarity : Option ℕ
  pub statement_count : Option ℕ
  pub algorithm : Option Text

unfoldable pub same_file : Location → Location → Bool
same_file first second = text_eq first.file second.file

unfoldable pub overlaps : Location → Location → Bool
unfolding same_file
overlaps first second =
    same_file first second
    && not (leb first.end_token second.start_token || leb second.end_token first.start_token)

unfoldable pub location_contains : Location → Location → Bool
unfolding same_file
location_contains outer inner =
    same_file outer inner
    && leb outer.start_token inner.start_token
    && leb inner.end_token outer.end_token

-- The first two locations of the one inside the first two of the other, if both have them.
abbrev pub pair_inside : List Location → List Location → Bool
pair_inside (first ∷ second ∷ _) (outer_first ∷ outer_second ∷ _) =
    location_contains outer_first first && location_contains outer_second second
pair_inside _ _ = false

unfoldable pub contained_by : Duplicate → Duplicate → Bool
unfolding location_contains
contained_by candidate existing = pair_inside candidate.locations existing.locations

unfoldable pub exact_group_contained_by : Duplicate → Duplicate → Bool
unfolding location_contains
exact_group_contained_by candidate existing =
    ltb candidate.token_count existing.token_count
    && all (λ inner. any (λ outer. location_contains outer inner) existing.locations)
        candidate.locations

-- The tuples of `location_key`, compared.
unfoldable pub compare_location_key : Location → Location → Ordering
compare_location_key left right = then_with (cmp_list left.file right.file) (
    then_with (compare left.start_token right.start_token) (compare left.end_token right.end_token))

-- `canonical_path` is `stable_path` of stable_id.rs.
unfoldable pub canonical_path : Text → Text
unfolding stable_path
canonical_path path = stable_path path

-- The tuples of `location_output_key`, compared.
unfoldable pub compare_location_output : Location → Location → Ordering
unfolding canonical_path
compare_location_output left right =
    then_with (cmp_list (canonical_path left.file) (canonical_path right.file)) (
      then_with (cmp_option left.stable_symbol right.stable_symbol) (
        then_with (compare left.start_line right.start_line) (
          then_with (compare left.end_line right.end_line) (
            then_with (compare left.start_token right.start_token)
              (compare left.end_token right.end_token)))))

-- The loop over `left.locations.iter().zip(&right.locations)`.
unfoldable pub compare_each : Ordering → List Location → List Location → Ordering
unfolding compare_location_output
compare_each ordering (left ∷ lefts) (right ∷ rights) =
    compare_each (then_with ordering (compare_location_output left right)) lefts rights
compare_each ordering _ _ = ordering

unfoldable pub compare_duplicates : Duplicate → Duplicate → Ordering
unfolding compare_each
compare_duplicates left right =
    let ordering =
      compare_each (compare right.token_count left.token_count) left.locations right.locations in
    then_with (then_with ordering (compare (length left.locations) (length right.locations)))
      (cmp_option left.clone_group_id right.clone_group_id)

unfoldable pub ordered_disjoint_locations : Location → Location → Option (Location × Location)
unfolding overlaps compare_location_key
ordered_disjoint_locations first second =
    if overlaps first second
    then none
    else if is_lt (compare_location_key second first)
    then some (second, first)
    else some (first, second)
