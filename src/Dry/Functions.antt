-- ===== src/Dry/Functions.antt =====
-- crates/analysis-dry/src/lib.rs: the functions that are compared, and the groups that they form.
pub mod Eligible
mod Samples
use Prim.Native.Nat.{compare, Ordering}
use reporigor.Dry.Limits.{DryConfig}
use reporigor.Dry.Locations.{
  Location, Duplicate, canonical_path, compare_location_output, compare_duplicates,
}
use reporigor.Dry.Identity.{
  CloneIdentity, normalized_evidence, stable_clone_group_id, shingle_dice_algorithm,
}
use reporigor.Dry.Select.{select_maximal_exact_groups}
use reporigor.Prelude.Order.{nat_ord, cmp_list, then_with, sort_with, lookup}
use reporigor.Prelude.{
  ℕ, min, Bool, ◌&&◌, not, Option, none, some, List, [], ◌∷◌, map, ltb, leb, ◌==◌, if◌then◌else◌,
  length, get_elem?, any, keep, Text, text_eq,
}

-- The fields of `FunctionRecord` (crates/reporigor-core/src/model.rs) that the analysis reads.
pub record FunctionRecord : Type 0 where
  pub name : Text
  pub file : Text
  pub start_line : ℕ
  pub end_line : ℕ
  pub stable_symbol : Text
  pub statement_count : ℕ
  pub normalized_tokens : List Text
  pub structural_metrics_reliable : Bool

pub record EligibleFunction : Type 0 where
  pub function : FunctionRecord
  pub path : Text
  pub symbol : Text
  pub evidence : Text

unfoldable pub reliable_function : FunctionRecord → Bool
reliable_function function =
    function.structural_metrics_reliable
    && not (length function.normalized_tokens == 0)
    && ltb 0 function.start_line
    && leb function.start_line function.end_line

unfoldable pub effective_symbol : FunctionRecord → Text
effective_symbol function =
    if length function.stable_symbol == 0 then function.name else function.stable_symbol

-- The filter of `eligible_functions`; a `u32` fits into a `usize`.
unfoldable pub is_candidate : DryConfig → FunctionRecord → Bool
unfolding reliable_function
is_candidate config function =
    reliable_function function
    && leb config.min_tokens (length function.normalized_tokens)
    && leb config.min_statements function.statement_count

abbrev pub eligible_function : FunctionRecord → EligibleFunction
eligible_function function = record {
  function = function;
  path = canonical_path function.file;
  symbol = effective_symbol function;
  evidence = normalized_evidence function.normalized_tokens;
}

abbrev pub compare_eligible : EligibleFunction → EligibleFunction → Ordering
compare_eligible left right =
    then_with
      (then_with
        (then_with (cmp_list left.path right.path)
          (then_with (cmp_list left.symbol right.symbol) (cmp_list left.evidence right.evidence)))
        (compare left.function.start_line right.function.start_line))
      (compare left.function.end_line right.function.end_line)

-- Two functions with one key in the set `physical_functions`.
abbrev pub same_physical : EligibleFunction → EligibleFunction → Bool
same_physical left right =
    text_eq left.path right.path
    && left.function.start_line == right.function.start_line
    && left.function.end_line == right.function.end_line
    && text_eq left.evidence right.evidence

-- `eligible.retain(..)`, on the functions retained so far; a function is new unless its key is in
-- the set, which has the keys of these.
unfoldable pub retain_physical :
    List EligibleFunction → List EligibleFunction → List EligibleFunction
retain_physical seen [] = []
retain_physical seen (function ∷ functions) =
    let rest = retain_physical (function ∷ seen) functions in
    let known = retain_physical seen functions in
    if any (same_physical function) seen then known else function ∷ rest

unfoldable pub eligible_functions : List FunctionRecord → DryConfig → List EligibleFunction
unfolding is_candidate retain_physical
eligible_functions functions config =
    retain_physical []
      (sort_with compare_eligible (map eligible_function (keep (is_candidate config) functions)))

unfoldable pub function_location : EligibleFunction → Location
function_location function = record {
  file = function.function.file;
  start_line = function.function.start_line;
  end_line = function.function.end_line;
  stable_symbol = some function.symbol;
  start_token = 0;
  end_token = length function.function.normalized_tokens;
}

-- `.min()` of an iterator.
abbrev pub least : List ℕ → Option ℕ
least [] = none
least (n ∷ ns) = elim (least ns) [ none ↦ some n | some m ↦ some (min n m) ]

abbrev pub identity_of : EligibleFunction → CloneIdentity
identity_of function = record {
  path = function.path;
  symbol = function.symbol;
  evidence = function.evidence;
}

abbrev pub or_zero : Option ℕ → ℕ
or_zero none = 0
or_zero (some n) = n

-- `members` are the functions themselves, `eligible[*index]` for each index.
unfoldable pub function_group : (Text → Text) → List EligibleFunction → ℕ → Duplicate
unfolding function_location
function_group sha256 members similarity = record {
  token_count =
      or_zero (least (map (λ (m : EligibleFunction). length m.function.normalized_tokens) members));
  locations = sort_with compare_location_output (map function_location members);
  clone_group_id = some (stable_clone_group_id sha256 (map identity_of members));
  similarity = some similarity;
  statement_count = least (map (λ (m : EligibleFunction). m.function.statement_count) members);
  algorithm = some shingle_dice_algorithm;
}

-- `eligible[*index]` for each index that there is.
unfoldable pub members_at : List EligibleFunction → List ℕ → List EligibleFunction
members_at eligible [] = []
members_at eligible (index ∷ indices) = elim (get_elem? eligible index) [
  | none ↦ members_at eligible indices
  | some function ↦ function ∷ members_at eligible indices
]

-- The loop of `function_groups`.
unfoldable pub component_groups :
    (Text → Text) → List EligibleFunction → List (ℕ × List ℕ) → List (ℕ × ℕ) → List Duplicate
unfolding function_group members_at lookup
component_groups sha256 eligible [] similarities = []
component_groups sha256 eligible ((root, indices) ∷ members) similarities =
    let rest = component_groups sha256 eligible members similarities in
    if ltb (length indices) 2 then rest else elim (lookup root similarities) [
      | none ↦ rest
      | some similarity ↦ function_group sha256 (members_at eligible indices) similarity ∷ rest
    ]

unfoldable pub function_groups :
    (Text → Text) → List EligibleFunction → List (ℕ × List ℕ) → List (ℕ × ℕ) → List Duplicate
unfolding component_groups compare_duplicates select_maximal_exact_groups
function_groups sha256 eligible members similarities =
    select_maximal_exact_groups
      (sort_with compare_duplicates (component_groups sha256 eligible members similarities))
