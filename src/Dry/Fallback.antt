-- ===== src/Dry/Fallback.antt =====
-- crates/analysis-dry/src/lib.rs: the exact groups that are kept beside the function groups, and the
-- two entry points that compare functions.
use reporigor.Dry.Limits.{Floats, DryError, DryConfig, work_budget, validate_enhanced_limits}
use reporigor.Dry.Tokens.{TokenRecord, slice}
use reporigor.Dry.Fingerprint.{stable_token_fingerprint}
use reporigor.Dry.Locations.{Location, Duplicate, compare_location_output, compare_duplicates}
use reporigor.Dry.Identity.{normalized_evidence, exact_clone_group_id, exact_duplicate}
use reporigor.Dry.Select.{select_independent_exact_groups, limit_groups}
use reporigor.Dry.Exact.{TokenMap, find_with_hasher}
use reporigor.Dry.Functions.{FunctionRecord, EligibleFunction, eligible_functions, function_groups}
use reporigor.Dry.CandidatePairs.{function_components}
use reporigor.Dry.Pairs.{component_members, component_similarities}
use reporigor.Prelude.Order.{nat_ord, list_ord, pair_ord, lookup, map_insert, sort_with}
use reporigor.Prelude.{
  ℕ, ◌-◌, Bool, ◌&&◌, Option, none, some, List, [], ◌∷◌, ◌++◌, map, ltb, leb, ◌==◌, if◌then◌else◌,
  u64_max, length, Text, text_eq, Result, ◌>>=◌, ◌>>◌, ok,
}

abbrev pub EvidenceKey : Type 0
EvidenceKey = ℕ × Text

-- `file_tokens.get(start..end)`
abbrev pub range_of : List TokenRecord → ℕ → ℕ → Option (List TokenRecord)
range_of tokens start end = if leb start end then slice tokens start (end - start) else none

unfoldable pub exact_location_evidence : TokenMap → Location → Option Text
unfolding lookup
exact_location_evidence tokens location = elim (lookup location.file tokens) [
  | none ↦ none
  | some file_tokens ↦ elim (range_of file_tokens location.start_token location.end_token) [
    | none ↦ none
    | some values ↦ some (normalized_evidence (map (λ (token : TokenRecord). token.value) values))
  ]
]

-- The evidence of the first location, if there are both.
abbrev pub first_evidence : TokenMap → List Location → Option Text
first_evidence tokens [] = none
first_evidence tokens (first ∷ _) = exact_location_evidence tokens first

-- One round of the first loop of `exact_fallback_groups`; an `ExactGroup` is its locations, for its
-- other fields are the key.
unfoldable pub group_exact :
    TokenMap → Duplicate → List (EvidenceKey × List Location) → List (EvidenceKey × List Location)
unfolding exact_location_evidence lookup map_insert
group_exact tokens duplicate grouped = elim (first_evidence tokens duplicate.locations) [
  | none ↦ grouped
  | some evidence ↦ elim (lookup (duplicate.token_count, evidence) grouped) [
    | none ↦ map_insert (duplicate.token_count, evidence) duplicate.locations grouped
    | some locations ↦
        map_insert (duplicate.token_count, evidence) (locations ++ duplicate.locations) grouped
  ]
]

unfoldable pub group_all :
    TokenMap
    → List Duplicate
    → List (EvidenceKey × List Location)
    → List (EvidenceKey × List Location)
unfolding group_exact
group_all tokens [] grouped = grouped
group_all tokens (duplicate ∷ exact) grouped =
    group_all tokens exact (group_exact tokens duplicate grouped)

abbrev pub same_location : Location → Location → Bool
same_location left right =
    text_eq left.file right.file
    && left.start_token == right.start_token
    && left.end_token == right.end_token

-- `dedup_by`: a location goes if it is the same as the last one that was kept.
unfoldable pub dedup_after : Location → List Location → List Location
dedup_after last [] = []
dedup_after last (location ∷ locations) =
    let dropped = dedup_after last locations in
    let kept = dedup_after location locations in
    if same_location location last then dropped else location ∷ kept

unfoldable pub dedup_locations : List Location → List Location
unfolding dedup_after
dedup_locations [] = []
dedup_locations (location ∷ locations) = location ∷ dedup_after location locations

module _ (sha256 : Text → Text) where
  -- The second loop of `exact_fallback_groups`.
  unfoldable pub exact_groups : List (EvidenceKey × List Location) → List Duplicate
  unfolding dedup_locations compare_location_output exact_clone_group_id exact_duplicate
  exact_groups [] = []
  exact_groups (((token_count, evidence), locations) ∷ grouped) =
      let rest = exact_groups grouped in
      let distinct = dedup_locations (sort_with compare_location_output locations) in
      if ltb (length distinct) 2
      then rest
      else exact_duplicate token_count distinct (exact_clone_group_id sha256 distinct evidence)
        ∷ rest

  unfoldable pub exact_fallback_groups : List Duplicate → TokenMap → List Duplicate
  unfolding group_all exact_groups compare_duplicates select_independent_exact_groups
  exact_fallback_groups exact tokens =
      select_independent_exact_groups
        (sort_with compare_duplicates (exact_groups (group_all tokens exact [])))

  module _ (f : Floats) where
    unfoldable pub find_function_duplicates :
        List FunctionRecord → DryConfig → Result DryError (List Duplicate)
    unfolding eligible_functions function_components component_members component_similarities
        function_groups
    find_function_duplicates functions config =
        let eligible = eligible_functions functions config in
        let tokens = map (λ (e : EligibleFunction). e.function.normalized_tokens) eligible in
        (do
          ((components, accepted), _) ← function_components f tokens config
          let (members, looked_at) = component_members (length eligible) components
          let similarities = (component_similarities f accepted looked_at []).0
          ok (function_groups sha256 eligible members similarities))

    unfoldable pub checked_function_groups :
        List FunctionRecord → DryConfig → Result DryError (List Duplicate)
    unfolding validate_enhanced_limits find_function_duplicates
    checked_function_groups functions config =
        validate_enhanced_limits f config >> find_function_duplicates functions config

    analyze_functions : List FunctionRecord → DryConfig → Result DryError (List Duplicate)
    unfolding checked_function_groups limit_groups
    analyze_functions functions config = do
      groups ← checked_function_groups functions config
      ok (limit_groups groups config.max_groups)

    analyze_with_functions :
        TokenMap → List FunctionRecord → DryConfig → Result DryError (List Duplicate)
    unfolding checked_function_groups find_with_hasher exact_fallback_groups limit_groups
    analyze_with_functions tokens functions config = do
      groups ← checked_function_groups functions config
      exact ←
          find_with_hasher sha256
            (record {
              min_tokens = config.min_tokens;
              max_groups = u64_max;
              max_occurrences_per_window = config.max_occurrences_per_window;
            })
            tokens (work_budget config) stable_token_fingerprint
      ok (limit_groups (groups ++ exact_fallback_groups exact tokens) config.max_groups)
