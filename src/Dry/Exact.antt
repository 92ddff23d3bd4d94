-- ===== src/Dry/Exact.antt =====
-- crates/analysis-dry/src/lib.rs: the exact analysis, from the index of windows to the groups.
pub mod Sound
mod Samples
use reporigor.Dry.Limits.{
  DryError, DryConfig, DryWorkBudget, WorkBudgetKind, work_budget, ensure_within_budget,
  validate_limits, count_windows, fingerprint_index_capacity, CandidateWork, fingerprint_buckets,
}
use reporigor.Dry.Tokens.{TokenRecord}
use reporigor.Dry.Fingerprint.{Fingerprint, for_each_fingerprinted_window, stable_token_fingerprint}
use reporigor.Dry.Locations.{Duplicate}
use reporigor.Dry.Candidates.{CandidateBuilder, Occurrence, build}
use reporigor.Dry.Select.{select_candidates}
use reporigor.Prelude.{
  ℕ, ◌+◌, Bool, ◌&&◌, Option, none, some, List, [], ◌∷◌, ◌++◌, map, ltb, ◌==◌, if◌then◌else◌,
  saturating_add, length, Text, Result, ◌>>=◌, ◌>>◌, ok,
}

-- The keys ascend, as those of a `BTreeMap`.
abbrev pub TokenMap : Type 0
TokenMap = List (Text × List TokenRecord)

-- The hash map of windows; its order is that of insertion, and is not looked at.
abbrev pub WindowIndex : Type 0
WindowIndex = List (Fingerprint × List Occurrence)

abbrev pub same_fingerprint : Fingerprint → Fingerprint → Bool
same_fingerprint a b = a.first == b.first && a.second == b.second

-- `windows.entry(key)`
unfoldable pub find_bucket : Fingerprint → WindowIndex → Option (List Occurrence)
find_bucket key [] = none
find_bucket key ((other, occurrences) ∷ windows) =
    if same_fingerprint other key then some occurrences else find_bucket key windows

unfoldable pub set_bucket : Fingerprint → List Occurrence → WindowIndex → WindowIndex
set_bucket key occurrences [] = (key, occurrences) ∷ []
set_bucket key occurrences ((other, old) ∷ windows) =
    if same_fingerprint other key
    then (key, occurrences) ∷ windows
    else (other, old) ∷ set_bucket key occurrences windows

-- `if occurrences.len() < max { occurrences.push(..) }`
abbrev pub push_capped : ℕ → Occurrence → List Occurrence → List Occurrence
push_capped most occurrence occurrences =
    if ltb (length occurrences) most then occurrences ++ (occurrence ∷ []) else occurrences

-- The closure that `build_window_index` gives to `for_each_fingerprinted_window`.
unfoldable pub accept_window :
    ℕ → ℕ → DryWorkBudget → ℕ → Fingerprint → WindowIndex → Result DryError WindowIndex
unfolding find_bucket set_bucket ensure_within_budget
accept_window most file_index budget start key windows =
    let occurrence : Occurrence = record { file_index = file_index; start = start } in
    elim (find_bucket key windows) [
      | some occurrences ↦ ok (set_bucket key (push_capped most occurrence occurrences) windows)
      | none ↦ do
        ensure_within_budget fingerprint_buckets budget.max_fingerprint_buckets
            (saturating_add (length windows) 1)
        ok (set_bucket key (push_capped most occurrence []) windows)
    ]

-- The loop over the files, from an index on.
unfoldable pub index_files :
    ℕ
    → ℕ
    → DryWorkBudget
    → (Text → Fingerprint)
    → ℕ
    → List (List TokenRecord)
    → WindowIndex
    → Result DryError WindowIndex
unfolding accept_window for_each_fingerprinted_window
index_files min_tokens most budget token_hasher file_index [] windows = ok windows
index_files min_tokens most budget token_hasher file_index (tokens ∷ rest) windows = do
  indexed ←
      for_each_fingerprinted_window tokens min_tokens
        (λ (token : TokenRecord). token_hasher token.value) (accept_window most file_index budget)
        windows
  index_files min_tokens most budget token_hasher (file_index + 1) rest indexed

unfoldable pub build_window_index :
    List (List TokenRecord)
    → ℕ
    → ℕ
    → DryWorkBudget
    → (Text → Fingerprint)
    → Result DryError WindowIndex
unfolding index_files count_windows fingerprint_index_capacity
build_window_index token_sets min_tokens most budget token_hasher = do
  _ ← fingerprint_index_capacity (count_windows token_sets min_tokens) budget
  index_files min_tokens most budget token_hasher 0 token_sets []

abbrev pub files_of : TokenMap → List Text
files_of = map (λ (entry : Text × List TokenRecord). entry.0)

abbrev pub token_sets_of : TokenMap → List (List TokenRecord)
token_sets_of = map (λ (entry : Text × List TokenRecord). entry.1)

pub record ExactOptions : Type 0 where
  pub min_tokens : ℕ
  pub max_groups : ℕ
  pub max_occurrences_per_window : ℕ

-- `CandidateBuilder::new`
abbrev pub new_builder : TokenMap → ℕ → ℕ → CandidateBuilder
new_builder token_map min_tokens max_candidate_work = record {
  files = files_of token_map;
  token_sets = token_sets_of token_map;
  min_tokens = min_tokens;
  candidates = [];
  extended_regions = [];
  work = record { used = 0; limit = max_candidate_work };
}

module _ (sha256 : Text → Text) where
  unfoldable pub find_with_hasher :
      ExactOptions
      → TokenMap
      → DryWorkBudget
      → (Text → Fingerprint)
      → Result DryError (List Duplicate)
  unfolding build_window_index build select_candidates
  find_with_hasher options token_map budget token_hasher = do
    windows ←
        build_window_index (token_sets_of token_map) options.min_tokens
          options.max_occurrences_per_window budget token_hasher
    candidates ←
        build sha256 (new_builder token_map options.min_tokens budget.max_candidate_work) windows
    ok (select_candidates candidates options.max_groups)

  unfoldable pub find_duplicates_with_budget :
      TokenMap → ℕ → ℕ → ℕ → DryWorkBudget → Result DryError (List Duplicate)
  unfolding validate_limits find_with_hasher
  find_duplicates_with_budget tokens min_tokens max_groups max_occurrences_per_window budget = do
    validate_limits min_tokens max_groups max_occurrences_per_window budget
    find_with_hasher
        (record {
          min_tokens = min_tokens;
          max_groups = max_groups;
          max_occurrences_per_window = max_occurrences_per_window;
        })
        tokens budget stable_token_fingerprint

  unfoldable pub analyze : TokenMap → DryConfig → Result DryError (List Duplicate)
  unfolding find_duplicates_with_budget
  analyze tokens config =
      find_duplicates_with_budget tokens config.min_tokens config.max_groups
        config.max_occurrences_per_window (work_budget config)
