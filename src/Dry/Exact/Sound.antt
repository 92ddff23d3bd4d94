-- ===== src/Dry/Exact/Sound.antt =====
-- What the exact analysis reports.
use reporigor.Dry.Limits.{DryConfig, DryWorkBudget, validate_limits, work_budget}
use reporigor.Dry.Fingerprint.{Fingerprint, stable_token_fingerprint}
use reporigor.Dry.Locations.{Duplicate, contained_by}
use reporigor.Dry.Candidates.{build}
use reporigor.Dry.Candidates.Clone.{IsClone, Input}
use reporigor.Dry.Candidates.Sound.{build-IsClone}
use reporigor.Dry.Select.Laws.{
  NonRedundant, All-select_non_redundant, select_non_redundant-IsSelection,
}
use reporigor.Dry.Exact.{
  TokenMap, ExactOptions, find_with_hasher, build_window_index, new_builder, files_of,
  token_sets_of, analyze,
}
use reporigor.Prelude.{
  ℕ, ◌≤◌, ◌<◌, ◌≡◌, subst, List, [], arith, length, All, Text, >>=-eq-ok, ok_injective, ok,
}

abbrev pub input_of : TokenMap → ℕ → Input
input_of tokens min_tokens = record {
  files = files_of tokens;
  token_sets = token_sets_of tokens;
  min_tokens = min_tokens;
}

-- At most `limit` groups, all clones, and none contained in an earlier one.
pub record IsReport (tokens : TokenMap) (min_tokens limit : ℕ) (groups : List Duplicate)
    : Type 0 where
  pub limited : length groups ≤ limit
  pub clones : All (IsClone (input_of tokens min_tokens)) groups
  pub distinct : NonRedundant contained_by [] groups

-- Whatever fingerprints the hasher gives, a successful search reports only clones.
find_with_hasher-IsReport :
    (sha256 : Text → Text) (options : ExactOptions) (tokens : TokenMap) (budget : DryWorkBudget)
    (token_hasher : Text → Fingerprint) {groups : List Duplicate}
    → 0 < options.max_groups
    → find_with_hasher sha256 options tokens budget token_hasher ≡ ok groups
    → IsReport tokens options.min_tokens options.max_groups groups
unfolding find_with_hasher
find_with_hasher-IsReport sha256 options tokens budget token_hasher {groups} h e =
    let (windows, _, e1) =
      >>=-eq-ok
        (build_window_index (token_sets_of tokens) options.min_tokens
          options.max_occurrences_per_window budget token_hasher)
        _ e in
    let start = new_builder tokens options.min_tokens budget.max_candidate_work in
    let (candidates, built, e2) = >>=-eq-ok (build sha256 start windows) _ e1 in
    let chosen = ok_injective _ _ e2 in
    let clones = build-IsClone sha256 start windows tt built in
    let selection = select_non_redundant-IsSelection contained_by options.max_groups candidates h in
    subst (IsReport tokens options.min_tokens options.max_groups) chosen (record {
      limited = selection.limited;
      clones =
          All-select_non_redundant contained_by options.max_groups
            (IsClone (input_of tokens options.min_tokens)) candidates h clones;
      distinct = selection.distinct;
    })

validated :
    (min_tokens max_groups most : ℕ) (budget : DryWorkBudget)
    → validate_limits min_tokens max_groups most budget ≡ ok tt
    → (4 ≤ min_tokens) × (0 < max_groups)
unfolding validate_limits
validated min_tokens max_groups most budget e = ground arith

-- A successful analysis had a window of four tokens at least, and reports at most the configured
-- number of groups: clones of at least a window, none inside an earlier one.
pub analyze-IsReport :
    (sha256 : Text → Text) (tokens : TokenMap) (config : DryConfig) {groups : List Duplicate}
    → analyze sha256 tokens config ≡ ok groups
    → (4 ≤ config.min_tokens) × IsReport tokens config.min_tokens config.max_groups groups
unfolding analyze
analyze-IsReport sha256 tokens config e =
    let (done, valid, e1) =
      >>=-eq-ok
        (validate_limits config.min_tokens config.max_groups config.max_occurrences_per_window
          (work_budget config))
        _ e in
    let (long, some_groups) =
      validated config.min_tokens config.max_groups config.max_occurrences_per_window
        (work_budget config) valid in
    (
      long,
      find_with_hasher-IsReport sha256 _ tokens (work_budget config) stable_token_fingerprint
          some_groups e1,
    )
