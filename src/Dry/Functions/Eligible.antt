-- ===== src/Dry/Functions/Eligible.antt =====
-- The functions that are compared: what they satisfy, and that none is compared with itself.
use reporigor.Dry.Limits.{DryConfig}
use reporigor.Dry.Functions.{
  FunctionRecord, EligibleFunction, eligible_functions, retain_physical, is_candidate,
  eligible_function, same_physical, compare_eligible,
}
use reporigor.Prelude.Order.{All-sort_with, sort_with}
use reporigor.Prelude.{
  ◌≤◌, ◌<◌, ◌≡◌, refl, inl, inr, true, false, List, [], ◌∷◌, map, arith, Bool-cases, length, any,
  keep, All,
}

-- The record passed the filter, and the other fields are its own.
pub record IsEligible (config : DryConfig) (e : EligibleFunction) : Type 0 where
  pub reliable : e.function.structural_metrics_reliable ≡ true
  pub lines : (0 < e.function.start_line) × (e.function.start_line ≤ e.function.end_line)
  pub long :
      (0 < length e.function.normalized_tokens)
      × (config.min_tokens ≤ length e.function.normalized_tokens)
  pub statements : config.min_statements ≤ e.function.statement_count
  pub derived : e ≡ eligible_function e.function

is_candidate-IsEligible :
    (config : DryConfig) (f : FunctionRecord)
    → is_candidate config f ≡ true
    → IsEligible config (eligible_function f)
unfolding is_candidate
is_candidate-IsEligible config f h = record {
  reliable = ground (arith, h);
  lines = ground (arith, h);
  long = ground (arith, h);
  statements = ground (arith, h);
  derived = refl;
}

All-candidates :
    (config : DryConfig) (fs : List FunctionRecord)
    → All (IsEligible config) (map eligible_function (keep (is_candidate config) fs))
All-candidates config [] = tt
All-candidates config (f ∷ fs) = elim (Bool-cases (is_candidate config f)) [
  | inl pass ↦ rw pass (is_candidate-IsEligible config f pass, All-candidates config fs)
  | inr fail ↦ rw fail (All-candidates config fs)
]

All-retain_physical :
    (P : EligibleFunction → Type 0) (seen fs : List EligibleFunction)
    → All P fs
    → All P (retain_physical seen fs)
unfolding retain_physical
All-retain_physical P seen [] h = tt
All-retain_physical P seen (f ∷ fs) h = elim (Bool-cases (any (same_physical f) seen)) [
  | inl known ↦ rw known (All-retain_physical P seen fs h.1)
  | inr new ↦ rw new (h.0, All-retain_physical P (f ∷ seen) fs h.1)
]

-- No function is the same physical one as any of `seen`, nor as one before it.
abbrev pub Distinct : List EligibleFunction → List EligibleFunction → Type 0
Distinct seen [] = Unit
Distinct seen (f ∷ fs) = (any (same_physical f) seen ≡ false) × Distinct (f ∷ seen) fs

retain_physical-Distinct :
    (seen fs : List EligibleFunction) → Distinct seen (retain_physical seen fs)
unfolding retain_physical
retain_physical-Distinct seen [] = tt
retain_physical-Distinct seen (f ∷ fs) = elim (Bool-cases (any (same_physical f) seen)) [
  | inl known ↦ rw known (retain_physical-Distinct seen fs)
  | inr new ↦ rw new (new, retain_physical-Distinct (f ∷ seen) fs)
]

-- Every function that is compared is reliable, has positive ordered lines, and as many tokens and
-- statements as the configuration asks for; no two of them have the same path, lines and tokens.
pub eligible_functions-IsEligible :
    (functions : List FunctionRecord) (config : DryConfig)
    → All (IsEligible config) (eligible_functions functions config)
      × Distinct [] (eligible_functions functions config)
unfolding eligible_functions
eligible_functions-IsEligible functions config =
    let found = map eligible_function (keep (is_candidate config) functions) in
    (
      All-retain_physical (IsEligible config) [] (sort_with compare_eligible found) (
          All-sort_with compare_eligible (IsEligible config) found
            (All-candidates config functions)),
      retain_physical-Distinct [] (sort_with compare_eligible found),
    )
