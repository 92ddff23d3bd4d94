-- ===== src/Core/SourceBudget/Samples.antt =====
-- Concrete source sets.
use reporigor.Core.SourceBudget.{
  observe_mutation_source_budget, observe_each, observe_mutation_source, observe, new,
  source_too_large, source_missing, SourceAnswer, regular_file, absent,
}
use reporigor.Prelude.{◌*◌, ◌≡◌, refl, ◌↔◌, [], ◌∷◌, Text, codes, ok, err}
use reporigor.Core.SourceBudget.Laws.{IsAcceptable, observe_mutation_source_budget_iff}

abbrev sizes : Text → SourceAnswer
sizes (c ∷ []) = regular_file (c * 1000)
sizes _ = absent

small_set :
    (observe_mutation_source_budget sizes (codes "a" ∷ codes "b" ∷ []) 200_000 ≡ ok tt)
    × (observe_mutation_source_budget sizes (codes "a" ∷ []) 96_999
        ≡ err (source_too_large (codes "a") 97_000 96_999))
    × (observe_mutation_source_budget sizes (codes "ab" ∷ []) 9 ≡ err (source_missing (codes "ab")))
unfolding observe_mutation_source_budget observe_each observe_mutation_source observe new
small_set = (refl, refl, refl)

observe_mutation_source_budget_iff_example :
    (observe_mutation_source_budget sizes (codes "a" ∷ codes "b" ∷ []) 200_000 ≡ ok tt)
    ↔ IsAcceptable sizes 200_000 (codes "a" ∷ codes "b" ∷ [])
observe_mutation_source_budget_iff_example =
    observe_mutation_source_budget_iff sizes (codes "a" ∷ codes "b" ∷ []) 200_000
