-- ===== src/Mutate/Summary/Samples.antt =====
-- One result of each of three statuses.
use reporigor.Mutate.Summary.{mutation_score, from_results, summary_score}
use reporigor.Mutate.Model.{MutationStatus, MutationResult, bash}
use reporigor.Mutate.Summary.Laws.{
  from_results-partitions, summary_score-mutation_score, counted, count_of, status_eq,
}
use reporigor.Prelude.{◌≡◌, refl, none, some, List, [], ◌∷◌, arith, count_if}

abbrev one : MutationStatus → MutationResult
one status = record {
  mutation = record {
    id = 1;
    language = bash;
    file = [];
    stable_symbol = [];
    operator = [];
    fingerprint = [];
    line = 1;
    column = 1;
    original = [];
    replacement = [];
    start_byte = 0;
    end_byte = 0;
  };
  status = status;
  exit_code = none;
  detail = none;
}

abbrev three_results : List MutationResult
three_results =
    one MutationStatus.killed ∷ one MutationStatus.timeout ∷ one MutationStatus.survived ∷ []

from_results-partitions_example :
    (counted (from_results three_results) ≡ 3)
    × ((from_results three_results).total ≡ 3)
    × ((t : MutationStatus)
        → count_of (from_results three_results) t
          ≡ count_if (λ r. status_eq r.status t) three_results)
from_results-partitions_example = from_results-partitions three_results

summary_score-mutation_score_example :
    summary_score (from_results three_results) ≡ mutation_score three_results
summary_score-mutation_score_example = summary_score-mutation_score three_results (omega arith)

three_score : mutation_score three_results ≡ some (1, 2)
unfolding mutation_score
three_score = refl
