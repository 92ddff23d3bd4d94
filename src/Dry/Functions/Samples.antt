-- ===== src/Dry/Functions/Samples.antt =====
-- Three records, of which one is found twice and one is too short.
use reporigor.Dry.Limits.{DryConfig}
use reporigor.Dry.Functions.{FunctionRecord, eligible_functions}
use reporigor.Dry.Functions.Eligible.{IsEligible, Distinct, eligible_functions-IsEligible}
use reporigor.Prelude.{true, false, List, [], ◌∷◌, All, codes}

abbrev config : DryConfig
config = record {
  min_tokens = 4;
  min_statements = 2;
  similarity_threshold = 920;
  shingle_tokens = 2;
  max_groups = 50;
  max_occurrences_per_window = 100;
  max_total_windows = 1000;
  max_fingerprint_buckets = 1000;
  max_candidate_work = 1000;
  fail = false;
}

abbrev long : FunctionRecord
long = record {
  name = codes "parse";
  file = codes "src/lib.rs";
  start_line = 10;
  end_line = 20;
  stable_symbol = [];
  statement_count = 3;
  normalized_tokens = codes "fn" ∷ codes "ID" ∷ codes "{" ∷ codes "}" ∷ [];
  structural_metrics_reliable = true;
}

abbrev records : List FunctionRecord
records = long ∷ record long { normalized_tokens = [] } ∷ long ∷ []

eligible_functions-IsEligible_example :
    All (IsEligible config) (eligible_functions records config)
    × Distinct [] (eligible_functions records config)
eligible_functions-IsEligible_example = eligible_functions-IsEligible records config
