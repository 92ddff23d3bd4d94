-- ===== src/Dry/Exact/Samples.antt =====
-- Two files that share five tokens.
use reporigor.Core.StableId.{stable_id, hex}
use reporigor.Dry.Fingerprint.{stable_token_fingerprint}
use reporigor.Dry.Limits.{DryConfig, consume, count_from}
use reporigor.Dry.Tokens.{TokenRecord}
use reporigor.Dry.Locations.{Location, Duplicate}
use reporigor.Dry.Exact.{TokenMap, analyze}
use reporigor.Dry.Exact.Sound.{IsReport, analyze-IsReport}
use reporigor.Prelude.Order.{
  sort_by, sort_with, insert_by, insert_with, cmp_list, cmp_pair, lookup, map_insert,
}
use reporigor.Prelude.{
  ℕ, ◌+◌, ◌≤◌, ◌≡◌, refl, false, none, some, List, [], ◌∷◌, Text, codes, text_eq, ok,
}

-- The identities do not matter here.
abbrev no_hash : Text → Text
no_hash _ = []

abbrev numbered : ℕ → List ℕ → List TokenRecord
numbered line [] = []
numbered line (byte ∷ bytes) =
    record { value = byte ∷ []; line = line; index = line } ∷ numbered (line + 1) bytes

abbrev tokens : TokenMap
tokens =
    (codes "a.rs", numbered 1 (codes "xabcde")) ∷ (codes "b.rs", numbered 1 (codes "abcdey")) ∷ []

abbrev config : DryConfig
config = record {
  min_tokens = 4;
  min_statements = 1;
  similarity_threshold = 920;
  shingle_tokens = 2;
  max_groups = 5;
  max_occurrences_per_window = 10;
  max_total_windows = 100;
  max_fingerprint_buckets = 100;
  max_candidate_work = 1000;
  fail = false;
}

abbrev at : Text → ℕ → Location
at file start = record {
  file = file;
  start_line = start + 1;
  end_line = start + 5;
  stable_symbol = none;
  start_token = start;
  end_token = start + 5;
}

abbrev found : List Duplicate
found =
    record {
      token_count = 5;
      locations = at (codes "a.rs") 1 ∷ at (codes "b.rs") 0 ∷ [];
      clone_group_id = some [];
      similarity = some 0x3ff0000000000000;
      statement_count = none;
      algorithm = some (codes "normalized-token-exact-v1");
    }
    ∷ []

-- The two windows of the five shared tokens give one maximal group.
one_group : analyze no_hash tokens config ≡ ok found
unfolding analyze consume text_eq sort_by sort_with insert_by insert_with lookup map_insert cmp_pair
    cmp_list count_from stable_token_fingerprint stable_id hex
one_group = refl

analyze-IsReport_example : (4 ≤ 4) × IsReport tokens 4 5 found
analyze-IsReport_example = analyze-IsReport no_hash tokens config one_group
