-- ===== src/Dry/CandidatePairs/Samples.antt =====
-- Three functions, of which the first two differ in one token.
use reporigor.Dry.Limits.{Floats, DryConfig, CandidateWork}
use reporigor.Dry.DisjointSet.{DisjointSet, root, find_root, compress}
use reporigor.Dry.DisjointSet.Classes.{Connected}
use reporigor.Dry.Pairs.Components.{Accepted}
use reporigor.Dry.CandidatePairs.{function_components}
use reporigor.Dry.Pairs.{component_members}
use reporigor.Dry.Pairs.Members.{members_of, nodes_of}
use reporigor.Dry.CandidatePairs.Connected.{function_components-Connected, component_members-nodes}
use reporigor.Prelude.Order.{sort_by, insert_by, cmp_pair, sort_with, insert_with}
use reporigor.Prelude.{
  ℕ, ◌*◌, ◌/◌, min, ◌≡◌, refl, ◌↔◌, true, false, List, [], ◌∷◌, map, ltb, leb, length, Text, codes,
  text_eq, ok,
}

abbrev thousandths : Floats
thousandths = record {
  is_finite = λ x. true;
  le = leb;
  lt = ltb;
  twice_ratio = λ shared total. 2000 * shared / total;
  smaller = min;
}

abbrev words : List ℕ → List Text
words = map (λ (byte : ℕ). byte ∷ [])

abbrev tokens : List (List Text)
tokens = words (codes "abcdefg") ∷ words (codes "abcdefx") ∷ words (codes "uvwxyz") ∷ []

abbrev config : DryConfig
config = record {
  min_tokens = 4;
  min_statements = 1;
  similarity_threshold = 800;
  shingle_tokens = 2;
  max_groups = 5;
  max_occurrences_per_window = 10;
  max_total_windows = 100;
  max_fingerprint_buckets = 100;
  max_candidate_work = 1000;
  fail = false;
}

abbrev components : DisjointSet
components = record { parents = 0 ∷ 0 ∷ 2 ∷ [] }

abbrev spent : CandidateWork
spent = record { used = 18; limit = 1000 }

one_pair :
    function_components thousandths tokens config ≡ ok ((components, (0, 1, 833) ∷ []), spent)
unfolding function_components text_eq sort_by insert_by cmp_pair sort_with insert_with root
    find_root compress
one_pair = refl

function_components-Connected_example :
    ((root components 0).0 ≡ (root components 1).0) ↔ Connected (Accepted ((0, 1, 833) ∷ [])) 0 1
function_components-Connected_example =
    function_components-Connected thousandths tokens config one_pair 0 1

first_two : members_of 0 (component_members 3 components).0 ≡ 0 ∷ 1 ∷ []
unfolding component_members members_of find_root compress
first_two = refl

component_members-nodes_example :
    members_of 0 (component_members (length tokens) components).0
    ≡ nodes_of components 0 (length tokens) 0
component_members-nodes_example = component_members-nodes thousandths tokens config one_pair 0
