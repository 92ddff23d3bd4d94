-- ===== src/Dry/CandidatePairs/Connected.antt =====
-- The components of the functions, from their tokens to the accepted pairs and the members.
use reporigor.Dry.Limits.{Floats, DryConfig, CandidateWork, work_budget}
use reporigor.Dry.DisjointSet.{DisjointSet, root}
use reporigor.Dry.DisjointSet.Classes.{Connected, Represents, root_iff-Connected}
use reporigor.Dry.Pairs.{AcceptedPair, component_members}
use reporigor.Dry.Pairs.Members.{members_of, nodes_of, component_members_lem}
use reporigor.Dry.Pairs.Components.{Accepted, accept_function_pairs-Represents}
use reporigor.Dry.Shingles.{build_function_shingle_index}
use reporigor.Dry.CandidatePairs.{function_components, function_candidate_pairs}
use reporigor.Dry.CandidatePairs.Inside.{
  build_function_shingle_index-Inside, function_candidate_pairs-Inside,
}
use reporigor.Prelude.{ℕ, ◌≡◌, ◌↔◌, List, length, Text, >>=-eq-ok, ok}

module _ (f : Floats) (tokens : List (List Text)) (config : DryConfig) {components : DisjointSet}
    {accepted : List AcceptedPair} {w : CandidateWork}
    (e : function_components f tokens config ≡ ok ((components, accepted), w)) where
  components-Represents : Represents components (length tokens) (Accepted accepted)
  unfolding function_components
  components-Represents =
      let n = length tokens in
      let threshold = config.similarity_threshold in
      let ((shingles, indexed), built, e1) =
        >>=-eq-ok
          (build_function_shingle_index tokens config.shingle_tokens
            config.max_occurrences_per_window (work_budget config)
            (record { used = 0; limit = config.max_candidate_work }))
          _ e in
      let ((candidates, work), found, e2) =
        >>=-eq-ok (function_candidate_pairs f indexed.index shingles threshold indexed.work) _ e1 in
      let known =
        build_function_shingle_index-Inside tokens config.shingle_tokens
          config.max_occurrences_per_window (work_budget config) _ built in
      let inside =
        function_candidate_pairs-Inside n f shingles threshold indexed.index indexed.work known
          found in
      accept_function_pairs-Represents f n shingles threshold candidates work inside e2

  -- If the comparison of the functions succeeds: two functions have the same root exactly when a
  -- chain of accepted pairs connects them.
  pub function_components-Connected :
      (i j : ℕ)
      → ((root components i).0 ≡ (root components j).0) ↔ Connected (Accepted accepted) i j
  function_components-Connected i j =
      root_iff-Connected components (length tokens) (Accepted accepted) i j components-Represents

  -- If the comparison of the functions succeeds: the members under a root are the functions that have
  -- it, each once and in ascending order.
  pub component_members-nodes :
      (r : ℕ)
      → members_of r (component_members (length tokens) components).0
        ≡ nodes_of components r (length tokens) 0
  component_members-nodes r =
      component_members_lem components components-Represents.forest (length tokens) r
