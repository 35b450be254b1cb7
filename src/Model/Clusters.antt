-- ===== src/Model/Clusters.antt =====
-- Cluster membership, candidates and results (src/ere/models/resolver/cluster.py and state.py).
use entity_resolution_engine.Base.{ℕ, String, List, [], ◌∷◌, map}
use entity_resolution_engine.Base.Dict.{Dict}
use entity_resolution_engine.Model.Errors.{Result, ok, raise, value_error}
use entity_resolution_engine.Model.Mentions.{MentionId, ClusterId}
use entity_resolution_engine.Model.Links.{Score}

pub record ClusterMembership : Type 0 where
  pub mention_id : MentionId
  pub cluster_id : ClusterId

pub record CandidateCluster : Type 0 where
  pub cluster_id : ClusterId
  pub score : Score

-- CandidateCluster.as_tuple
unfoldable pub as_tuple : CandidateCluster → String × Score
as_tuple c = (c.cluster_id.value, c.score)

-- The tuple `candidates` is never empty, so it is kept as its head, `top`, and the others.
pub record ResolutionResult : Type 0 where
  pub top : CandidateCluster
  pub others : List CandidateCluster

abbrev pub candidates : ResolutionResult → List CandidateCluster
candidates r = r.top ∷ r.others

-- ResolutionResult(candidates=...) with `_must_be_non_empty`
unfoldable pub resolution_result : List CandidateCluster → Result ResolutionResult
resolution_result [] =
    raise (value_error "ValidationError" "ResolutionResult candidates must be non-empty")
resolution_result (c ∷ cs) = ok (record { top = c; others = cs })

-- ResolutionResult.as_tuples
unfoldable pub as_tuples : ResolutionResult → List (String × Score)
unfolding as_tuple
as_tuples r = map as_tuple (candidates r)

pub record ResolverState : Type 0 where
  pub mention_count : ℕ
  pub similarity_count : ℕ
  pub cluster_count : ℕ
  pub cluster_membership : Dict ClusterId (List MentionId)

-- the entries of `ResolverState.as_dict` under "cluster_membership"
unfoldable pub membership_dict : ResolverState → Dict String (List String)
membership_dict s = map (λ e. (e.0.value, map (λ m. m.value) e.1)) s.cluster_membership
