-- ===== src/Resolver/Snapshot.antt =====
-- `EntityResolver.state` (src/ere/services/entity_resolution_service.py) and `get_all_memberships` of the
-- cluster repository (src/ere/adapters/duckdb_repositories.py). ORDER BY is the database's.
pub mod Grouped
pub mod Listed
use entity_resolution_engine.Base.{String, List, [], ◌∷◌, ite}
use entity_resolution_engine.Base.Dict.{Dict, put}
use entity_resolution_engine.Model.Mentions.{MentionId, ClusterId, ClusterId-discrete}
use entity_resolution_engine.Model.Clusters.{ClusterMembership, ResolverState}
use entity_resolution_engine.World.{Platform, Exec, ◌>>=◌, pure, select}
use entity_resolution_engine.Repositories.Rows.{distinct_clusters}
use entity_resolution_engine.Repositories.Mentions
use entity_resolution_engine.Repositories.Similarities
use entity_resolution_engine.Repositories.Clusters

-- the mentions of one group of GROUP BY cluster_id
unfoldable pub members : ClusterId → List ClusterMembership → List MentionId
members c [] = []
members c (r ∷ rs) =
    ite (ClusterId-discrete r.cluster_id c) (r.mention_id ∷ members c rs) (members c rs)

-- for cluster_id_str, members_array in rows
unfoldable pub gather :
    (ClusterId → List MentionId)
    → List ClusterId
    → Dict ClusterId (List MentionId)
    → Dict ClusterId (List MentionId)
unfolding put
gather array [] memberships = memberships
gather array (c ∷ cs) memberships = gather array cs (put ClusterId-discrete c (array c) memberships)

module _ (P : Platform) (order_by : (A : Type 0) → (A → String) → List A → List A) where
  -- array_agg(mention_id ORDER BY mention_id)
  abbrev pub members_array : List ClusterMembership → ClusterId → List MentionId
  members_array rs c = order_by MentionId (λ m. m.value) (members c rs)

  -- DuckDBClusterRepository.get_all_memberships
  unfoldable pub get_all_memberships : Exec (Dict ClusterId (List MentionId))
  unfolding gather members distinct_clusters
  get_all_memberships = select P (λ t.
      gather (members_array t.clusters)
        (order_by ClusterId (λ c. c.value) (distinct_clusters t.clusters [])) [])

  -- EntityResolver.state
  unfoldable pub state : Exec ResolverState
  unfolding get_all_memberships
  state = do
    mentions ← Mentions.count P
    similarities ← Similarities.count P
    clusters ← Clusters.count P
    memberships ← get_all_memberships
    pure (record {
      mention_count = mentions;
      similarity_count = similarities;
      cluster_count = clusters;
      cluster_membership = memberships;
    })
