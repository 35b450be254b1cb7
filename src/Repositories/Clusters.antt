-- ===== src/Repositories/Clusters.antt =====
-- DuckDBClusterRepository (src/ere/adapters/duckdb_repositories.py).
use entity_resolution_engine.Base.{ℕ, Option, none, some, List, [], ◌∷◌, ◌++◌, length}
use entity_resolution_engine.Base.Dict.{Dict}
use entity_resolution_engine.Model.Errors.{Result, ok, raise, key_error}
use entity_resolution_engine.Model.Mentions.{MentionId, ClusterId}
use entity_resolution_engine.Model.Clusters.{ClusterMembership}
use entity_resolution_engine.World.{Platform, Exec, ◌>>=◌, pure, lift, select, insert}
use entity_resolution_engine.Repositories.Rows.{cluster_of, clusters_among, distinct_clusters}

unfoldable pub found_cluster : MentionId → Option ClusterId → Result ClusterId
found_cluster m none = raise (key_error m.value)
found_cluster m (some c) = ok c

module _ (P : Platform) where
  unfoldable pub save : ClusterMembership → Exec (Unit {0})
  save c = insert P (λ t. record t { clusters = t.clusters ++ c ∷ [] })

  unfoldable pub find_cluster_of : MentionId → Exec ClusterId
  find_cluster_of m = do
    found ← select P (λ t. cluster_of m t.clusters)
    lift (found_cluster m found)

  -- no ids, no call
  unfoldable pub clusters_for : List MentionId → Exec (Dict MentionId ClusterId)
  clusters_for [] = pure []
  clusters_for (i ∷ ids) = select P (λ t. clusters_among (i ∷ ids) t.clusters [])

  unfoldable pub count : Exec ℕ
  count = select P (λ t. length (distinct_clusters t.clusters []))
