-- ===== src/Tests/Snapshots.antt =====
-- A snapshot of a database with two mentions in one cluster.
use Prim.Native.String
use entity_resolution_engine.Base.{String, some, List, [], ◌∷◌, length, ◌≡◌, refl}
use entity_resolution_engine.Base.Ranked.{sort_desc, sort_desc-perm}
use entity_resolution_engine.Base.Dict.{put}
use entity_resolution_engine.Model.Errors.{ok}
use entity_resolution_engine.Model.Mentions.{ClusterId-discrete}
use entity_resolution_engine.Model.Clusters.{ResolverState}
use entity_resolution_engine.World.{World, ◌>>=◌, pure, call, select}
use entity_resolution_engine.Repositories.Mentions
use entity_resolution_engine.Repositories.Similarities
use entity_resolution_engine.Repositories.Clusters
use entity_resolution_engine.Repositories.Rows.{add_new, distinct_clusters}
use entity_resolution_engine.Resolver.Snapshot.{gather, get_all_memberships, members, state}
use entity_resolution_engine.Resolver.Snapshot.Listed.{ListsAll, state-ListsAll}
use entity_resolution_engine.Tests.Data.{cluster_id, mention_id, new_world, platform}

-- the longest key first
abbrev order_by : (A : Type 0) → (A → String) → List A → List A
order_by A key xs = sort_desc (λ x. String.len (key x)) xs

abbrev stored : World
stored = record new_world {
  tables = record {
    mentions =
        record { mention_id = some "m1"; values = some "Acme" ∷ [] }
        ∷ record { mention_id = some "m22"; values = some "Acme Ltd" ∷ [] }
        ∷ [];
    similarities = record { left_id = "m1"; right_id = "m22"; match_probability = 90 } ∷ [];
    clusters =
        record { mention_id = mention_id "m1"; cluster_id = cluster_id "m1" }
        ∷ record { mention_id = mention_id "m22"; cluster_id = cluster_id "m1" }
        ∷ [];
  };
}

abbrev snapshot : ResolverState
snapshot = record {
  mention_count = 2;
  similarity_count = 1;
  cluster_count = 1;
  cluster_membership = (cluster_id "m1", mention_id "m22" ∷ mention_id "m1" ∷ []) ∷ [];
}

snapshot_taken : (state platform order_by stored).0 ≡ ok snapshot
unfolding state get_all_memberships gather members distinct_clusters add_new put sort_desc
    Mentions.count Similarities.count Clusters.count pure select call ◌>>=◌ ClusterId-discrete
snapshot_taken = refl

state-ListsAll_example :
    (snapshot.mention_count ≡ length stored.tables.mentions)
    × (snapshot.similarity_count ≡ length stored.tables.similarities)
    × ListsAll stored.tables.clusters snapshot.cluster_membership
    × ((state platform order_by stored).1.tables ≡ stored.tables)
state-ListsAll_example =
    state-ListsAll platform order_by (λ A key xs. sort_desc-perm (λ x. String.len (key x)) xs)
      stored snapshot_taken
