-- ===== src/Tests/Runs.antt =====
-- The resolver, run on two mentions, and its results applied to the run.
use entity_resolution_engine.Base.{
  [], ◌∷◌, ◌≡◌, ◌≢◌, ◌⊎◌, refl, length, String-discrete, ℕ_discrete,
}
use entity_resolution_engine.Base.Dict.{get, put}
use entity_resolution_engine.Model.Errors.{Exception, ok, raise}
use entity_resolution_engine.Model.Mentions.{MentionId-discrete, ClusterId-discrete}
use entity_resolution_engine.World.{◌>>=◌, pure, call, select, insert, lift}
use entity_resolution_engine.Repositories.Transactions.{duckdb, within}
use entity_resolution_engine.Repositories.Mentions
use entity_resolution_engine.Repositories.Similarities
use entity_resolution_engine.Repositories.Clusters
use entity_resolution_engine.Resolver.Bite.{
  save_mentions, save_clusters, find_matches_batch, resolve_bite,
}
use entity_resolution_engine.Resolver.Batch.{
  resolve_batch, emit_stages, start_thread, maybe_start_training, or_disabled,
}
use entity_resolution_engine.Resolver.Batch.Atomic.{Unstarted, resolve_batch-atomic}
use entity_resolution_engine.Resolver.Batch.Success.{
  Success, resolve_batch-Success, resolve_batch-IsConsistent,
}
use entity_resolution_engine.World.Keeps.{outside}
use entity_resolution_engine.Resolver.Consistency.{IsConsistent, IsFresh}
use entity_resolution_engine.Resolver.Visit.{visit_all, visit, visit_links, links_at}
use entity_resolution_engine.Resolver.Earlier.{links_to_earlier}
use entity_resolution_engine.Resolver.Bite.{outside_ids, to_link_table, assigned}
use entity_resolution_engine.Resolver.Ranking.{rank_candidates, best_links}
use entity_resolution_engine.Resolver.Assignment.{assign_cluster}
use entity_resolution_engine.Repositories.Rows.{cluster_of, clusters_among}
use entity_resolution_engine.Tests.Data.{
  different, config, acme, acme_ltd, bite, new_world, platform, broken, unstartable, results,
}

-- What the bite does when every call answers, when the third one fails, and when no thread starts.
runs :
    ((resolve_batch platform config duckdb bite [] new_world).0 ≡ ok results)
    × ((resolve_batch broken config duckdb bite [] new_world).0
        ≡ raise (Exception.other "IOException" "disk full"))
    × ((resolve_batch unstartable config duckdb bite [] new_world).0
        ≡ raise (Exception.other "RuntimeError" "can't start new thread"))
unfolding String-discrete MentionId-discrete ClusterId-discrete ◌>>=◌ pure call select insert lift
    within Mentions.save Mentions.count Similarities.save_rows Similarities.save_table Clusters.save
    Clusters.clusters_for save_mentions save_clusters find_matches_batch resolve_bite resolve_batch
    emit_stages start_thread maybe_start_training or_disabled visit_all visit visit_links links_at
    links_to_earlier outside_ids to_link_table assigned rank_candidates best_links assign_cluster
    clusters_among get put ℕ_discrete
runs = (refl, refl, refl)

new_world-IsConsistent : IsConsistent new_world.tables
new_world-IsConsistent = record { same_ids = refl; distinct = tt; founded = tt }

apart : acme.id ≢ acme_ltd.id
unfolding MentionId-discrete String-discrete
apart = different acme.id acme_ltd.id refl

bite-IsFresh : IsFresh new_world.tables bite
unfolding cluster_of get String-discrete
bite-IsFresh = record {
  apart = ((apart, tt), (tt, tt));
  unknown = (refl, (refl, tt));
  plain = (refl, (refl, tt));
}

resolve_batch-atomic_example :
    (((resolve_batch broken config duckdb bite [] new_world).1.tables ≡ new_world.tables)
      × (outside (resolve_batch broken config duckdb bite [] new_world).1 ≡ outside new_world))
    ⊎ Unstarted broken config bite [] new_world
        (Exception.other "IOException" "disk full")
        (resolve_batch broken config duckdb bite [] new_world).1
resolve_batch-atomic_example = resolve_batch-atomic broken config bite [] new_world runs.1

resolve_batch-IsConsistent_example :
    IsConsistent (resolve_batch platform config duckdb bite [] new_world).1.tables
    × (length results ≡ length bite)
resolve_batch-IsConsistent_example =
    resolve_batch-IsConsistent platform config bite [] new_world runs.0 new_world-IsConsistent
      bite-IsFresh (λ h. absurd (h refl))

resolve_batch-Success_example :
    Success platform config bite [] new_world results
      (resolve_batch platform config duckdb bite [] new_world).1
resolve_batch-Success_example =
    resolve_batch-Success platform config acme (acme_ltd ∷ []) [] new_world runs.0
