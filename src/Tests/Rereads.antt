-- ===== src/Tests/Rereads.antt =====
-- A mention that is stored and requested again, and the results on reading applied to it.
use entity_resolution_engine.Base.{
  String, String-discrete, not_same, none, some, List, [], ◌∷◌, zip, ◌≡◌, ◌≢◌, refl,
}
use entity_resolution_engine.Base.Dict.{get, put}
use entity_resolution_engine.Model.Errors.{ok}
use entity_resolution_engine.Model.Mentions.{
  Mention, MentionId-discrete, ClusterId-discrete, Value-discrete, same_attributes,
}
use entity_resolution_engine.World.{
  World, ◌>>=◌, ◌>>◌, pure, throw, call, select, lift, attempt, record_stage,
}
use entity_resolution_engine.Repositories.Mentions
use entity_resolution_engine.Repositories.Similarities
use entity_resolution_engine.Repositories.Clusters
use entity_resolution_engine.Repositories.Rows.{
  cluster_of, clusters_among, first_mention, rows_of, links_of, links_about,
}
use entity_resolution_engine.Repositories.Reading.{save-find_by_id, HasFields}
use entity_resolution_engine.Resolver.Batch.{
  or_disabled, check_conflict, refuse_conflict, find_cluster_for, gen_cand, none_if_missing,
}
use entity_resolution_engine.Resolver.Others.{others}
use entity_resolution_engine.Resolver.Ranking.{rank_candidates, best_links}
use entity_resolution_engine.Service.Requests.{
  EreRequest, resolution, unsupported, resolved, failed, unsupported_error, put_at,
  resolution_response,
}
use entity_resolution_engine.Service.Collecting.{
  Collected, no_responses, refuse_earlier, conclude_guard, collect_one,
}
use entity_resolution_engine.Service.{
  stage_conflict, guard_outcome, prepare_mention, guard, collect, process_batch,
}
use entity_resolution_engine.Service.Reads.{process_batch-reads}
use entity_resolution_engine.Tests.Data.{acme, new_world, platform, cluster_id, mention_id}
use entity_resolution_engine.Tests.Serves.{service}

name_apart : ◌≢◌ {A = String} "mention_id" "name"
unfolding String-discrete
name_apart = not_same "mention_id" "name" refl

id_apart : ◌≢◌ {A = String} "id" "name"
unfolding String-discrete
id_apart = not_same "id" "name" refl

acme-HasFields : HasFields ("name" ∷ []) acme
acme-HasFields = record {
  named = refl;
  no_id = (id_apart, tt);
  distinct = ((name_apart, tt), (tt, tt));
}

unstored : rows_of acme.id new_world.tables.mentions ≡ []
unfolding rows_of
unstored = refl

save-find_by_id_example :
    ((Mentions.save platform ("name" ∷ []) acme
        >> Mentions.find_by_id platform ("name" ∷ []) acme.id)
      new_world).0
    ≡ ok (some acme)
save-find_by_id_example =
    save-find_by_id platform ("name" ∷ []) acme new_world acme-HasFields unstored refl refl

abbrev stored : World
stored = record new_world {
  tables = record {
    mentions = record { mention_id = some "m1"; values = some "Acme" ∷ [] } ∷ [];
    similarities = [];
    clusters = record { mention_id = mention_id "m1"; cluster_id = cluster_id "m1" } ∷ [];
  };
}

abbrev requests : List (EreRequest Mention)
requests = unsupported "EREPing" none ∷ resolution "r1" acme ∷ []

abbrev collected : Collected String
collected = record {
  pending = [];
  repeats = [];
  first_seen = [];
  responses =
      some (
        failed "unknown" "UnsupportedRequestType" "Unsupported request type"
          "EntityResolutionService does not handle EREPing")
      ∷ some (
          resolved "r1" "m1"
            (record { cluster_id = "m1"; confidence_score = 0; similarity_score = 0 } ∷ []))
      ∷ [];
}

guarded :
    (collect service 0 (zip requests (or_disabled requests [])) (no_responses 2) stored).0
    ≡ ok collected
unfolding String-discrete MentionId-discrete ClusterId-discrete Value-discrete ◌>>=◌ pure throw call
    select lift attempt record_stage Mentions.find_by_id Similarities.find_for
    Clusters.find_cluster_of Clusters.clusters_for Clusters.found_cluster cluster_of clusters_among
    first_mention rows_of links_of links_about check_conflict refuse_conflict find_cluster_for
    gen_cand none_if_missing others rank_candidates best_links same_attributes stage_conflict
    guard_outcome prepare_mention get put or_disabled no_responses collect guard refuse_earlier
    conclude_guard collect_one unsupported_error put_at resolution_response
guarded = refl

process_batch-reads_example : (process_batch service requests [] stored).1.tables ≡ stored.tables
process_batch-reads_example = process_batch-reads service requests [] stored guarded refl
