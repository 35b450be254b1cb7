-- ===== src/Tests/Serves.antt =====
-- The service, run on a request of another class, two requests and a repetition, and its results
-- applied to the run.
use entity_resolution_engine.Base.{
  ℕ, String, String-discrete, Option, none, some, List, [], ◌∷◌, ◌≡◌, refl, length, ◌<◌,
}
use entity_resolution_engine.Base.Dict.{get, put}
use entity_resolution_engine.Model.Errors.{ok}
use entity_resolution_engine.Model.Mentions.{
  Mention, MentionId-discrete, ClusterId-discrete, Value-discrete, same_attributes,
}
use entity_resolution_engine.World.{
  ◌>>=◌, pure, throw, call, select, insert, lift, attempt, record_stage,
}
use entity_resolution_engine.Repositories.Transactions.{duckdb, within}
use entity_resolution_engine.Repositories.Mentions
use entity_resolution_engine.Repositories.Similarities
use entity_resolution_engine.Repositories.Clusters
use entity_resolution_engine.Repositories.Rows.{
  cluster_of, clusters_among, first_mention, rows_of, links_of, links_about, link_row,
}
use entity_resolution_engine.Resolver.Bite.{
  save_mentions, save_clusters, find_matches_batch, resolve_bite, outside_ids, to_link_table,
  assigned,
}
use entity_resolution_engine.Resolver.Batch.{
  resolve_batch, emit_stages, start_thread, maybe_start_training, or_disabled, check_conflict,
  refuse_conflict, find_cluster_for, gen_cand, none_if_missing,
}
use entity_resolution_engine.Resolver.Others.{others}
use entity_resolution_engine.Resolver.Visit.{visit_all, visit, visit_links, links_at}
use entity_resolution_engine.Resolver.Earlier.{links_to_earlier}
use entity_resolution_engine.Resolver.Ranking.{rank_candidates, best_links}
use entity_resolution_engine.Resolver.Assignment.{assign_cluster}
use entity_resolution_engine.Service.Requests.{
  EreRequest, resolution, unsupported, EreResponse, resolved, failed, EntityResolutionService,
  ere_request_id, item, put_at, fill, traces_at, resolution_response, unexpected_error,
  unsupported_error,
}
use entity_resolution_engine.Service.Collecting.{
  no_responses, refuse_earlier, conclude_guard, collect_one,
}
use entity_resolution_engine.Service.{
  stage_conflict, guard_outcome, prepare_mention, guard, collect, settle, resolve_pending,
  respond_cached, cached_response, respond_repeats, process_batch, process_request,
}
use entity_resolution_engine.Service.Answers.{Answered}
use entity_resolution_engine.Service.Complete.{process_batch-answers, process_request-answers}
use entity_resolution_engine.Tests.Data.{config, acme, acme_ltd, new_world, platform}

abbrev pub service : EntityResolutionService Mention String
service = record {
  platform = platform;
  config = config;
  unit_of_work = duckdb;
  map_entity_mention_to_domain = ok;
  identified_by = λ m. m.id.value;
  str = λ e. "text";
}

abbrev requests : List (EreRequest Mention)
requests =
    resolution "r1" acme
    ∷ unsupported "EREPing" none
    ∷ resolution "r3" acme_ltd
    ∷ resolution "r4" acme
    ∷ []

abbrev responses : List (Option (EreResponse String))
responses =
    some (
      resolved "r1" "m1"
        (record { cluster_id = "m1"; confidence_score = 0; similarity_score = 0 } ∷ []))
    ∷ some (
        failed "unknown" "UnsupportedRequestType" "Unsupported request type"
          "EntityResolutionService does not handle EREPing")
    ∷ some (
        resolved "r3" "m2"
          (record { cluster_id = "m1"; confidence_score = 90; similarity_score = 90 } ∷ []))
    ∷ some (
        resolved "r4" "m1"
          (record { cluster_id = "m1"; confidence_score = 90; similarity_score = 90 } ∷ []))
    ∷ []

served : (process_batch service requests [] new_world).0 ≡ ok responses
unfolding String-discrete MentionId-discrete ClusterId-discrete ◌>>=◌ pure call select insert lift
    within Mentions.save Mentions.count Mentions.find_by_id Similarities.save_rows
    Similarities.save_table Similarities.find_for Clusters.save Clusters.find_cluster_of
    Clusters.clusters_for save_mentions save_clusters find_matches_batch resolve_bite resolve_batch
    emit_stages start_thread maybe_start_training or_disabled visit_all visit visit_links links_at
    links_to_earlier outside_ids to_link_table assigned rank_candidates best_links assign_cluster
    clusters_among get put throw attempt record_stage cluster_of check_conflict refuse_conflict
    find_cluster_for gen_cand none_if_missing others item put_at fill traces_at resolution_response
    unexpected_error unsupported_error no_responses refuse_earlier conclude_guard collect_one
    stage_conflict guard_outcome prepare_mention guard collect settle resolve_pending respond_cached
    cached_response respond_repeats process_batch same_attributes Value-discrete first_mention
    rows_of Clusters.found_cluster links_of links_about link_row
served = refl

process_batch-answers_example :
    (length responses ≡ length requests)
    × ((i : ℕ) → i < length requests → Answered requests responses i)
process_batch-answers_example =
    process_batch-answers service requests [] new_world refl (λ h. absurd (h refl)) served

process_request-answers_example :
    (r : EreResponse String) × ((process_request service (resolution "r1" acme) [] new_world).0
      ≡ ok (some r))
    × (ere_request_id r ≡ "r1")
process_request-answers_example =
    process_request-answers service (resolution "r1" acme) [] new_world refl
