-- ===== src/Resolver/Batch.antt =====
-- The public operations of `EntityResolver` (src/ere/services/entity_resolution_service.py).
pub mod Counted
pub mod Atomic
pub mod Success
use entity_resolution_engine.Base.{
  ℕ, ◌+◌, Option, none, some, List, [], ◌∷◌, map, length, Bool, true, false, ◌&&◌, ltb, leb,
  if◌then◌else◌,
}
use entity_resolution_engine.Model.Errors
use entity_resolution_engine.Model.Errors.{Exception, Result, ok, raise}
use entity_resolution_engine.Model.Mentions.{MentionId, Mention, same_attributes}
use entity_resolution_engine.Model.Links.{MentionLink, other}
use entity_resolution_engine.Model.Clusters.{ResolutionResult}
use entity_resolution_engine.Tracing.{
  MentionTrace, disabled, DeferredStage, TraceEvent, emit_all, stage_all,
}
use entity_resolution_engine.World.{World, Platform, Exec, ◌>>=◌, ◌>>◌, pure, throw, lift, attempt}
use entity_resolution_engine.Config.{ResolverConfig}
use entity_resolution_engine.Repositories.Transactions.{UnitOfWork, within}
use entity_resolution_engine.Repositories.Mentions
use entity_resolution_engine.Repositories.Similarities
use entity_resolution_engine.Repositories.Clusters
use entity_resolution_engine.Resolver.Ranking.{rank_candidates}
use entity_resolution_engine.Resolver.Others.{others}
use entity_resolution_engine.Resolver.Bite.{resolve_bite}

-- traces or [MentionTrace.disabled() for _ in mentions]; no list of traces is the empty list
unfoldable pub or_disabled {ℓ} : {A : Type ℓ} → List A → List MentionTrace → List MentionTrace
or_disabled xs [] = map (λ x. disabled) xs
or_disabled xs (t ∷ ts) = t ∷ ts

-- threading.Thread(target=self.train, ...).start()
unfoldable pub start_thread : Platform → Exec (Unit {0})
start_thread P w = elim (P.start_fault w.calls) [
  | some e ↦ (raise e, w)
  | none ↦ (ok tt, record w { trainings = w.trainings + 1 })
]

-- EntityResolver._maybe_start_training: a thread that trains, if the bite crosses the threshold
unfoldable pub maybe_start_training : Platform → ℕ → ℕ → ℕ → Exec (Unit {0})
unfolding start_thread
maybe_start_training P threshold before after w =
    if leb threshold 0
    then (ok tt, w)
    else if ltb before threshold && leb threshold after
    then start_thread P w
    else (ok tt, w)

-- for stage in stages: stage.emit(); for trace in traces: trace.stage(TraceEvent.PERSISTED)
unfoldable pub emit_stages : List DeferredStage → List MentionTrace → Exec (Unit {0})
emit_stages stages traces w =
    (ok tt, record w { log = stage_all traces TraceEvent.persisted (emit_all stages w.log) })

-- except KeyError: return None
unfoldable pub none_if_missing : Result ResolutionResult → Exec (Option ResolutionResult)
none_if_missing (ok r) = pure (some r)
none_if_missing (raise (Exception.key_error k)) = pure none
none_if_missing (raise e) = throw e

-- the test of `check_conflict`
unfoldable pub refuse_conflict : Mention → Option Mention → Exec (Unit {0})
refuse_conflict m none = pure tt
refuse_conflict m (some existing) =
    if same_attributes existing.attributes m.attributes
    then pure tt
    else throw (Exception.conflict_error m.id.value existing.attributes m.attributes)

module _ (P : Platform) (config : ResolverConfig) where
  -- EntityResolver._gen_cand
  unfoldable pub gen_cand : MentionId → Exec ResolutionResult
  gen_cand m = do
    links ← Similarities.find_for P m
    other_ids ← lift (others m links)
    linked ← Clusters.clusters_for P other_ids
    own ← Clusters.find_cluster_of P m
    lift (rank_candidates config.top_n m own links linked)

  -- EntityResolver.find_cluster_for
  unfoldable pub find_cluster_for : MentionId → Exec (Option ResolutionResult)
  find_cluster_for m = do
    answer ← attempt (do Clusters.find_cluster_of P m; gen_cand m)
    none_if_missing answer

  -- EntityResolver.check_conflict
  unfoldable pub check_conflict : Mention → Exec (Unit {0})
  check_conflict m = do
    existing ← Mentions.find_by_id P config.entity_fields m.id
    refuse_conflict m existing

  module _ (unit_of_work : UnitOfWork) where
    -- EntityResolver.resolve_batch
    unfoldable pub resolve_batch : List Mention → List MentionTrace → Exec (List ResolutionResult)
    resolve_batch [] traces = pure []
    resolve_batch (m ∷ ms) traces = do
      let used = or_disabled (m ∷ ms) traces
      stored_before ← Mentions.count P
      (results, stages) ← within P unit_of_work (resolve_bite P config (m ∷ ms) used)
      emit_stages stages used
      maybe_start_training P config.auto_train_threshold stored_before
          (stored_before + length (m ∷ ms))
      pure results

    unfoldable pub first_result : List ResolutionResult → Exec ResolutionResult
    first_result [] = throw (Exception.other "IndexError" "list index out of range")
    first_result (r ∷ rs) = pure r

    -- EntityResolver.resolve: a bite of one
    unfoldable pub resolve : Mention → List MentionTrace → Exec ResolutionResult
    resolve m traces = do results ← resolve_batch (m ∷ []) traces; first_result results
