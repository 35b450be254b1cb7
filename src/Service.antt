-- ===== src/Service.antt =====
-- The public service: a bite of requests, guarded one by one, resolved together
-- (src/ere/services/entity_resolution_service.py, `prepare_mention` and `EntityResolutionService`).
pub mod Requests
pub mod Collecting
pub mod Answers
pub mod Settled
pub mod Guards
pub mod Complete
pub mod Reads
use entity_resolution_engine.Base.{
  ℕ, zero, suc, String, Option, none, some, List, [], ◌∷◌, ◌++◌, map, zip, Bool, true, false,
  if◌then◌else◌, ◌+◌, length,
}
use entity_resolution_engine.Base.Dict.{Dict, get, put}
use entity_resolution_engine.Model.Errors
use entity_resolution_engine.Model.Errors.{Exception, Result, ok, raise}
use entity_resolution_engine.Model.Mentions.{
  MentionId, MentionId-discrete, Mention, same_attributes,
}
use entity_resolution_engine.Model.Clusters.{ResolutionResult}
use entity_resolution_engine.Tracing.{
  MentionTrace, disabled, TraceEvent, TraceField, GuardOutcome, text, outcome,
}
use entity_resolution_engine.World.{Exec, ◌>>=◌, ◌>>◌, pure, throw, lift, attempt, record_stage}
use entity_resolution_engine.Resolver.Batch.{
  or_disabled, check_conflict, find_cluster_for, resolve_batch, resolve,
}
use entity_resolution_engine.Service.Collecting.{
  Guarded, ends, Collected, no_responses, Responses, refuse_earlier, conclude_guard, collect_one,
}
use entity_resolution_engine.Service.Requests.{
  ClusterReference, cluster_reference, EreRequest, resolution, unsupported, EreResponse,
  unsupported_error, EntityResolutionService, fill, traces_at, request_id, item, put_at,
  resolution_response, unexpected_error, response_or_error,
}

-- except ConflictError: trace.stage(GUARD, CONFLICT); raise
unfoldable pub stage_conflict : MentionTrace → Result (Unit {0}) → Exec (Unit {0})
stage_conflict trace (ok u) = pure tt
stage_conflict trace (raise (Exception.conflict_error m a b)) = do
  record_stage trace TraceEvent.guard ((TraceField.guard, outcome GuardOutcome.conflict) ∷ [])
  throw (Exception.conflict_error m a b)
stage_conflict trace (raise e) = throw e

-- trace or MentionTrace.disabled(), for a trace that is given or not
abbrev pub first_trace : List MentionTrace → MentionTrace
first_trace [] = disabled
first_trace (t ∷ ts) = t

unfoldable pub guard_outcome : Option ResolutionResult → GuardOutcome
guard_outcome none = GuardOutcome.new
guard_outcome (some r) = GuardOutcome.idempotent

module _ {M I : Type 0} (S : EntityResolutionService M I) where
  unfoldable pub prepare_mention : M → MentionTrace → Exec (Mention × Option ResolutionResult)
  prepare_mention em trace = do
    mention ← lift (S.map_entity_mention_to_domain em)
    record_stage trace TraceEvent.parsed ((TraceField.mention_id, text mention.id.value) ∷ [])
    checked ← attempt (check_conflict S.platform S.config mention)
    stage_conflict trace checked
    cached ← find_cluster_for S.platform S.config mention.id
    record_stage trace TraceEvent.guard ((TraceField.guard, outcome (guard_outcome cached)) ∷ [])
    pure (mention, cached)

  -- EntityResolutionService._guard
  unfoldable pub guard :
      EreRequest M
      → MentionTrace
      → Dict MentionId Mention
      → Exec (Guarded I × Dict MentionId Mention)
  guard (unsupported ty id) trace seen = pure (ends (unsupported_error ty id), seen)
  guard (resolution id em) trace seen = do
    prepared ← attempt (do
      (mention, cached) ← prepare_mention em trace
      lift (refuse_earlier mention (get MentionId-discrete mention.id seen))
      pure (mention, cached))
    lift (conclude_guard S id em seen prepared)

  -- for position, (request, trace) in enumerate(zip(requests, traces))
  unfoldable pub collect : ℕ → List (EreRequest M × MentionTrace) → Collected I → Exec (Collected I)
  collect position [] c = pure c
  collect position ((request, trace) ∷ rest) c = do
    guarded ← guard request trace c.first_seen
    c' ← lift (collect_one position guarded c)
    collect (position + 1) rest c'

  -- EntityResolutionService._resolve_alone, up to the value or the exception of the resolver
  unfoldable pub resolve_alone : EreRequest M → Mention → MentionTrace → Exec (EreResponse I)
  resolve_alone request m trace = do
    answer ← attempt (do
      result ← resolve S.platform S.config S.unit_of_work m (trace ∷ [])
      lift (resolution_response S request result))
    pure (response_or_error S (request_id request) answer)

  -- for position, mention in pending: responses[position] = self._resolve_alone(...)
  unfoldable pub resolve_each :
      List (EreRequest M)
      → List MentionTrace
      → List (ℕ × Mention)
      → Responses I
      → Exec (Responses I)
  resolve_each requests traces [] responses = pure responses
  resolve_each requests traces ((position, m) ∷ rest) responses = do
    request ← lift (item requests position)
    trace ← lift (item traces position)
    response ← resolve_alone request m trace
    responses' ← lift (put_at responses position (some response))
    resolve_each requests traces rest responses'

  -- the end of `_resolve_pending`, by what the bite has come to
  unfoldable pub settle :
      List (EreRequest M)
      → List MentionTrace
      → List (ℕ × Mention)
      → Responses I
      → Result (List ResolutionResult)
      → Exec (Responses I)
  settle requests traces pending responses (ok results) =
      lift (fill S requests (zip pending results) responses)
  settle requests traces ((position, m) ∷ []) responses (raise e) = do
    request ← lift (item requests position)
    lift (put_at responses position (some (unexpected_error S (request_id request))))
  settle requests traces pending responses (raise e) =
      resolve_each requests traces pending responses

  -- EntityResolutionService._resolve_pending
  unfoldable pub resolve_pending :
      List (EreRequest M)
      → List MentionTrace
      → List (ℕ × Mention)
      → Responses I
      → Exec (Responses I)
  resolve_pending requests traces [] responses = pure responses
  resolve_pending requests traces (p ∷ pending) responses = do
    answer ← attempt (do
      chosen ← lift (traces_at traces (p ∷ pending))
      resolve_batch S.platform S.config S.unit_of_work (map (λ e. e.1) (p ∷ pending)) chosen)
    settle requests traces (p ∷ pending) responses answer

  -- the response of `_respond_cached`
  unfoldable pub cached_response : EreRequest M → Option ResolutionResult → Result (EreResponse I)
  cached_response request none = ok (unexpected_error S (request_id request))
  cached_response request (some r) = resolution_response S request r

  -- EntityResolutionService._respond_cached
  unfoldable pub respond_cached : EreRequest M → Mention → Exec (EreResponse I)
  respond_cached request m = do
    cached ← find_cluster_for S.platform S.config m.id
    lift (cached_response request cached)

  -- for position, mention in repeats: responses[position] = self._respond_cached(...)
  unfoldable pub respond_repeats :
      List (EreRequest M) → List (ℕ × Mention) → Responses I → Exec (Responses I)
  respond_repeats requests [] responses = pure responses
  respond_repeats requests ((position, m) ∷ rest) responses = do
    request ← lift (item requests position)
    response ← respond_cached request m
    responses' ← lift (put_at responses position (some response))
    respond_repeats requests rest responses'

  -- EntityResolutionService.process_batch
  unfoldable pub process_batch : List (EreRequest M) → List MentionTrace → Exec (Responses I)
  process_batch requests traces = do
    let used = or_disabled requests traces
    c ← collect 0 (zip requests used) (no_responses (length requests))
    responses ← resolve_pending requests used c.pending c.responses
    respond_repeats requests c.repeats responses

  -- EntityResolutionService.process_request: a bite of one
  unfoldable pub process_request : EreRequest M → List MentionTrace → Exec (Option (EreResponse I))
  process_request request traces = do
    responses ← process_batch (request ∷ []) traces
    lift (item responses 0)

  -- cached if cached is not None else resolver.resolve(mention, trace)
  unfoldable pub cached_or_resolved :
      Mention → List MentionTrace → Option ResolutionResult → Exec ResolutionResult
  cached_or_resolved m traces (some result) = pure result
  cached_or_resolved m traces none = resolve S.platform S.config S.unit_of_work m traces

  -- resolve_to_result
  unfoldable pub resolve_to_result : M → List MentionTrace → Exec ResolutionResult
  resolve_to_result em traces = do
    (mention, cached) ← prepare_mention em (first_trace traces)
    cached_or_resolved mention traces cached

  -- resolve_entity_mention, with a resolver and a mapper
  unfoldable pub resolve_entity_mention : M → Exec ClusterReference
  resolve_entity_mention em = do
    result ← resolve_to_result em []
    pure (cluster_reference result.top)
