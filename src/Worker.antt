-- ===== src/Worker.antt =====
-- The worker that drives the service from the queue: `RedisQueueWorker`
-- (src/ere/entrypoints/queue_worker.py) and `BiteSizer` (src/ere/services/bite_sizer.py). What the
-- runtimes of JSON and LinkML make of bytes is given; times, and the summary lines, are left out.
pub mod Messages
pub mod Replies
pub mod Answers
pub mod Sent
pub mod Isolated
pub mod Bites
pub mod Progress
use entity_resolution_engine.Base.{
  ℕ, String, Bool, Option, none, some, List, [], ◌∷◌, map, zip, length, replicate,
}
use entity_resolution_engine.Model.Errors.{Exception, Result, ok, raise}
use entity_resolution_engine.Tracing
use entity_resolution_engine.Tracing.{MentionTrace, TraceEvent, TraceField, stage_all}
use entity_resolution_engine.World.{Exec, ◌>>=◌, ◌>>◌, pure, lift, attempt, record_stage}
use entity_resolution_engine.Queue.{Raw}
use entity_resolution_engine.Service.Requests.{EreRequest, EreResponse}
use entity_resolution_engine.Service.{process_batch}
use entity_resolution_engine.Worker.Messages.{
  QueueWorker, peek_identity, trace_of, Parsed, place, traces_for, parse_all, results_of, payloads,
  pushed,
}

-- for trace in traces: trace.stage(TraceEvent.RESPONDED)
unfoldable pub stage_responded : List MentionTrace → Exec (Unit {0})
unfolding stage_all
stage_responded traces w = (ok tt, record w { log = stage_all traces TraceEvent.responded w.log })

module _ {M I P : Type 0} (W : QueueWorker M I P) where
  -- _dequeued_trace
  unfoldable pub dequeued_trace : Raw → Exec MentionTrace
  unfolding peek_identity
  dequeued_trace raw = do
    request_id ← lift (peek_identity (W.loads raw))
    let trace = trace_of request_id
    record_stage trace TraceEvent.dequeued
        ((TraceField.payload_bytes, Tracing.number (length raw)) ∷ [])
    pure trace

  -- traces = [self._dequeued_trace(batch_trace, raw) for raw in bite]
  unfoldable pub dequeued_traces : List Raw → Exec (List MentionTrace)
  unfolding dequeued_trace
  dequeued_traces [] = pure []
  dequeued_traces (raw ∷ bite) = do
    trace ← dequeued_trace raw
    traces ← dequeued_traces bite
    pure (trace ∷ traces)

  -- _resolve
  unfoldable pub resolve_parsed :
      List MentionTrace
      → List (ℕ × EreRequest M)
      → List (Option (EreResponse I))
      → Exec (List (Option (EreResponse I)))
  unfolding traces_for results_of place
  resolve_parsed traces [] responses = pure responses
  resolve_parsed traces (p ∷ parsed) responses = do
    answer ← attempt (do
      chosen ← lift (traces_for traces (p ∷ parsed))
      process_batch W.service (map (λ e. e.1) (p ∷ parsed)) chosen)
    results ← lift (results_of W traces (p ∷ parsed) answer)
    lift (place (zip (p ∷ parsed) results) responses)

  -- `_process` up to `_send_responses`
  unfoldable pub respond : List Raw → Exec (List MentionTrace × List (Option (EreResponse I)))
  unfolding dequeued_traces parse_all resolve_parsed
  respond bite = do
    traces ← dequeued_traces bite
    c ← lift (
        parse_all W 0 traces bite
          (record { responses = replicate (length bite) none; parsed = [] }))
    responses ← resolve_parsed traces c.parsed c.responses
    pure (traces, responses)

  -- _process: the number of requests, and what was pushed
  unfoldable pub process : Option (ℕ → Bool) → List Raw → Exec (ℕ × List P)
  unfolding respond payloads pushed stage_responded
  process fault [] = pure (0, [])
  process fault (raw ∷ bite) = do
    (traces, responses) ← respond (raw ∷ bite)
    stage_responded traces
    pure (length (raw ∷ bite), pushed fault (payloads W responses))
