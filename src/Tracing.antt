-- ===== src/Tracing.antt =====
-- Lifecycle tracing of requests (src/ere/services/tracing.py): which stages are recorded, for which
-- request, with which fields. The times of the stages and the text of the log lines are left out.
use entity_resolution_engine.Base.{
  ℕ, String, Option, none, List, [], ◌∷◌, ◌++◌, Bool, false, if◌then◌else◌,
}

-- TraceEvent
pub data TraceEvent : Type 0 where
  dequeued parsed guard scored clustered persisted responded summary batch : TraceEvent

-- TraceField
pub data TraceField : Type 0 where
  event request_id mention_id payload_bytes queue_wait_ms guard links best_score decision :
      TraceField
  cluster_id stage_ms total_ms batch_id batch_size bite_limit parse_ms resolve_ms : TraceField
  respond_ms : TraceField

-- GuardOutcome
pub data GuardOutcome : Type 0 where
  conflict idempotent new : GuardOutcome

-- ClusterDecision
pub data ClusterDecision : Type 0 where
  join new : ClusterDecision

-- The value of a field; `absent` is `None`, which `stage` drops.
pub data FieldValue : Type 0 where
  absent : FieldValue
  number : ℕ → FieldValue
  text : String → FieldValue
  outcome : GuardOutcome → FieldValue
  decided : ClusterDecision → FieldValue

abbrev pub Fields : Type 0
Fields = List (TraceField × FieldValue)

-- What identifies a `MentionTrace`: its request, and whether it records anything.
pub record MentionTrace : Type 0 where
  pub request_id : Option String
  pub enabled : Bool

-- MentionTrace.disabled
abbrev pub disabled : MentionTrace
disabled = record { request_id = none; enabled = false }

-- One call of `stage` on an enabled trace.
pub record Stage : Type 0 where
  pub request_id : Option String
  pub event : TraceEvent
  pub fields : Fields

present : Fields → Fields
present [] = []
present ((k, absent) ∷ fs) = present fs
present ((k, number n) ∷ fs) = (k, number n) ∷ present fs
present ((k, text t) ∷ fs) = (k, text t) ∷ present fs
present ((k, outcome o) ∷ fs) = (k, outcome o) ∷ present fs
present ((k, decided d) ∷ fs) = (k, decided d) ∷ present fs

-- MentionTrace.stage, on the log of the stages recorded so far
unfoldable pub stage : MentionTrace → TraceEvent → Fields → List Stage → List Stage
unfolding present
stage trace e fields log =
    if trace.enabled
    then log ++ record { request_id = trace.request_id; event = e; fields = present fields } ∷ []
    else log

pub record DeferredStage : Type 0 where
  pub trace : MentionTrace
  pub event : TraceEvent
  pub fields : Fields

-- DeferredStage.emit
unfoldable pub emit : DeferredStage → List Stage → List Stage
unfolding stage
emit d = stage d.trace d.event d.fields

-- for stage in stages: stage.emit()
unfoldable pub emit_all : List DeferredStage → List Stage → List Stage
unfolding emit
emit_all [] log = log
emit_all (d ∷ ds) log = emit_all ds (emit d log)

-- for trace in traces: trace.stage(event)
unfoldable pub stage_all : List MentionTrace → TraceEvent → List Stage → List Stage
unfolding stage
stage_all [] e log = log
stage_all (t ∷ ts) e log = stage_all ts e (stage t e [] log)
