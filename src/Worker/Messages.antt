-- ===== src/Worker/Messages.antt =====
-- What the worker makes of a message and of a response, apart from the world they run in:
-- `RedisQueueWorker` (src/ere/entrypoints/queue_worker.py).
use entity_resolution_engine.Base.{
  ℕ, ◌+◌, String, String-discrete, Option, none, some, List, [], ◌∷◌, ◌++◌, map, Bool, true,
  if◌then◌else◌,
}
use entity_resolution_engine.Base.Dict.{get}
use entity_resolution_engine.Model.Errors.{Exception, Result, ok, raise, ◌>>=◌}
use entity_resolution_engine.Model.Yaml.{Yaml, text, mapping, entries}
use entity_resolution_engine.Tracing.{MentionTrace}
use entity_resolution_engine.Queue.{Raw}
use entity_resolution_engine.Service.Requests.{
  EreRequest, EreResponse, failed, EntityResolutionService, id_or_unknown, item, put_at,
}

-- `RedisQueueWorker`: its service, and what it takes from `json` and from `linkml_runtime`.
pub record QueueWorker (EntityMention Identifier Payload : Type 0) : Type 0 where
  pub service : EntityResolutionService EntityMention Identifier
  -- json.loads; the values are those of YAML
  pub loads : Raw → Result Yaml
  -- get_request_from_message
  pub get_request_from_message : Raw → Result (EreRequest EntityMention)
  -- JSONDumper.dumps, of a response or of None
  pub dumps : Option (EreResponse Identifier) → Result Payload

-- request_id = msg_json.get(REQUEST_ID_KEY), if it is a string
unfoldable pub string_or_unknown : Option Yaml → String
string_or_unknown (some (text id)) = id
string_or_unknown _ = "unknown"

-- the request id of `_peek_identity`, by what json.loads comes to
unfoldable pub peek_identity : Result Yaml → Result String
unfolding string_or_unknown
peek_identity (raise (Exception.value_error name message)) = ok "unknown"
peek_identity (raise e) = raise e
peek_identity (ok (mapping es)) =
    ok (string_or_unknown (get String-discrete "ere_request_id" (entries es)))
peek_identity (ok y) = ok "unknown"

-- _build_error_response
unfoldable pub build_error_response : {I : Type 0} → String → String → EreResponse I
build_error_response error_detail ere_request_id =
    failed ere_request_id "ProcessingError" "Request processing error" error_detail

-- trace.request_id, which is a string for each trace of the worker
abbrev pub id_of : MentionTrace → String
id_of trace = id_or_unknown trace.request_id

-- request_trace
abbrev pub trace_of : String → MentionTrace
trace_of request_id = record { request_id = some request_id; enabled = true }

-- What the loop over the bite collects.
pub record Parsed (M I : Type 0) : Type 0 where
  pub responses : List (Option (EreResponse I))
  pub parsed : List (ℕ × EreRequest M)

-- for (position, _), response in zip(parsed, results): responses[position] = response
unfoldable pub place : {M R : Type 0} → List ((ℕ × M) × R) → List R → Result (List R)
unfolding put_at
place [] responses = ok responses
place (((position, q), response) ∷ rest) responses = do
  responses' ← put_at responses position response
  place rest responses'

-- [traces[position] for position, _ in parsed]
unfoldable pub traces_for :
    {M : Type 0} → List MentionTrace → List (ℕ × M) → Result (List MentionTrace)
unfolding item
traces_for traces [] = ok []
traces_for traces ((position, q) ∷ rest) = do
  trace ← item traces position
  chosen ← traces_for traces rest
  ok (trace ∷ chosen)

-- the payloads at the chosen places, counted from `n`
unfoldable pub arrived : {P : Type 0} → (ℕ → Bool) → ℕ → List P → List P
arrived at n [] = []
arrived at n (p ∷ ps) = let rest = arrived at (n + 1) ps in if at n then p ∷ rest else rest

-- What arrives in the response queue: all payloads, or, when the pipeline fails, those whose commands
-- were run all the same, which no transaction rules out.
unfoldable pub pushed : {P : Type 0} → Option (ℕ → Bool) → List P → List P
unfolding arrived
pushed none ps = ps
pushed (some at) ps = arrived at 0 ps

-- the body of the loop of `_send_responses`, before the payloads of the other responses
abbrev pub kept : {P : Type 0} → Result P → List P → List P
kept (ok payload) rest = payload ∷ rest
kept (raise e) rest = rest

module _ {M I P : Type 0} (W : QueueWorker M I P) where
  -- the body of the loop, by what parsing comes to
  unfoldable pub parse_one :
      ℕ → List MentionTrace → Result (EreRequest M) → Parsed M I → Result (Parsed M I)
  unfolding build_error_response put_at item
  parse_one position traces (ok request) c =
      ok (record c { parsed = c.parsed ++ (position, request) ∷ [] })
  parse_one position traces (raise e) c = do
    trace ← item traces position
    responses' ←
        put_at c.responses position (some (build_error_response (W.service.str e) (id_of trace)))
    ok (record c { responses = responses' })

  -- for position, raw in enumerate(bite)
  unfoldable pub parse_all : ℕ → List MentionTrace → List Raw → Parsed M I → Result (Parsed M I)
  unfolding parse_one
  parse_all position traces [] c = ok c
  parse_all position traces (raw ∷ bite) c = do
    c' ← parse_one position traces (W.get_request_from_message raw) c
    parse_all (position + 1) traces bite c'

  -- the results of `_resolve`, by what `process_batch` comes to
  unfoldable pub results_of :
      List MentionTrace
      → List (ℕ × EreRequest M)
      → Result (List (Option (EreResponse I)))
      → Result (List (Option (EreResponse I)))
  unfolding build_error_response traces_for
  results_of traces parsed (ok results) = ok results
  results_of traces parsed (raise e) = do
    chosen ← traces_for traces parsed
    ok (map (λ trace. some (build_error_response (W.service.str e) (id_of trace))) chosen)

  -- the payloads of `_send_responses`
  unfoldable pub payloads : List (Option (EreResponse I)) → List P
  payloads [] = []
  payloads (response ∷ rest) = kept (W.dumps response) (payloads rest)
