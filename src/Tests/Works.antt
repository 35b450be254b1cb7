-- ===== src/Tests/Works.antt =====
-- A worker with three messages, one of which is not JSON, and its results applied to the run.
use entity_resolution_engine.Base.{
  ℕ, ltb, Bool, String, String-discrete, Option, none, some, List, [], ◌∷◌, ◌++◌, length, ◌≡◌, ◌≢◌,
  ◌≤◌, refl, ap, arith,
}
use entity_resolution_engine.Base.Dict.{get}
use entity_resolution_engine.Model.Errors.{Exception, Result, ok, raise, ok-injective}
use entity_resolution_engine.Model.Mentions.{Mention}
use entity_resolution_engine.Model.Yaml.{Yaml, text, mapping, entry, no_entry}
use entity_resolution_engine.Queue.{Raw}
use entity_resolution_engine.Queue.Order.{arriving}
use entity_resolution_engine.Service.Requests.{
  EreRequest, resolution, EreResponse, ere_request_id, request_id,
}
use entity_resolution_engine.Worker.Messages.{QueueWorker, peek_identity, string_or_unknown}
use entity_resolution_engine.Worker.Answers.{ReadsIds}
use entity_resolution_engine.Worker.Sent.{Sends}
use entity_resolution_engine.Worker.Bites.{BiteSizer, Queues, limit_of, process_bite}
use entity_resolution_engine.Worker.Progress.{limit_of-bounds, process_bite-Sends}
use entity_resolution_engine.Tests.Data.{acme, new_world}
use entity_resolution_engine.Tests.Serves.{service}

abbrev loads : Raw → Result Yaml
loads [] = raise (Exception.value_error "JSONDecodeError" "Expecting value")
loads (x ∷ xs) = ok (mapping (entry "ere_request_id" (text "r1") no_entry))

abbrev parse : Raw → Result (EreRequest Mention)
parse [] = raise (Exception.value_error "JSONDecodeError" "Expecting value")
parse (x ∷ xs) = ok (resolution "r1" acme)

abbrev dumps : Option (EreResponse String) → Result String
dumps none = raise (Exception.other "TypeError" "None")
dumps (some r) = ok (ere_request_id r)

abbrev worker : QueueWorker Mention String String
worker = record {
  service = service;
  loads = loads;
  get_request_from_message = parse;
  dumps = dumps;
}

worker-ReadsIds : ReadsIds worker
unfolding peek_identity string_or_unknown get String-discrete
worker-ReadsIds = record { tolerant = tolerant; faithful = faithful }
  where
    tolerant :
        (raw : Raw) (e : Exception)
        → loads raw ≡ raise e
        → (name message : String) × (e ≡ Exception.value_error name message)
    tolerant [] e h = ("JSONDecodeError", "Expecting value", cc)
    tolerant (x ∷ xs) e h = absurd (ground arith)

    faithful :
        (raw : Raw) (q : EreRequest Mention)
        → parse raw ≡ ok q
        → peek_identity (loads raw) ≡ ok (request_id q)
    faithful [] q h = absurd (ground arith)
    faithful (x ∷ xs) q h = ap (λ r. ok (request_id r)) (ok-injective h)

abbrev sizer : BiteSizer ℕ
sizer = record {
  max_mentions = 2;
  wanted = λ rate. rate;
  per_second = λ n t. n;
  smooth = λ rate old. rate;
}

abbrev queues : Queues String ℕ
queues = record {
  request_queue = (1 ∷ []) ∷ [] ∷ (2 ∷ []) ∷ [];
  turns = [];
  response_queue = [];
  rate = none;
}

limit_of-bounds_example : (1 ≤ limit_of sizer (some 7)) × (limit_of sizer (some 7) ≤ 2)
limit_of-bounds_example = limit_of-bounds sizer (some 7) (omega arith)

process_bite-Sends_example :
    (bite : List Raw) × (ps : List String) × (q' : Queues String ℕ) × ((process_bite worker sizer 10
        none 3 queues new_world).0
      ≡ ok (length bite, q'))
    × (bite ++ (q'.request_queue ++ arriving q'.turns)
        ≡ queues.request_queue ++ arriving queues.turns)
    × (queues.request_queue ≢ [] → 1 ≤ length bite)
    × (length bite ≤ 2)
    × (q'.response_queue ≡ queues.response_queue ++ ps)
    × Sends worker bite ps
process_bite-Sends_example =
    process_bite-Sends worker sizer 10 3 queues new_world worker-ReadsIds
      (λ r. (ere_request_id r, refl)) refl (omega arith)

-- the pipeline fails after its second command
abbrev broken_pipe : ℕ → Bool
broken_pipe n = ltb n 2
