-- ===== src/Worker/Progress.antt =====
-- From the request queue to the response queue: no message is lost, and each bite stays within its
-- limit.
use entity_resolution_engine.Base.{
  ℕ, ◌≤◌, Option, none, some, List, [], ◌∷◌, ◌++◌, length, ◌≡◌, ◌≢◌, refl, arith,
}
use entity_resolution_engine.Model.Errors.{ok}
use entity_resolution_engine.World.{World, ◌>>=◌, pure}
use entity_resolution_engine.Repositories.Transactions.{duckdb}
use entity_resolution_engine.Queue.{Raw, Turn, Taken, take_bite}
use entity_resolution_engine.Queue.Order.{arriving, take_bite-Holds}
use entity_resolution_engine.Service.Requests.{EreResponse}
use entity_resolution_engine.Worker.Messages.{QueueWorker}
use entity_resolution_engine.Worker.Answers.{ReadsIds}
use entity_resolution_engine.Worker.Sent.{Sends, process-Yields}
use entity_resolution_engine.Worker.Bites.{
  BiteSizer, limit_of, Queues, observed, finish_bite, process_bite,
}

-- With a positive maximum, the limit of a bite is at least one and at most the maximum, whatever rate
-- was observed.
pub limit_of-bounds :
    {Rate : Type 0} (sizer : BiteSizer Rate) (rate : Option Rate)
    → 1 ≤ sizer.max_mentions
    → (1 ≤ limit_of sizer rate) × (limit_of sizer rate ≤ sizer.max_mentions)
unfolding limit_of
limit_of-bounds sizer none h = (h, omega arith)
limit_of-bounds sizer (some rate) h = (omega arith, omega arith)

-- What a take yields, also where nothing waits.
take_bite-total :
    (limit max_bytes : ℕ) (ts : List Turn) (queue : List Raw)
    → 1 ≤ limit
    → (t : Taken) × (take_bite limit max_bytes ts queue ≡ some t)
      × (t.bite ++ (t.queue ++ arriving t.turns) ≡ queue ++ arriving ts)
      × (queue ≢ [] → 1 ≤ length t.bite)
      × (length t.bite ≤ limit)
unfolding take_bite
take_bite-total limit max_bytes ts [] h =
    (record { bite = []; queue = []; turns = ts }, refl, refl, λ d. absurd (d refl), omega arith)
take_bite-total limit max_bytes ts (x ∷ queue) h =
    let (t, taken, whole, one, bound, size) = take_bite-Holds limit max_bytes ts x queue h in
    (t, taken, whole, λ d. one, bound)

-- Where `json.loads` raises nothing but a `ValueError`, a request that parses has the id of its JSON,
-- every response can be serialised, the responses can be pushed, the unit of work is the database's and
-- the maximum is positive: a worker that takes, resolves and answers a bite returns, whatever the
-- database and the linker do. The bite has at most `max_mentions` messages, and at least one if the
-- request queue is not empty; what it leaves in the request
-- queue and what is still to arrive follow it in order; and the response queue has gained one payload for
-- each of its messages, in order: that of a response with the id that the message carries.
pub process_bite-Sends :
    {M I P Rate : Type 0} (W : QueueWorker M I P) (sizer : BiteSizer Rate) (max_bytes seconds : ℕ)
    (q : Queues P Rate) (w : World)
    → ReadsIds W
    → ((r : EreResponse I) → (p : P) × (W.dumps (some r) ≡ ok p))
    → W.service.unit_of_work ≡ duckdb
    → 1 ≤ sizer.max_mentions
    → (bite : List Raw) × (ps : List P) × (q' : Queues P Rate) × ((process_bite W sizer max_bytes
          none seconds q w).0
        ≡ ok (length bite, q'))
      × (bite ++ (q'.request_queue ++ arriving q'.turns) ≡ q.request_queue ++ arriving q.turns)
      × (q.request_queue ≢ [] → 1 ≤ length bite)
      × (length bite ≤ sizer.max_mentions)
      × (q'.response_queue ≡ q.response_queue ++ ps)
      × Sends W bite ps
unfolding process_bite finish_bite pure ◌>>=◌
process_bite-Sends W sizer max_bytes seconds q w reads dumped transactional positive =
    let (low, high) = limit_of-bounds sizer q.rate positive in
    let (t, taken, whole, some_request, bound) =
      take_bite-total (limit_of sizer q.rate) max_bytes q.turns q.request_queue low in
    let ((n, ps), processed, (size, sends)) =
      (process-Yields W reads dumped transactional t.bite).at w in
    (
      t.bite,
      ps,
      record {
        request_queue = t.queue;
        turns = t.turns;
        response_queue = q.response_queue ++ ps;
        rate = observed W sizer t.bite seconds q.rate;
      },
      rw taken (rw processed (rw size refl)),
      whole,
      some_request,
      omega arith,
      refl,
      sends,
    )
