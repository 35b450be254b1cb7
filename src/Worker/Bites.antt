-- ===== src/Worker/Bites.antt =====
-- The size of bites, and the bite that a worker takes, resolves and answers: `BiteSizer`
-- (src/ere/services/bite_sizer.py) and `process_bite` of src/ere/entrypoints/queue_worker.py. The
-- arithmetic of doubles is given.
use entity_resolution_engine.Base.{
  Bool, ℕ, zero, suc, Option, none, some, List, [], ◌∷◌, ◌++◌, length, min, max,
}
use entity_resolution_engine.World.{Exec, ◌>>=◌, pure}
use entity_resolution_engine.Queue.{Raw, Turn, Taken, take_bite}
use entity_resolution_engine.Worker.Messages.{QueueWorker}
use entity_resolution_engine.Worker.{process}

-- `BiteSizer` without its rate: the settings it reads, and its arithmetic on rates.
pub record BiteSizer (Rate : Type 0) : Type 0 where
  pub max_mentions : ℕ
  -- round(rate * target_seconds)
  pub wanted : Rate → ℕ
  -- mentions / seconds, for a positive time
  pub per_second : ℕ → ℕ → Rate
  -- SMOOTHING * rate + (1 - SMOOTHING) * self._rate
  pub smooth : Rate → Rate → Rate

module _ {Rate : Type 0} (sizer : BiteSizer Rate) where
  -- BiteSizer.limit
  unfoldable pub limit_of : Option Rate → ℕ
  limit_of none = sizer.max_mentions
  limit_of (some rate) = max 1 (min (sizer.wanted rate) sizer.max_mentions)

  -- BiteSizer.observe; a time that is not positive is 0
  unfoldable pub observe : ℕ → ℕ → Option Rate → Option Rate
  observe mentions zero rate = rate
  observe mentions (suc t) none = some (sizer.per_second mentions (suc t))
  observe mentions (suc t) (some old) = some (sizer.smooth (sizer.per_second mentions (suc t)) old)

-- The queues, with what is still to arrive, and the rate.
pub record Queues (P Rate : Type 0) : Type 0 where
  pub request_queue : List Raw
  pub turns : List Turn
  pub response_queue : List P
  pub rate : Option Rate

module _ {M I P Rate : Type 0} (W : QueueWorker M I P) (sizer : BiteSizer Rate) where
  -- the rate behind a bite; `_process` leaves it when there is none
  unfoldable pub observed : List Raw → ℕ → Option Rate → Option Rate
  unfolding observe
  observed [] seconds rate = rate
  observed (raw ∷ bite) seconds rate = observe sizer (length (raw ∷ bite)) seconds rate

  -- `process_bite` behind the queue: which pushes are run if the pipeline fails, and how long the bite takes; a
  -- take always comes to something
  unfoldable pub finish_bite :
      Option (ℕ → Bool) → ℕ → Queues P Rate → Option Taken → Exec (ℕ × Queues P Rate)
  unfolding observed
  finish_bite fault seconds q none = pure (0, q)
  finish_bite fault seconds q (some t) = do
    (n, ps) ← process W fault t.bite
    pure (
      n,
      record {
        request_queue = t.queue;
        turns = t.turns;
        response_queue = q.response_queue ++ ps;
        rate = observed t.bite seconds q.rate;
      },
    )

  -- process_bite
  unfoldable pub process_bite : ℕ → Option (ℕ → Bool) → ℕ → Queues P Rate → Exec (ℕ × Queues P Rate)
  unfolding limit_of finish_bite
  process_bite max_bytes fault seconds q =
      finish_bite fault seconds q
        (take_bite (limit_of sizer q.rate) max_bytes q.turns q.request_queue)

  -- process_single_message; it observes the bite of one, too
  unfoldable pub process_single_message :
      ℕ → Option (ℕ → Bool) → ℕ → Queues P Rate → Exec (ℕ × Queues P Rate)
  unfolding finish_bite
  process_single_message max_bytes fault seconds q =
      finish_bite fault seconds q (take_bite 1 max_bytes q.turns q.request_queue)
