-- ===== src/Queue.antt =====
-- Taking bites of waiting requests: `RedisRequestQueue.take` (src/ere/adapters/redis_request_queue.py).
-- The list is in Redis, of which the model keeps the waiting requests, the oldest first: producers push
-- at its end, RPUSH and RPOP work at its front. Multi-pop by LMPOP and by RPOP have the same effect.
pub mod Total
pub mod Order
use mathlib.Core.List.{reverse}
use entity_resolution_engine.Base.{
  ℕ, zero, suc, ◌+◌, ◌-◌, Option, none, some, List, [], ◌∷◌, ◌++◌, length, take, drop, Bool, true,
  false, ltb, leb, ◌&&◌, if◌then◌else◌,
}

-- the bytes of a request
abbrev pub Raw : Type 0
Raw = List ℕ

-- What happens before one round of the loop: requests arrive, and the deadline passes or not.
pub record Turn : Type 0 where
  pub arrivals : List Raw
  pub time_left : Bool

-- The bite, the queue behind it, and the turns that are still to come.
pub record Taken : Type 0 where
  pub bite : List Raw
  pub queue : List Raw
  pub turns : List Turn

-- sum(len(raw) for raw in taken)
abbrev pub bytes : List Raw → ℕ
bytes [] = 0
bytes (x ∷ xs) = length x + bytes xs

-- RPUSH with several values
unfoldable pub rpush : List Raw → List Raw → List Raw
rpush queue [] = queue
rpush queue (x ∷ xs) = rpush (x ∷ queue) xs

-- the queue when the round begins, and the turns after it; behind the last turn nothing arrives
abbrev pub arrived : List Turn → List Raw → List Raw
arrived [] queue = queue
arrived (t ∷ ts) queue = queue ++ t.arrivals

abbrev pub later : List Turn → List Turn
later [] = []
later (t ∷ ts) = ts

abbrev pub has_time : List Turn → Bool
has_time [] = false
has_time (t ∷ ts) = t.time_left

-- _within_byte_cap: the requests that fit, behind `used` bytes, and those that are pushed back
unfoldable pub within_byte_cap : ℕ → ℕ → List Raw → List Raw × List Raw
within_byte_cap remaining used [] = ([], [])
within_byte_cap remaining used (x ∷ xs) =
    let rest = within_byte_cap remaining (used + length x) xs in
    if ltb remaining (used + length x) then ([], x ∷ xs) else (x ∷ rest.0, rest.1)

-- What a loop goes on with: turns, bite, its bytes, queue.
abbrev pub Next : Type 0
Next = List Turn → List Raw → ℕ → List Raw → Option Taken

-- nothing waits: break at the deadline, or sleep and continue
unfoldable pub linger : Next → Bool → List Turn → List Raw → ℕ → List Raw → Option Taken
linger next false ts bite used queue = some (record { bite = bite; queue = queue; turns = ts })
linger next true ts bite used queue = next ts bite used queue

-- the end of the loop's body, by what fits; `stopped` where some request has been pushed back
unfoldable pub extend : Next → Bool → List Turn → List Raw → List Raw → ℕ → List Raw → Option Taken
extend next true ts taken bite used queue =
    some (record { bite = bite ++ taken; queue = queue; turns = ts })
extend next false ts taken bite used queue = next ts (bite ++ taken) (used + bytes taken) queue

-- the loop's body behind `_pop_waiting`, with the requests popped
unfoldable pub on_waiting :
    Next → ℕ → Bool → List Turn → List Raw → ℕ → List Raw → List Raw → Option Taken
unfolding linger extend within_byte_cap rpush
on_waiting next max_bytes time ts bite used [] queue = linger next time ts bite used queue
on_waiting next max_bytes time ts bite used (x ∷ xs) queue =
    let (taken, returned) = within_byte_cap (max_bytes - used) 0 (x ∷ xs) in
    extend next (ltb (length taken) (length (x ∷ xs))) ts taken bite used
      (rpush queue (reverse returned))

-- one round: the loop's test and its body
unfoldable pub round_of : Next → ℕ → ℕ → Bool → List Turn → List Raw → ℕ → List Raw → Option Taken
unfolding on_waiting
round_of next limit max_bytes false ts bite used queue =
    some (record { bite = bite; queue = queue; turns = ts })
round_of next limit max_bytes true ts bite used queue =
    let waiting = arrived ts queue in
    let room = limit - length bite in
    on_waiting next max_bytes (has_time ts) (later ts) bite used (take room waiting)
      (drop room waiting)

-- len(bite) < limit and bite_bytes < self._max_bytes
abbrev pub is_open : ℕ → ℕ → List Raw → ℕ → Bool
is_open limit max_bytes bite used = ltb (length bite) limit && ltb used max_bytes

-- the loop, on fuel
unfoldable pub take_loop : ℕ → ℕ → ℕ → Next
unfolding round_of
take_loop zero limit max_bytes ts bite used queue = none
take_loop (suc fuel) limit max_bytes ts bite used queue =
    round_of (take_loop fuel limit max_bytes) limit max_bytes (is_open limit max_bytes bite used) ts
      bite used queue

-- RedisRequestQueue.take, from the queue that BRPOP finds; empty when it times out
unfoldable pub take_bite : ℕ → ℕ → List Turn → List Raw → Option Taken
unfolding take_loop
take_bite limit max_bytes ts [] = some (record { bite = []; queue = []; turns = ts })
take_bite limit max_bytes ts (x ∷ queue) =
    take_loop (limit + length ts + 1) limit max_bytes ts (x ∷ []) (length x) queue
