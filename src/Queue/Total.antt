-- ===== src/Queue/Total.antt =====
-- The loop of `take` returns on the fuel that it is given.
use mathlib.Core.List.{reverse}
use entity_resolution_engine.Base.{
  ℕ, zero, suc, ◌+◌, ◌-◌, ◌≤◌, ◌<◌, some, List, [], ◌∷◌, ◌++◌, length, take, drop, length-append,
  Bool, true, false, ltb, ◌≡◌, refl, arith,
}
use entity_resolution_engine.Queue.{
  Raw, Turn, Taken, bytes, rpush, arrived, later, has_time, within_byte_cap, Next, linger, extend,
  on_waiting, round_of, is_open, take_loop,
}

pub le_of_not-ltb : (a b : ℕ) → ltb a b ≡ false → b ≤ a
le_of_not-ltb a b h = ground arith

pub later-le : (ts : List Turn) → length (later ts) ≤ length ts
later-le [] = omega arith
later-le (t ∷ ts) = omega arith

-- One round returns if the loop returns from all that has less room or fewer turns.
module _ (next : Next) (limit max_bytes fuel : ℕ)
    (goes_on : (ts : List Turn) (bite : List Raw) (used : ℕ) (queue : List Raw)
      → (limit - length bite) + length ts < fuel
      → (t : Taken) × (next ts bite used queue ≡ some t)) where
  linger_total :
      (time : Bool) (ts : List Turn) (bite : List Raw) (used : ℕ) (queue : List Raw)
      → (time ≡ true → (limit - length bite) + length ts < fuel)
      → (t : Taken) × (linger next time ts bite used queue ≡ some t)
  unfolding linger
  linger_total true ts bite used queue h = goes_on ts bite used queue (h refl)
  linger_total false ts bite used queue h = (_, refl)

  extend_total :
      (stopped : Bool) (ts : List Turn) (taken bite : List Raw) (used : ℕ) (queue : List Raw)
      → (stopped ≡ false → (limit - length (bite ++ taken)) + length ts < fuel)
      → (t : Taken) × (extend next stopped ts taken bite used queue ≡ some t)
  unfolding extend
  extend_total true ts taken bite used queue h = (_, refl)
  extend_total false ts taken bite used queue h =
      goes_on ts (bite ++ taken) (used + bytes taken) queue (h refl)

  fewer_turns :
      (ts : List Turn) (n : ℕ)
      → n + length ts < suc fuel
      → has_time ts ≡ true
      → n + length (later ts) < fuel
  fewer_turns [] n h time = absurd (ground arith)
  fewer_turns (t ∷ ts) n h time = omega arith

  on_waiting_total :
      (ts : List Turn) (bite : List Raw) (used : ℕ) (waiting queue : List Raw)
      → (limit - length bite) + length ts < suc fuel
      → length bite < limit
      → (t : Taken) × (on_waiting next max_bytes (has_time ts) (later ts) bite used waiting queue
          ≡ some t)
  unfolding on_waiting
  on_waiting_total ts bite used [] queue h room =
      linger_total (has_time ts) (later ts) bite used queue (fewer_turns ts (limit - length bite) h)
  on_waiting_total ts bite used (x ∷ xs) queue h room =
      let fits = within_byte_cap (max_bytes - used) 0 (x ∷ xs) in
      extend_total (ltb (length fits.0) (length (x ∷ xs))) (later ts) fits.0 bite used
        (rpush queue (reverse fits.1))
        (λ all_fit.
          let many : length (x ∷ xs) ≤ length fits.0 =
            le_of_not-ltb (length fits.0) (length (x ∷ xs)) all_fit in
          omega (arith, many, length-append bite fits.0, later-le ts))

  round_of_total :
      (ts : List Turn) (bite : List Raw) (used : ℕ) (queue : List Raw) (b : Bool)
      → is_open limit max_bytes bite used ≡ b
      → (limit - length bite) + length ts < suc fuel
      → (t : Taken) × (round_of next limit max_bytes b ts bite used queue ≡ some t)
  unfolding round_of
  round_of_total ts bite used queue false e h = (_, refl)
  round_of_total ts bite used queue true e h =
      on_waiting_total ts bite used (take (limit - length bite) (arrived ts queue))
        (drop (limit - length bite) (arrived ts queue)) h (ground arith)

pub take_loop_total :
    (limit max_bytes fuel : ℕ) (ts : List Turn) (bite : List Raw) (used : ℕ) (queue : List Raw)
    → (limit - length bite) + length ts < fuel
    → (t : Taken) × (take_loop fuel limit max_bytes ts bite used queue ≡ some t)
unfolding take_loop
take_loop_total limit max_bytes zero ts bite used queue h = absurd (omega arith)
take_loop_total limit max_bytes (suc fuel) ts bite used queue h =
    round_of_total (take_loop fuel limit max_bytes) limit max_bytes fuel
      (take_loop_total limit max_bytes fuel) ts bite used queue (is_open limit max_bytes bite used)
      refl h
