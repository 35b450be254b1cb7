-- ===== src/Queue/Order.antt =====
-- A bite holds the oldest requests, in order, within its limits.
use mathlib.Core.List.{reverse, reverse-cons, reverse-reverse, append_assoc}
use mathlib.Core.Option.{some-injective}
use entity_resolution_engine.Base.{
  ℕ, zero, suc, ◌+◌, ◌-◌, ◌≤◌, ◌<◌, max, Option, some, List, [], ◌∷◌, ◌++◌, length, take, drop,
  length-append, length-take, take-append-drop, Bool, true, false, ◌≡◌, refl, ap, sym, ◌∙◌, arith,
  subst,
}
use entity_resolution_engine.Queue.{
  Raw, Turn, Taken, bytes, rpush, arrived, later, has_time, within_byte_cap, Next, linger, extend,
  on_waiting, round_of, is_open, take_loop, take_bite,
}
use entity_resolution_engine.Queue.Total.{take_loop_total}

-- all requests that are still to arrive
abbrev pub arriving : List Turn → List Raw
arriving [] = []
arriving (t ∷ ts) = t.arrivals ++ arriving ts

rpush-append : (queue xs : List Raw) → rpush queue xs ≡ reverse xs ++ queue
unfolding rpush
rpush-append queue [] = refl
rpush-append queue (x ∷ xs) =
    rpush-append (x ∷ queue) xs
    ∙ sym (append_assoc (reverse xs) (x ∷ []) queue)
    ∙ ap (λ l. l ++ queue) (sym (reverse-cons x xs))

-- What is pushed back in reverse stands before the queue, in order.
rpush-reverse : (queue xs : List Raw) → rpush queue (reverse xs) ≡ xs ++ queue
rpush-reverse queue xs = rpush-append queue (reverse xs) ∙ ap (λ l. l ++ queue) (reverse-reverse xs)

within_byte_cap-append :
    (remaining used : ℕ) (xs : List Raw)
    → (within_byte_cap remaining used xs).0 ++ (within_byte_cap remaining used xs).1 ≡ xs
unfolding within_byte_cap
within_byte_cap-append remaining used [] = refl
within_byte_cap-append remaining used (x ∷ xs) =
    ground (arith, within_byte_cap-append remaining (used + length x) xs)

within_byte_cap-bytes :
    (remaining used : ℕ) (xs : List Raw)
    → used ≤ remaining
    → used + bytes (within_byte_cap remaining used xs).0 ≤ remaining
unfolding within_byte_cap
within_byte_cap-bytes remaining used [] h = omega arith
within_byte_cap-bytes remaining used (x ∷ xs) h =
    ground (arith, within_byte_cap-bytes remaining (used + length x) xs)

bytes-append : (xs ys : List Raw) → bytes (xs ++ ys) ≡ bytes xs + bytes ys
bytes-append [] ys = omega arith
bytes-append (x ∷ xs) ys = omega (arith, bytes-append xs ys)

arrived-arriving :
    (ts : List Turn) (queue : List Raw)
    → arrived ts queue ++ arriving (later ts) ≡ queue ++ arriving ts
arrived-arriving [] queue = refl
arrived-arriving (t ∷ ts) queue = append_assoc queue t.arrivals (arriving ts)

regroup :
    (bite taken returned queue rest : List Raw) {waiting queue' : List Raw}
    → taken ++ returned ≡ waiting
    → queue' ≡ returned ++ queue
    → (bite ++ taken) ++ (queue' ++ rest) ≡ bite ++ ((waiting ++ queue) ++ rest)
regroup bite taken returned queue rest split pushed = rw (pushed, ← split) (simp append_assoc refl)

module _ (all : List Raw) (limit max_bytes cap : ℕ) where
  -- The bite, the queue and what is still to arrive are all requests, in order, and the bite is
  -- within its limits.
  pub record Holds (ts : List Turn) (bite : List Raw) (queue : List Raw) : Type 0 where
    pub order : bite ++ (queue ++ arriving ts) ≡ all
    pub size : length bite ≤ limit
    pub weight : bytes bite ≤ cap
    pub nonempty : 1 ≤ length bite

  abbrev Ends : Option Taken → Type 0
  Ends o = (t : Taken) → o ≡ some t → Holds t.turns t.bite t.queue

  abbrev Keeps : Next → Type 0
  Keeps next =
      (ts : List Turn) (bite : List Raw) (used : ℕ) (queue : List Raw)
      → Holds ts bite queue
      → used ≡ bytes bite
      → Ends (next ts bite used queue)

  Ends-here :
      (ts : List Turn) (bite queue : List Raw)
      → Holds ts bite queue
      → Ends (some (record { bite = bite; queue = queue; turns = ts }))
  Ends-here ts bite queue h t e =
      subst (λ (x : Taken). Holds x.turns x.bite x.queue) (some-injective _ _ e) h

  module _ (next : Next) (keeps : Keeps next) (weighs : max_bytes ≤ cap) where
    linger-Ends :
        (time : Bool) (ts : List Turn) (bite : List Raw) (used : ℕ) (queue : List Raw)
        → Holds ts bite queue
        → used ≡ bytes bite
        → Ends (linger next time ts bite used queue)
    unfolding linger
    linger-Ends true ts bite used queue h same = keeps ts bite used queue h same
    linger-Ends false ts bite used queue h same = Ends-here ts bite queue h

    extend-Ends :
        (stopped : Bool) (ts : List Turn) (taken bite : List Raw) (used : ℕ) (queue : List Raw)
        → Holds ts (bite ++ taken) queue
        → used ≡ bytes bite
        → Ends (extend next stopped ts taken bite used queue)
    unfolding extend
    extend-Ends true ts taken bite used queue h same = Ends-here ts (bite ++ taken) queue h
    extend-Ends false ts taken bite used queue h same =
        keeps ts (bite ++ taken) (used + bytes taken) queue h
          (omega (arith, bytes-append bite taken))

    on_waiting-Ends :
        (time : Bool) (ts : List Turn) (bite : List Raw) (used : ℕ) (waiting queue : List Raw)
        → bite ++ ((waiting ++ queue) ++ arriving ts) ≡ all
        → length bite + length waiting ≤ limit
        → used < max_bytes
        → bytes bite ≤ cap
        → used ≡ bytes bite
        → 1 ≤ length bite
        → Ends (on_waiting next max_bytes time ts bite used waiting queue)
    unfolding on_waiting
    on_waiting-Ends time ts bite used [] queue order size light weight same nonempty =
        linger-Ends time ts bite used queue
          (record { order = order; size = omega arith; weight = weight; nonempty = nonempty }) same
    on_waiting-Ends time ts bite used (x ∷ xs) queue order size light weight same nonempty =
        let fits = within_byte_cap (max_bytes - used) 0 (x ∷ xs) in
        let split : fits.0 ++ fits.1 ≡ x ∷ xs =
          within_byte_cap-append (max_bytes - used) 0 (x ∷ xs) in
        extend-Ends _ ts fits.0 bite used (rpush queue (reverse fits.1))
          (record {
            order =
                regroup bite fits.0 fits.1 queue (arriving ts) split (rpush-reverse queue fits.1)
                ∙ order;
            size =
                omega
                  (arith, ap length split, length-append fits.0 fits.1, length-append bite fits.0);
            weight = omega (
              arith,
              bytes-append bite fits.0,
              within_byte_cap-bytes (max_bytes - used) 0 (x ∷ xs) (omega arith),
            );
            nonempty = omega (arith, length-append bite fits.0);
          })
          same

    round_of-Ends :
        (ts : List Turn) (bite : List Raw) (used : ℕ) (queue : List Raw)
        → Holds ts bite queue
        → used ≡ bytes bite
        → Ends
            (round_of next limit max_bytes (is_open limit max_bytes bite used) ts bite used queue)
    unfolding round_of
    round_of-Ends ts bite used queue h same = tested (is_open limit max_bytes bite used) refl
      where
        tested :
            (b : Bool)
            → is_open limit max_bytes bite used ≡ b
            → Ends (round_of next limit max_bytes b ts bite used queue)
        tested false e = Ends-here ts bite queue h
        tested true e =
            let room = limit - length bite in
            let waiting = arrived ts queue in
            on_waiting-Ends (has_time ts) (later ts) bite used (take room waiting)
              (drop room waiting)
              (rw take-append-drop (ap (λ l. bite ++ l) (arrived-arriving ts queue) ∙ h.order))
              (omega (arith, length-take room waiting, h.size)) (ground arith) h.weight same
              h.nonempty

  take_loop-Ends : (fuel : ℕ) → max_bytes ≤ cap → Keeps (take_loop fuel limit max_bytes)
  unfolding take_loop
  take_loop-Ends zero weighs ts bite used queue h same = λ t e. absurd (ground arith)
  take_loop-Ends (suc fuel) weighs ts bite used queue h same =
      round_of-Ends (take_loop fuel limit max_bytes) (take_loop-Ends fuel weighs) weighs ts bite
        used queue h same

-- Where the limit is positive and a request waits, a take returns, whatever arrives and whenever the
-- deadline passes. The bite, the queue behind it and what has yet to arrive are the requests that waited
-- or arrive, each once and in order; the bite has at least one request and at most `limit`, and no more
-- bytes than `max_bytes`, or than its first request where that is larger.
pub take_bite-Holds :
    (limit max_bytes : ℕ) (ts : List Turn) (first : Raw) (queue : List Raw)
    → 1 ≤ limit
    → (t : Taken) × (take_bite limit max_bytes ts (first ∷ queue) ≡ some t)
      × (t.bite ++ (t.queue ++ arriving t.turns) ≡ (first ∷ queue) ++ arriving ts)
      × (1 ≤ length t.bite)
      × (length t.bite ≤ limit)
      × (bytes t.bite ≤ max max_bytes (length first))
unfolding take_bite
take_bite-Holds limit max_bytes ts first queue positive =
    let (t, h) =
      take_loop_total limit max_bytes (limit + length ts + 1) ts (first ∷ []) (length first) queue
        (omega arith) in
    let held =
      take_loop-Ends ((first ∷ queue) ++ arriving ts) limit max_bytes (max max_bytes (length first))
        (limit + length ts + 1) (omega arith) ts (first ∷ []) (length first) queue
        (record { order = refl; size = omega arith; weight = omega arith; nonempty = omega arith })
        (omega arith) t h in
    (t, h, held.order, held.nonempty, held.size, held.weight)
