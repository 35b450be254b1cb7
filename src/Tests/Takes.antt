-- ===== src/Tests/Takes.antt =====
-- A take of at most two requests and ten bytes, while one more request arrives.
use entity_resolution_engine.Base.{List, [], ◌∷◌, ◌++◌, ◌≡◌, ◌≤◌, max, length, some, true, arith}
use entity_resolution_engine.Queue.{Raw, Turn, Taken, bytes, take_bite}
use entity_resolution_engine.Queue.Order.{arriving, take_bite-Holds}

abbrev oldest : Raw
oldest = 1 ∷ 2 ∷ []

abbrev turns : List Turn
turns = record { arrivals = (3 ∷ []) ∷ []; time_left = true } ∷ []

take_bite-Holds_example :
    (t : Taken) × (take_bite 2 10 turns (oldest ∷ []) ≡ some t)
    × (t.bite ++ (t.queue ++ arriving t.turns) ≡ (oldest ∷ []) ++ arriving turns)
    × (1 ≤ length t.bite)
    × (length t.bite ≤ 2)
    × (bytes t.bite ≤ max 10 (length oldest))
take_bite-Holds_example = take_bite-Holds 2 10 turns oldest [] (omega arith)
