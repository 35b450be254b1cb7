-- ===== src/Tests/Trains.antt =====
-- A call of `train` that trains while another one asks, a file that cannot be loaded, and the results
-- applied to them.
use entity_resolution_engine.Base.{ℕ, String, none, some, true, false, ◌&&◌, not, ◌⊎◌, ◌≡◌, refl}
use entity_resolution_engine.Model.Errors.{Exception, Result, ok, raise, type_name}
use entity_resolution_engine.Training.{
  ModelSource, TrainingOutcome, skip, Linker, started, build_scoring_linker, start_persisted,
  start_cold, Effort, needs_training, train,
}
use entity_resolution_engine.Training.Threads.{
  idle, returned, System, move, Reach, start, later, call, won, holds,
}
use entity_resolution_engine.Training.Once.{train-once}
use entity_resolution_engine.Training.Untouched.{file-untouched}
use entity_resolution_engine.Training.Alone.{Trains, train-Trains}

abbrev effort : Effort
effort = record { cursor = none; em = ok ("trained", 40); save = none; drop = none }

abbrev cold : Linker
cold = started true none ModelSource.cold_start none "cold"

train-Trains_example :
    ((needs_training cold && not cold.training_lock ≡ false)
      × (train effort cold ≡ (ok skip, cold)))
    ⊎ ((needs_training cold && not cold.training_lock ≡ true)
        × Trains effort cold (train effort cold))
train-Trains_example = train-Trains effort cold

abbrev new_system : System
new_system = record { linker = cold; calls = λ i. idle; rebuilding = none }

-- Both calls pass the first test, the first takes the lock and trains up to the swap.
abbrev both : System
both = move 1 effort (move 0 effort (move 1 effort (move 0 effort new_system)))

abbrev swapped : System
swapped = move 0 effort (move 0 effort (move 0 effort (move 0 effort both)))

to_both : Reach cold both
to_both =
    later (later (later (later start (call 0 effort)) (call 1 effort)) (call 0 effort))
      (call 1 effort)

to_swapped : Reach cold swapped
to_swapped =
    later (later (later (later to_both (call 0 effort)) (call 0 effort)) (call 0 effort))
      (call 0 effort)

train-once_example :
    (won (swapped.calls 0) ≡ true → won (swapped.calls 1) ≡ true → ◌≡◌ {A = ℕ} 0 1)
    × (holds (swapped.calls 0) ≡ true → holds (swapped.calls 1) ≡ true → ◌≡◌ {A = ℕ} 0 1)
train-once_example = train-once cold 0 1 to_swapped

-- A file that is there and is not JSON.
abbrev unusable : String → Result String
unusable content = raise (Exception.value_error "JSONDecodeError" "not JSON")

abbrev blocked : Linker
blocked = started true (some "garbage") ModelSource.cold_start (some "JSONDecodeError") "cold"

built : build_scoring_linker true (some "garbage") unusable (ok "cold") ≡ ok blocked
unfolding build_scoring_linker start_persisted start_cold type_name
built = refl

abbrev asked : System
asked = move 0 effort (record { linker = blocked; calls = λ i. idle; rebuilding = none })

file-untouched_example :
    (asked.linker ≡ blocked)
    × (asked.linker.model_file ≡ some "garbage")
    × ((i : ℕ) (answer : Result TrainingOutcome)
        → asked.calls i ≡ returned answer
        → answer ≡ ok skip)
file-untouched_example =
    file-untouched "garbage" unusable (ok "cold") built (later start (call 0 effort))
