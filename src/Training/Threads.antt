-- ===== src/Training/Threads.antt =====
-- Trainings in several threads: each call of `SpLinkSimilarityLinker.train`
-- (src/ere/adapters/splink_linker_impl.py) runs step by step between those of the others, and the
-- resolver's thread takes up what has been trained. A step reads or writes the linker once.
use mathlib.Core.Option
use entity_resolution_engine.Base.{
  ℕ, String, Option, none, some, Bool, true, false, ite, if◌then◌else◌, ℕ_discrete,
}
use entity_resolution_engine.Model.Errors.{Exception, Result, ok, raise}
use entity_resolution_engine.Training.{
  TrainingStatus, TrainingOutcome, skip, failure, success, Linker, needs_training, Effort,
  save_model, swap_in, clean_up, acquire, release,
}

-- How far a call of `train` has come.
pub data Pc : Type 0 where
  idle checked holding opening fitting : Pc
  saving : String → ℕ → Pc
  swapping : String → ℕ → Bool → Pc
  ending : TrainingOutcome → Pc
  releasing : Result TrainingOutcome → Pc
  returned : Result TrainingOutcome → Pc

-- `_train_safe` behind its cursor, behind EM and behind the file
unfoldable pub after_cursor : Option Exception → Pc
after_cursor none = fitting
after_cursor (some e) = releasing (raise e)

unfoldable pub after_fit : Result (String × ℕ) → Pc
after_fit (raise e) = ending (failure e)
after_fit (ok (settings, size)) = saving settings size

unfoldable pub after_save : String → ℕ → Bool → Result (Unit {0}) → Pc
after_save settings size persists (raise e) = ending (failure e)
after_save settings size persists (ok u) = swapping settings size persists

-- The next step of a call.
unfoldable pub advance : Effort → Pc → Linker → Pc × Linker
unfolding needs_training after_cursor after_fit after_save save_model swap_in clean_up
advance effort idle l = (if needs_training l then checked else returned (ok skip), l)
advance effort checked l = if l.training_lock then (returned (ok skip), l) else (holding, acquire l)
advance effort holding l = (if needs_training l then opening else releasing (ok skip), l)
advance effort opening l = (after_cursor effort.cursor, l)
advance effort fitting l = (after_fit effort.em, l)
advance effort (saving settings size) l =
    let (answer, l') = save_model effort.save settings l in
    (after_save settings size l'.has_model_path answer, l')
advance effort (swapping settings size persists) l =
    (ending (success size persists), swap_in settings l)
advance effort (ending o) l = (releasing (clean_up effort.drop o), l)
advance effort (releasing answer) l = (returned answer, release l)
advance effort (returned answer) l = (returned answer, l)

pub record System : Type 0 where
  pub linker : Linker
  -- the calls, by their numbers
  pub calls : ℕ → Pc
  -- the settings with which the resolver's thread rebuilds its scoring linker
  pub rebuilding : Option String

abbrev pub update : ℕ → Pc → (ℕ → Pc) → ℕ → Pc
update t p calls i = ite (ℕ_discrete i t) p (calls i)

-- the system when the call `t` has made a step
unfoldable pub move : ℕ → Effort → System → System
unfolding advance
move t effort s =
    let (p, l) = advance effort (s.calls t) s.linker in
    record s { linker = l; calls = update t p s.calls }

-- `_apply_trained_settings`, when it reads the settings under the lock and when it has rebuilt
unfoldable pub look : System → System
look s = record s { rebuilding = s.linker.pending_trained_settings }

unfoldable pub rebuilt : Option (Result String) → System → System
rebuilt none s = s
rebuilt (some (raise e)) s = record s { rebuilding = none }
rebuilt (some (ok settings)) s = record s {
  linker = record s.linker { scoring = settings; pending_trained_settings = none };
  rebuilding = none;
}

-- A step of the system: of one call, or of the resolver's thread.
pub data Step : System → System → Type 0 where
  call : (t : ℕ) (effort : Effort) {s : System} → Step s (move t effort s)
  read_settings : {s : System} → Step s (look s)
  take_up :
      (rebuild : String → Result String) {s : System}
      → Step s (rebuilt (Option.map rebuild s.rebuilding) s)

-- What a system can come to from the linker that it starts with.
pub data Reach (l : Linker) : System → Type 0 where
  start : Reach l (record { linker = l; calls = λ i. idle; rebuilding = none })
  later : {s s' : System} → Reach l s → Step s s' → Reach l s'

-- Whether a call holds the training lock, and whether it is between the test under the lock and the
-- swap.
abbrev pub holds : Pc → Bool
holds idle = false
holds checked = false
holds holding = true
holds opening = true
holds fitting = true
holds (saving settings size) = true
holds (swapping settings size persists) = true
holds (ending o) = true
holds (releasing answer) = true
holds (returned answer) = false

abbrev pub active : Pc → Bool
active idle = false
active checked = false
active holding = false
active opening = true
active fitting = true
active (saving settings size) = true
active (swapping settings size persists) = true
active (ending o) = false
active (releasing answer) = false
active (returned answer) = false

abbrev pub is_trained : TrainingStatus → Bool
is_trained TrainingStatus.trained = true
is_trained TrainingStatus.skipped = false
is_trained TrainingStatus.failed = false

abbrev pub says_trained : Result TrainingOutcome → Bool
says_trained (ok o) = is_trained o.status
says_trained (raise e) = false

-- Whether a call has the outcome TRAINED.
abbrev pub won : Pc → Bool
won idle = false
won checked = false
won holding = false
won opening = false
won fitting = false
won (saving settings size) = false
won (swapping settings size persists) = false
won (ending o) = is_trained o.status
won (releasing answer) = says_trained answer
won (returned answer) = says_trained answer
