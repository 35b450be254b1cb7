-- ===== src/Training.antt =====
-- The similarity model and its one training: `SpLinkSimilarityLinker` of
-- src/ere/adapters/splink_linker_impl.py without its SQL, src/ere/models/resolver/model_state.py and
-- src/ere/services/model_lifecycle.py. A model's settings are their JSON text. What Splink and the
-- database do is given to each step, by the results of their calls.
pub mod Lifecycle
pub mod Threads
pub mod Agrees
pub mod Apart
pub mod Once
pub mod Untouched
pub mod Alone
use entity_resolution_engine.Base.{
  ℕ, String, Option, none, some, Bool, true, false, ◌&&◌, ◌||◌, not, leb, ltb, if◌then◌else◌,
}
use entity_resolution_engine.Model.Errors.{Exception, Result, ok, raise, type_name}

-- ModelSource
pub data ModelSource : Type 0 where
  cold_start persisted trained : ModelSource

-- TrainingStatus
pub data TrainingStatus : Type 0 where
  trained skipped failed : TrainingStatus

pub record ModelStatus : Type 0 where
  pub source : ModelSource
  pub load_error_type : Option String

pub record TrainingOutcome : Type 0 where
  pub status : TrainingStatus
  pub sample_size : Option ℕ
  pub model_persisted : Bool
  pub error_type : Option String

-- TrainingOutcome(status=TrainingStatus.SKIPPED)
abbrev pub skip : TrainingOutcome
skip = record {
  status = TrainingStatus.skipped;
  sample_size = none;
  model_persisted = false;
  error_type = none;
}

-- TrainingOutcome(status=TrainingStatus.FAILED, error_type=...)
abbrev pub failure : Exception → TrainingOutcome
failure e = record {
  status = TrainingStatus.failed;
  sample_size = none;
  model_persisted = false;
  error_type = some (type_name e);
}

abbrev pub success : ℕ → Bool → TrainingOutcome
success size saved = record {
  status = TrainingStatus.trained;
  sample_size = some size;
  model_persisted = saved;
  error_type = none;
}

-- The fields of the linker that training reads or writes; `model_file` is the content of the file.
pub record Linker : Type 0 where
  pub model_source : ModelSource
  pub model_load_error_type : Option String
  pub has_model_path : Bool
  pub model_file : Option String
  -- the settings that the scoring linker was built from
  pub scoring : String
  pub pending_trained_settings : Option String
  pub training_lock : Bool

-- `started has_path file source err scoring`: the fields as `__init__` leaves them
abbrev pub started : Bool → Option String → ModelSource → Option String → String → Linker
started has_path file source err scoring = record {
  model_source = source;
  model_load_error_type = err;
  has_model_path = has_path;
  model_file = file;
  scoring = scoring;
  pending_trained_settings = none;
  training_lock = false;
}

-- the end of `_build_scoring_linker`: the configured settings
unfoldable pub start_cold : Bool → Option String → Option String → Result String → Result Linker
start_cold has_path file err (raise e) = raise e
start_cold has_path file err (ok settings) =
    ok (started has_path file ModelSource.cold_start err settings)

-- `_build_scoring_linker` for a file, by what Splink makes of it
unfoldable pub start_persisted : Option String → Result String → Result String → Result Linker
unfolding start_cold
start_persisted file (ok settings) cold = ok (started true file ModelSource.persisted none settings)
start_persisted file (raise e) cold = start_cold true file (some (type_name e)) cold

-- _build_scoring_linker: `load` is what Splink makes of a file, `cold` of the configured settings
unfoldable pub build_scoring_linker :
    Bool → Option String → (String → Result String) → Result String → Result Linker
unfolding start_cold start_persisted
build_scoring_linker false file load cold = start_cold false file none cold
build_scoring_linker true none load cold = start_cold true none none cold
build_scoring_linker true (some content) load cold =
    start_persisted (some content) (load content) cold

-- model_status
unfoldable pub model_status : Linker → ModelStatus
model_status l = record { source = l.model_source; load_error_type = l.model_load_error_type }

abbrev pub is_cold : ModelSource → Bool
is_cold ModelSource.cold_start = true
is_cold ModelSource.persisted = false
is_cold ModelSource.trained = false

abbrev pub is_none : Option String → Bool
is_none none = true
is_none (some e) = false

-- needs_training
unfoldable pub needs_training : Linker → Bool
needs_training l = is_cold l.model_source && is_none l.model_load_error_type

-- What one training meets: whether its cursor can be made, what EM yields on a sample of which size,
-- whether the file can be written, and what it holds if not, and whether the sample can be dropped.
pub record Effort : Type 0 where
  pub cursor : Option Exception
  pub em : Result (String × ℕ)
  pub save : Option (Exception × Option String)
  pub drop : Option Exception

-- save_model_to_json(str(self._model_path), overwrite=True)
unfoldable pub write_file :
    Option (Exception × Option String) → String → Linker → Result (Unit {0}) × Linker
write_file none settings l = (ok tt, record l { model_file = some settings })
write_file (some (e, content)) settings l = (raise e, record l { model_file = content })

-- if self._model_path is not None: save_model_to_json(...)
unfoldable pub save_model :
    Option (Exception × Option String) → String → Linker → Result (Unit {0}) × Linker
unfolding write_file
save_model fault settings l = if l.has_model_path then write_file fault settings l else (ok tt, l)

-- the swap, under its lock
unfoldable pub swap_in : String → Linker → Linker
swap_in settings l = record l {
  pending_trained_settings = some settings;
  model_source = ModelSource.trained;
}

-- the `finally` of `_train_safe`
unfoldable pub clean_up : Option Exception → TrainingOutcome → Result TrainingOutcome
clean_up none o = ok o
clean_up (some e) o = raise e

-- the end of the `try` of `_train_safe`, by what saving has come to
unfoldable pub finish_training : String → ℕ → Result (Unit {0}) × Linker → TrainingOutcome × Linker
unfolding swap_in
finish_training settings size (raise e, l) = (failure e, l)
finish_training settings size (ok u, l) = (success size l.has_model_path, swap_in settings l)

-- the `try` of `_train_safe`
unfoldable pub attempt_training : Effort → Result (String × ℕ) → Linker → TrainingOutcome × Linker
unfolding save_model finish_training
attempt_training effort (raise e) l = (failure e, l)
attempt_training effort (ok (settings, size)) l =
    finish_training settings size (save_model effort.save settings l)

-- _train_safe, by whether its cursor is made
unfoldable pub train_with : Option Exception → Effort → Linker → Result TrainingOutcome × Linker
unfolding attempt_training clean_up
train_with (some e) effort l = (raise e, l)
train_with none effort l =
    let (o, l') = attempt_training effort effort.em l in (clean_up effort.drop o, l')

-- _train_safe
unfoldable pub train_safe : Effort → Linker → Result TrainingOutcome × Linker
unfolding train_with
train_safe effort l = train_with effort.cursor effort l

abbrev pub acquire : Linker → Linker
acquire l = record l { training_lock = true }

abbrev pub release : Linker → Linker
release l = record l { training_lock = false }

-- the `try` of `train`, under the lock that its `finally` releases
unfoldable pub train_locked : Effort → Linker → Result TrainingOutcome × Linker
unfolding needs_training train_safe
train_locked effort l =
    let (answer, l') = if needs_training l then train_safe effort l else (ok skip, l) in
    (answer, release l')

-- train, run by one thread with no other
unfoldable pub train : Effort → Linker → Result TrainingOutcome × Linker
unfolding needs_training train_locked
train effort l =
    if needs_training l
    then if l.training_lock then (ok skip, l) else train_locked effort (acquire l)
    else (ok skip, l)

-- _apply_trained_settings, by what the rebuild of the linker comes to
unfoldable pub apply_trained_settings :
    (String → Result String) → Linker → Result (Unit {0}) × Linker
apply_trained_settings rebuild l = elim l.pending_trained_settings [
  | none ↦ (ok tt, l)
  | some settings ↦ elim (rebuild settings) [
    | raise e ↦ (raise e, l)
    | ok scoring ↦ (ok tt, record l { scoring = scoring; pending_trained_settings = none })
  ]
]
