-- ===== src/Training/Lifecycle.antt =====
-- What is logged of the model, and the training at the start: src/ere/services/model_lifecycle.py.
use entity_resolution_engine.Base.{
  ℕ, String, Option, none, some, Bool, ◌||◌, not, leb, ltb, if◌then◌else◌,
}
use entity_resolution_engine.Model.Errors.{Result, ok, raise}
use entity_resolution_engine.Training.{
  ModelSource, TrainingStatus, ModelStatus, TrainingOutcome, Linker, needs_training, Effort, train,
}

-- What is logged, and at which level.
pub data LogLine : Type 0 where
  unusable_file : String → LogLine
  source_is : ModelSource → LogLine
  training_failed : Option String → LogLine
  training_complete : Option ℕ → Bool → LogLine
  training_skipped : LogLine

-- log_model_status
unfoldable pub log_model_status : ModelStatus → LogLine
log_model_status s = elim s.load_error_type [
  | some err ↦ unusable_file err
  | none ↦ source_is s.source
]

unfoldable pub log_status : TrainingStatus → TrainingOutcome → LogLine
log_status TrainingStatus.failed o = training_failed o.error_type
log_status TrainingStatus.trained o = training_complete o.sample_size o.model_persisted
log_status TrainingStatus.skipped o = training_skipped

-- log_training_outcome
unfoldable pub log_training_outcome : TrainingOutcome → LogLine
unfolding log_status
log_training_outcome o = log_status o.status o

-- train_on_start_if_due: what is logged, if a training is run
unfoldable pub train_on_start_if_due : Effort → ℕ → ℕ → Linker → Result (Option LogLine) × Linker
unfolding needs_training train log_training_outcome
train_on_start_if_due effort stored threshold l =
    if leb threshold 0 || (ltb stored threshold || not (needs_training l))
    then (ok none, l)
    else let (answer, l') = train effort l in
      (elim answer [ ok o ↦ ok (some (log_training_outcome o)) | raise e ↦ raise e ], l')
