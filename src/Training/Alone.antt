-- ===== src/Training/Alone.antt =====
-- What one call of `train` (src/ere/adapters/splink_linker_impl.py) does that no other call disturbs.
use entity_resolution_engine.Base.{
  ◌&&◌, not, ℕ, String, Option, none, some, Bool, true, false, if◌then◌else◌, ◌≡◌, ◌⊎◌, inl, inr,
  refl, sym, ◌∙◌, ap, subst, arith,
}
use entity_resolution_engine.Model.Errors.{Exception, Result, ok, raise, ok-injective}
use entity_resolution_engine.Training.{
  ModelSource, TrainingStatus, TrainingOutcome, skip, success, Linker, needs_training, Effort,
  write_file, save_model, swap_in, clean_up, acquire, release, finish_training, attempt_training,
  train_with, train_safe, train_locked, train,
}

-- The linker once it is trained: it has the settings, and so has its file, if it has one.
abbrev pub trained_with : String → Linker → Linker
trained_with settings l = record l {
  model_file = if l.has_model_path then some settings else l.model_file;
  pending_trained_settings = some settings;
  model_source = ModelSource.trained;
}

-- The linker is as it was, but for its file, if it has one.
abbrev pub SameModel : Linker → Linker → Type 0
SameModel l l' =
    (file : Option String) × (l.has_model_path ≡ false → file ≡ l.model_file)
    × (l' ≡ record l { model_file = file })

-- A training has succeeded with the settings, or failed.
abbrev Ended : String → ℕ → Linker → TrainingOutcome × Linker → Type 0
Ended settings size l x =
    ((x.0 ≡ success size l.has_model_path) × (x.1 ≡ trained_with settings l))
    ⊎ ((x.0.status ≡ TrainingStatus.failed) × SameModel l x.1)

save-Ended :
    (fault : Option (Exception × Option String)) (settings : String) (size : ℕ) (l : Linker)
    (b : Bool)
    → l.has_model_path ≡ b
    → Ended settings size l (finish_training settings size (save_model fault settings l))
unfolding finish_training save_model write_file swap_in
save-Ended none settings size l true h = inl (rw h (refl, refl))
save-Ended none settings size l false h = inl (rw h (refl, refl))
save-Ended (some (e, content)) settings size l true h =
    inr (rw h (refl, (content, (λ p. absurd (ground arith)), refl)))
save-Ended (some (e, content)) settings size l false h = inl (rw h (refl, refl))

attempt-Ended :
    (effort : Effort) (em : Result (String × ℕ)) (l : Linker)
    → ((settings : String) × (size : ℕ) × (em ≡ ok (settings, size))
        × ((attempt_training effort em l).0 ≡ success size l.has_model_path)
        × ((attempt_training effort em l).1 ≡ trained_with settings l))
      ⊎ (((attempt_training effort em l).0.status ≡ TrainingStatus.failed)
          × SameModel l (attempt_training effort em l).1)
unfolding attempt_training
attempt-Ended effort (raise e) l = inr (refl, (l.model_file, (λ p. refl), refl))
attempt-Ended effort (ok (settings, size)) l =
    elim (save-Ended effort.save settings size l l.has_model_path refl) [
      | inl (o, is) ↦ inl (settings, size, refl, o, is)
      | inr fails ↦ inr fails
    ]

clean-failed :
    (drop : Option Exception) (o : TrainingOutcome)
    → o.status ≡ TrainingStatus.failed
    → (o' : TrainingOutcome) → clean_up drop o ≡ ok o'
    → o'.status ≡ TrainingStatus.failed
unfolding clean_up
clean-failed none o failed o' h =
    ap (λ (x : TrainingOutcome). x.status) (sym (ok-injective h)) ∙ failed
clean-failed (some e) o failed o' h = absurd (ground arith)

-- The linker is trained, for good; or it is as it was, and the call has not reported success.
abbrev pub Trains : Effort → Linker → Result TrainingOutcome × Linker → Type 0
Trains effort l x =
    ((settings : String) × (size : ℕ) × (effort.cursor ≡ none)
      × (effort.em ≡ ok (settings, size))
      × (x.0 ≡ clean_up effort.drop (success size l.has_model_path))
      × (x.1 ≡ release (trained_with settings l))
      × ((later : Effort) → train later x.1 ≡ (ok skip, x.1)))
    ⊎ (((o : TrainingOutcome) → x.0 ≡ ok o → o.status ≡ TrainingStatus.failed)
        × SameModel (release l) x.1)

trained-skips :
    (later : Effort) (settings : String) (l l' : Linker)
    → l' ≡ release (trained_with settings l)
    → train later l' ≡ (ok skip, l')
unfolding train needs_training
trained-skips later settings l l' h = subst (λ x. train later x ≡ (ok skip, x)) (sym h) refl

train_with-Trains :
    (cursor : Option Exception) (effort : Effort) (l : Linker)
    → effort.cursor ≡ cursor
    → let (answer, l') = train_with cursor effort (acquire l) in
      Trains effort l (answer, release l')
unfolding train_with
train_with-Trains (some e) effort l h =
    inr ((λ o p. absurd (ground arith)), (l.model_file, (λ p. refl), refl))
train_with-Trains none effort l h = elim (attempt-Ended effort effort.em (acquire l)) [
  | inl (settings, size, em, o, is) ↦ inl (
    settings,
    size,
    h,
    em,
    ap (clean_up effort.drop) o,
    ap release is,
    λ later. trained-skips later settings l _ (ap release is),
  )
  | inr (failed, (file, same, is)) ↦
      inr (clean-failed effort.drop _ failed, (file, same, ap release is))
]

-- what the call does behind its two tests
abbrev locked : Effort → Linker → Result TrainingOutcome × Linker
locked effort l =
    let (answer, l') = train_with effort.cursor effort (acquire l) in (answer, release l')

train-eq :
    (effort : Effort) (l : Linker) (needs held : Bool)
    → needs_training l ≡ needs
    → l.training_lock ≡ held
    → train effort l ≡ (if needs && not held then locked effort l else (ok skip, l))
unfolding train train_locked train_safe needs_training
train-eq effort l false held h k = rw h refl
train-eq effort l true true h k = rw (h, k) refl
train-eq effort l true false h k = rw (h, k) refl

-- A call that no other disturbs: it is skipped, and changes nothing, if the model is trained or
-- persisted, if its file could not be used, or if the lock is held. If not, it gives the lock back, and
-- either EM has yielded settings, the linker and its file, if it has a path, hold them, success is reported
-- unless the clean-up raises, and every later call is skipped; or the call raises or reports failure, and
-- nothing but that file may have changed.
pub train-Trains :
    (effort : Effort) (l : Linker)
    → ((needs_training l && not l.training_lock ≡ false) × (train effort l ≡ (ok skip, l)))
      ⊎ ((needs_training l && not l.training_lock ≡ true) × Trains effort l (train effort l))
train-Trains effort l = by (needs_training l && not l.training_lock) refl
  where
    called :
        (b : Bool)
        → needs_training l && not l.training_lock ≡ b
        → train effort l ≡ (if b then locked effort l else (ok skip, l))
    called b h =
        train-eq effort l (needs_training l) l.training_lock refl refl
        ∙ ap (λ c. if c then locked effort l else (ok skip, l)) h

    by :
        (b : Bool)
        → needs_training l && not l.training_lock ≡ b
        → ((needs_training l && not l.training_lock ≡ false) × (train effort l ≡ (ok skip, l)))
          ⊎ ((needs_training l && not l.training_lock ≡ true) × Trains effort l (train effort l))
    by false h = inl (h, called false h)
    by true h = inr (
      h,
      subst (Trains effort l) (sym (called true h)) (train_with-Trains effort.cursor effort l refl),
    )
