-- ===== src/Training/Agrees.antt =====
-- What a call of `train` and the linker agree on, and that a step of the call keeps it.
use entity_resolution_engine.Base.{
  ℕ, String, Option, none, some, Bool, true, false, ◌&&◌, if◌then◌else◌, ◌≡◌, refl, ◌∙◌, ap, arith,
}
use entity_resolution_engine.Model.Errors.{Exception, Result, ok, raise}
use entity_resolution_engine.Training.{
  ModelSource, TrainingOutcome, Linker, needs_training, Effort, save_model, write_file, swap_in,
  clean_up, is_cold, is_none,
}
use entity_resolution_engine.Training.Threads.{
  Pc, idle, checked, holding, opening, fitting, saving, swapping, ending, releasing, returned,
  after_cursor, after_fit, after_save, advance, holds, active, won,
}

pub if-either :
    {A : Type 0} (Q : A → Type 0) (b : Bool) {x y : A}
    → (b ≡ true → Q x)
    → (b ≡ false → Q y)
    → Q (if b then x else y)
if-either Q true f g = f refl
if-either Q false f g = g refl

-- What a linker and a call agree on.
pub record Agrees (l : Linker) (p : Pc) : Type 0 where
  pub locked : holds p ≡ true → l.training_lock ≡ true
  pub due : active p ≡ true → needs_training l ≡ true
  pub settled : won p ≡ true → l.model_source ≡ ModelSource.trained

-- What steps besides the swap leave of a linker.
pub record Same (l l' : Linker) : Type 0 where
  pub lock : l'.training_lock ≡ l.training_lock
  pub source : l'.model_source ≡ l.model_source
  pub err : l'.model_load_error_type ≡ l.model_load_error_type

pub Same-needs_training : {l l' : Linker} → Same l l' → needs_training l' ≡ needs_training l
unfolding needs_training
Same-needs_training {l} {l'} s =
    ap (λ x. is_cold x && is_none l'.model_load_error_type) s.source
    ∙ ap (λ x. is_cold l.model_source && is_none x) s.err

pub Same-Agrees : {l l' : Linker} (p : Pc) → Same l l' → Agrees l p → Agrees l' p
Same-Agrees p s a = record {
  locked = λ h. s.lock ∙ a.locked h;
  due = λ h. Same-needs_training s ∙ a.due h;
  settled = λ h. s.source ∙ a.settled h;
}

write_file-Same :
    (fault : Option (Exception × Option String)) (settings : String) (l : Linker)
    → Same l (write_file fault settings l).1
unfolding write_file
write_file-Same none settings l = record { lock = refl; source = refl; err = refl }
write_file-Same (some (e, content)) settings l = record { lock = refl; source = refl; err = refl }

pub Same-refl : (l : Linker) → Same l l
Same-refl l = record { lock = refl; source = refl; err = refl }

pub save_model-Same :
    (fault : Option (Exception × Option String)) (settings : String) (l : Linker)
    → Same l (save_model fault settings l).1
unfolding save_model
save_model-Same fault settings l =
    if-either (λ (r : Result (Unit {0}) × Linker). Same l r.1) l.has_model_path
      (λ e. write_file-Same fault settings l) (λ e. Same-refl l)

-- A call that is neither active nor done with a training agrees with every linker under its lock.
pub Agrees-plain :
    {l : Linker} {p : Pc}
    → (holds p ≡ true → l.training_lock ≡ true)
    → active p ≡ false
    → won p ≡ false
    → Agrees l p
Agrees-plain h a w = record {
  locked = h;
  due = λ e. absurd (ground arith);
  settled = λ e. absurd (ground arith);
}

-- A call that is active agrees with the linker that it is to train.
pub Agrees-active :
    {l : Linker} {p : Pc}
    → l.training_lock ≡ true
    → needs_training l ≡ true
    → won p ≡ false
    → Agrees l p
Agrees-active h d w = record { locked = λ e. h; due = λ e. d; settled = λ e. absurd (ground arith) }

after_cursor-Agrees :
    (x : Option Exception) {l : Linker}
    → l.training_lock ≡ true
    → needs_training l ≡ true
    → Agrees l (after_cursor x)
unfolding after_cursor
after_cursor-Agrees none h d = Agrees-active h d refl
after_cursor-Agrees (some e) h d = Agrees-active h d refl

after_fit-Agrees :
    (x : Result (String × ℕ)) {l : Linker}
    → l.training_lock ≡ true
    → needs_training l ≡ true
    → Agrees l (after_fit x)
unfolding after_fit
after_fit-Agrees (ok (settings, size)) h d = Agrees-active h d refl
after_fit-Agrees (raise e) h d = Agrees-active h d refl

after_save-Agrees :
    (settings : String) (size : ℕ) (b : Bool) (x : Result (Unit {0})) {l : Linker}
    → l.training_lock ≡ true
    → needs_training l ≡ true
    → Agrees l (after_save settings size b x)
unfolding after_save
after_save-Agrees settings size b (ok u) h d = Agrees-active h d refl
after_save-Agrees settings size b (raise e) h d = Agrees-active h d refl

clean_up-Agrees :
    (x : Option Exception) (o : TrainingOutcome) {l : Linker}
    → Agrees l (ending o)
    → Agrees l (releasing (clean_up x o))
unfolding clean_up
clean_up-Agrees none o a = record {
  locked = a.locked;
  due = λ e. absurd (ground arith);
  settled = a.settled;
}
clean_up-Agrees (some e) o a = Agrees-plain a.locked refl refl

-- A step keeps what the call that makes it and the linker agree on.
pub advance-Agrees :
    (effort : Effort) (p : Pc) (l : Linker)
    → Agrees l p
    → Agrees (advance effort p l).1 (advance effort p l).0
unfolding advance swap_in
advance-Agrees effort idle l a =
    if-either (Agrees l) (needs_training l)
      (λ e. Agrees-plain (λ h. absurd (ground arith)) refl refl)
      (λ e. Agrees-plain (λ h. absurd (ground arith)) refl refl)
advance-Agrees effort checked l a =
    if-either (λ (r : Pc × Linker). Agrees r.1 r.0) l.training_lock
      (λ e. Agrees-plain (λ h. absurd (ground arith)) refl refl)
      (λ e. Agrees-plain (λ h. refl) refl refl)
advance-Agrees effort holding l a =
    if-either (Agrees l) (needs_training l) (λ e. Agrees-active (a.locked refl) e refl)
      (λ e. Agrees-plain (λ h. a.locked refl) refl refl)
advance-Agrees effort opening l a = after_cursor-Agrees effort.cursor (a.locked refl) (a.due refl)
advance-Agrees effort fitting l a = after_fit-Agrees effort.em (a.locked refl) (a.due refl)
advance-Agrees effort (saving settings size) l a =
    let same = save_model-Same effort.save settings l in
    after_save-Agrees settings size (save_model effort.save settings l).1.has_model_path
      (save_model effort.save settings l).0 (same.lock ∙ a.locked refl)
      (Same-needs_training same ∙ a.due refl)
advance-Agrees effort (swapping settings size persists) l a = record {
  locked = λ e. a.locked refl;
  due = λ e. absurd (ground arith);
  settled = λ e. refl;
}
advance-Agrees effort (ending o) l a = clean_up-Agrees effort.drop o a
advance-Agrees effort (releasing answer) l a = record {
  locked = λ e. absurd (ground arith);
  due = λ e. absurd (ground arith);
  settled = a.settled;
}
advance-Agrees effort (returned answer) l a = a
