-- ===== src/Training/Apart.antt =====
-- What two calls of `train` agree on, and that a step of either keeps it.
use entity_resolution_engine.Base.{
  ℕ, String, Option, none, some, Bool, true, false, ◌&&◌, ◌≡◌, refl, sym, ◌∙◌, ap, arith,
}
use entity_resolution_engine.Model.Errors.{Exception, Result, ok, raise}
use entity_resolution_engine.Training.{
  ModelSource, TrainingOutcome, Linker, needs_training, Effort, save_model, swap_in, clean_up,
  is_cold, is_none,
}
use entity_resolution_engine.Training.Threads.{
  Pc, idle, checked, holding, opening, fitting, saving, swapping, ending, releasing, returned,
  after_cursor, after_fit, after_save, advance, holds, active, won,
}
use entity_resolution_engine.Training.Agrees.{Agrees, if-either, Same-Agrees, save_model-Same}

-- What two calls agree on.
pub record Apart (p q : Pc) : Type 0 where
  pub one_holds : holds p ≡ true → holds q ≡ true → ⊥
  pub one_won : won p ≡ true → won q ≡ true → ⊥

pub Apart-sym : {p q : Pc} → Apart p q → Apart q p
Apart-sym a = record { one_holds = λ x y. a.one_holds y x; one_won = λ x y. a.one_won y x }

pub Apart-plain : {p q : Pc} → holds p ≡ false → won p ≡ false → Apart p q
Apart-plain h w = record {
  one_holds = λ x y. absurd (ground arith);
  one_won = λ x y. absurd (ground arith);
}

-- A call that keeps the lock is apart from those that it was apart from.
pub Apart-holds : {p p' q : Pc} → holds p ≡ true → Apart p q → won p' ≡ false → Apart p' q
Apart-holds h a w = record {
  one_holds = λ x y. a.one_holds h y;
  one_won = λ x y. absurd (ground arith);
}

after_cursor-won : (x : Option Exception) → won (after_cursor x) ≡ false
unfolding after_cursor
after_cursor-won none = refl
after_cursor-won (some e) = refl

after_fit-won : (x : Result (String × ℕ)) → won (after_fit x) ≡ false
unfolding after_fit
after_fit-won (ok (settings, size)) = refl
after_fit-won (raise e) = refl

after_save-won :
    (settings : String) (size : ℕ) (b : Bool) (x : Result (Unit {0}))
    → won (after_save settings size b x) ≡ false
unfolding after_save
after_save-won settings size b (ok u) = refl
after_save-won settings size b (raise e) = refl

clean_up-won :
    (x : Option Exception) (o : TrainingOutcome)
    → won (releasing (clean_up x o)) ≡ true
    → won (ending o) ≡ true
unfolding clean_up
clean_up-won none o h = h
clean_up-won (some e) o h = absurd (ground arith)

active-holds : (p : Pc) → active p ≡ true → holds p ≡ true
active-holds idle h = h
active-holds checked h = h
active-holds holding h = refl
active-holds opening h = refl
active-holds fitting h = refl
active-holds (saving settings size) h = refl
active-holds (swapping settings size persists) h = refl
active-holds (ending o) h = refl
active-holds (releasing answer) h = refl
active-holds (returned answer) h = h

needs_training-untrained :
    (l : Linker) → needs_training l ≡ true → l.model_source ≡ ModelSource.trained → ⊥
unfolding needs_training
needs_training-untrained l d h =
    let cold : (is_cold ModelSource.trained && is_none l.model_load_error_type) ≡ true =
      ap (λ x. is_cold x && is_none l.model_load_error_type) (sym h) ∙ d in
    ground arith

-- A step of one call keeps what the others and the linker agree on, and stays apart from them.
pub advance-others :
    (effort : Effort) (p q : Pc) (l : Linker)
    → Agrees l p
    → Agrees l q
    → Apart p q
    → Agrees (advance effort p l).1 q × Apart (advance effort p l).0 q
unfolding advance swap_in
advance-others effort idle q l a b c = (
  b,
  if-either (λ x. Apart x q) (needs_training l) (λ e. Apart-plain refl refl)
      (λ e. Apart-plain refl refl),
)
advance-others effort checked q l a b c =
    if-either (λ (r : Pc × Linker). Agrees r.1 q × Apart r.0 q) l.training_lock
      (λ e. (b, Apart-plain refl refl))
      (λ e. (
        record { locked = λ h. refl; due = b.due; settled = b.settled },
        record {
          one_holds = λ x y. let locked = b.locked y in ground arith;
          one_won = λ x y. absurd (ground arith);
        },
      ))
advance-others effort holding q l a b c = (
  b,
  if-either (λ x. Apart x q) (needs_training l) (λ e. Apart-holds {p = holding} refl c refl)
      (λ e. Apart-holds {p = holding} refl c refl),
)
advance-others effort opening q l a b c =
    (b, Apart-holds {p = opening} refl c (after_cursor-won effort.cursor))
advance-others effort fitting q l a b c =
    (b, Apart-holds {p = fitting} refl c (after_fit-won effort.em))
advance-others effort (saving settings size) q l a b c = (
  Same-Agrees q (save_model-Same effort.save settings l) b,
  Apart-holds {p = saving settings size} refl c (
      after_save-won settings size (save_model effort.save settings l).1.has_model_path
        (save_model effort.save settings l).0),
)
advance-others effort (swapping settings size persists) q l a b c = (
  record {
    locked = b.locked;
    due = λ h. absurd (c.one_holds refl (active-holds q h));
    settled = λ h. refl;
  },
  record {
    one_holds = c.one_holds;
    one_won = λ x y. needs_training-untrained l (a.due refl) (b.settled y);
  },
)
advance-others effort (ending o) q l a b c = (
  b,
  record { one_holds = c.one_holds; one_won = λ x y. c.one_won (clean_up-won effort.drop o x) y },
)
advance-others effort (releasing answer) q l a b c = (
  record { locked = λ h. absurd (c.one_holds refl h); due = b.due; settled = b.settled },
  record { one_holds = λ x y. absurd (ground arith); one_won = c.one_won },
)
advance-others effort (returned answer) q l a b c = (b, c)
