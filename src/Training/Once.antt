-- ===== src/Training/Once.antt =====
-- A model is trained once, and a model file that is there is left alone, whatever the threads do.
use mathlib.Core.Option
use entity_resolution_engine.Base.{
  ℕ, String, Option, none, some, true, if_pos, if_neg, ℕ_discrete, ◌≡◌, ◌≢◌, refl, sym, subst,
  arith,
}
use entity_resolution_engine.Model.Errors.{Result, ok, raise}
use entity_resolution_engine.Training.{Linker, Effort}
use entity_resolution_engine.Training.Threads.{
  Pc, advance, System, update, move, look, rebuilt, Step, call, read_settings, take_up, Reach,
  start, later, holds, won,
}
use entity_resolution_engine.Training.Agrees.{Agrees, Same-Agrees, advance-Agrees, Agrees-plain}
use entity_resolution_engine.Training.Apart.{Apart, Apart-sym, Apart-plain, advance-others}

-- The invariant of the system.
record IsOrdered (s : System) : Type 0 where
  agrees : (i : ℕ) → Agrees s.linker (s.calls i)
  apart : (i j : ℕ) → i ≢ j → Apart (s.calls i) (s.calls j)

update_same : {t i : ℕ} (p : Pc) (calls : ℕ → Pc) → i ≡ t → update t p calls i ≡ p
update_same {t} {i} p calls e = if_pos (ℕ_discrete i t) e p (calls i)

update_other : {t i : ℕ} (p : Pc) (calls : ℕ → Pc) → i ≢ t → update t p calls i ≡ calls i
update_other {t} {i} p calls d = if_neg (ℕ_discrete i t) d p (calls i)

-- What holds of the call that has moved, and of the others, holds of all.
pub update_all :
    (Q : ℕ → Pc → Type 0) (t : ℕ) (p : Pc) (calls : ℕ → Pc)
    → Q t p
    → ((i : ℕ) → i ≢ t → Q i (calls i))
    → (i : ℕ) → Q i (update t p calls i)
update_all Q t p calls here there i = elim (ℕ_discrete i t) [
  | yes e ↦ subst (Q i) (sym (update_same p calls e)) (subst (λ j. Q j p) (sym e) here)
  | no d ↦ subst (Q i) (sym (update_other p calls d)) (there i d)
]

module _ (t : ℕ) (effort : Effort) (s : System) (o : IsOrdered s) where
  abbrev after : Pc × Linker
  after = advance effort (s.calls t) s.linker

  others : (i : ℕ) → i ≢ t → Agrees after.1 (s.calls i) × Apart after.0 (s.calls i)
  others i d =
      advance-others effort (s.calls t) (s.calls i) s.linker (o.agrees t) (o.agrees i)
        (o.apart t i (λ e. d (sym e)))

  move-IsOrdered : IsOrdered (move t effort s)
  unfolding move
  move-IsOrdered = record {
    agrees =
        update_all (λ i p. Agrees after.1 p) t after.0 s.calls
          (advance-Agrees effort (s.calls t) s.linker (o.agrees t)) (λ i d. (others i d).0);
    apart =
        update_all (λ i p. (j : ℕ) → i ≢ j → Apart p (update t after.0 s.calls j)) t after.0 s.calls
          (λ j d.
            subst (Apart after.0) (sym (update_other after.0 s.calls (λ e. d (sym e))))
              (others j (λ e. d (sym e))).1)
          (λ i d.
            update_all (λ j p. i ≢ j → Apart (s.calls i) p) t after.0 s.calls
              (λ d'. Apart-sym (others i d).1) (λ j d' e. o.apart i j e));
  }

rebuilt-IsOrdered :
    (r : Option (Result String)) (s : System) → IsOrdered s → IsOrdered (rebuilt r s)
unfolding rebuilt
rebuilt-IsOrdered none s o = o
rebuilt-IsOrdered (some (raise e)) s o = record { agrees = o.agrees; apart = o.apart }
rebuilt-IsOrdered (some (ok settings)) s o = record {
  agrees =
      λ i. Same-Agrees (s.calls i) (record { lock = refl; source = refl; err = refl }) (o.agrees i);
  apart = o.apart;
}

Step-IsOrdered : {s s' : System} → Step s s' → IsOrdered s → IsOrdered s'
unfolding look
Step-IsOrdered (call t effort {s}) o = move-IsOrdered t effort s o
Step-IsOrdered (read_settings {s}) o = record { agrees = o.agrees; apart = o.apart }
Step-IsOrdered (take_up rebuild {s}) o = rebuilt-IsOrdered (Option.map rebuild s.rebuilding) s o

Reach-IsOrdered : (l : Linker) {s : System} → Reach l s → IsOrdered s
Reach-IsOrdered l start = record {
  agrees = λ i. Agrees-plain (λ h. absurd (ground arith)) refl refl;
  apart = λ i j d. Apart-plain refl refl;
}
Reach-IsOrdered l (later r step) = Step-IsOrdered step (Reach-IsOrdered l r)

-- However many threads ask for a training at any time, at most one call of `train` ever has the
-- outcome TRAINED, and no two are training at the same time.
pub train-once :
    (l : Linker) {s : System} (i j : ℕ)
    → Reach l s
    → (won (s.calls i) ≡ true → won (s.calls j) ≡ true → i ≡ j)
      × (holds (s.calls i) ≡ true → holds (s.calls j) ≡ true → i ≡ j)
train-once l {s} i j r = elim (ℕ_discrete i j) [
  | yes e ↦ (λ x y. e, λ x y. e)
  | no d ↦
      let a = (Reach-IsOrdered l r).apart i j d in
      (λ x y. absurd (a.one_won x y), λ x y. absurd (a.one_holds x y))
]
