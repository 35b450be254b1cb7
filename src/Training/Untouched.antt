-- ===== src/Training/Untouched.antt =====
-- A model file that is there when the linker is built is left alone, whatever the threads do.
use mathlib.Core.Option
use entity_resolution_engine.Base.{
  ℕ, String, none, some, true, false, if◌then◌else◌, ◌≡◌, refl, sym, ◌∙◌, ap, subst, ◌⊎◌, inl, inr,
  arith,
}
use entity_resolution_engine.Model.Errors.{Result, ok, raise, ok-injective}
use entity_resolution_engine.Training.{
  TrainingOutcome, skip, Linker, needs_training, Effort, build_scoring_linker, start_persisted,
  start_cold,
}
use entity_resolution_engine.Training.Threads.{
  Pc, idle, checked, returned, advance, System, move, look, rebuilt, Step, call, read_settings,
  take_up, Reach, start, later,
}
use entity_resolution_engine.Training.Once.{update_all}

-- A call that has done nothing, and has no training to report.
abbrev IsRefused : Pc → Type 0
IsRefused p = (p ≡ idle) ⊎ (p ≡ returned (ok skip))

returned-injective : {a b : Result TrainingOutcome} → returned a ≡ returned b → a ≡ b
returned-injective h = ground arith

idle_returned : {a : Result TrainingOutcome} → idle ≡ returned a → ⊥
idle_returned h = ground arith

record IsUntouched (l : Linker) (s : System) : Type 0 where
  linker : s.linker ≡ l
  rebuilding : s.rebuilding ≡ none
  calls : (i : ℕ) → IsRefused (s.calls i)

module _ (l : Linker) (frozen : needs_training l ≡ false) where
  abbrev Stays : Pc × Linker → Type 0
  Stays r = IsRefused r.0 × (r.1 ≡ l)

  advance-Stays : (effort : Effort) (p : Pc) → IsRefused p → Stays (advance effort p l)
  unfolding advance
  advance-Stays effort p (inl e) =
      subst (λ x. Stays (advance effort x l)) (sym e)
        (inr (ap (λ b. if b then checked else returned (ok skip)) frozen), refl)
  advance-Stays effort p (inr e) = subst (λ x. Stays (advance effort x l)) (sym e) (inr refl, refl)

  move-IsUntouched :
      (t : ℕ) (effort : Effort) (s : System) → IsUntouched l s → IsUntouched l (move t effort s)
  unfolding move
  move-IsUntouched t effort s u =
      let stays : Stays (advance effort (s.calls t) s.linker) =
        subst (λ x. Stays (advance effort (s.calls t) x)) (sym u.linker)
          (advance-Stays effort (s.calls t) (u.calls t)) in
      record {
        linker = stays.1;
        rebuilding = u.rebuilding;
        calls =
            update_all (λ i p. IsRefused p) t (advance effort (s.calls t) s.linker).0 s.calls
              stays.0 (λ i d. u.calls i);
      }

  module _ (taken : l.pending_trained_settings ≡ none) where
    Step-IsUntouched : {s s' : System} → Step s s' → IsUntouched l s → IsUntouched l s'
    unfolding look rebuilt
    Step-IsUntouched (call t effort {s}) u = move-IsUntouched t effort s u
    Step-IsUntouched (read_settings {s}) u = record {
      linker = u.linker;
      rebuilding = ap (λ x. x.pending_trained_settings) u.linker ∙ taken;
      calls = u.calls;
    }
    Step-IsUntouched (take_up rebuild {s}) u =
        subst (λ x. IsUntouched l (rebuilt (Option.map rebuild x) s)) (sym u.rebuilding) u

    Reach-IsUntouched : {s : System} → Reach l s → IsUntouched l s
    Reach-IsUntouched start = record { linker = refl; rebuilding = refl; calls = λ i. inl refl }
    Reach-IsUntouched (later r step) = Step-IsUntouched step (Reach-IsUntouched r)

-- What `_build_scoring_linker` makes of a file that is there.
record IsFrozen (content : String) (l : Linker) : Type 0 where
  file : l.model_file ≡ some content
  frozen : needs_training l ≡ false
  taken : l.pending_trained_settings ≡ none

start_persisted-IsFrozen :
    (content : String) (loaded cold : Result String) {l : Linker}
    → start_persisted (some content) loaded cold ≡ ok l
    → IsFrozen content l
unfolding start_persisted start_cold needs_training
start_persisted-IsFrozen content (ok settings) cold h =
    subst (IsFrozen content) (ok-injective h) (record { file = refl; frozen = refl; taken = refl })
start_persisted-IsFrozen content (raise e) (ok settings) h =
    subst (IsFrozen content) (ok-injective h) (record { file = refl; frozen = refl; taken = refl })
start_persisted-IsFrozen content (raise e) (raise e') h = absurd (ground arith)

-- If the model file is there when the linker is built, whether it can be loaded or not, then nothing
-- that the threads do changes the linker: the file keeps its content, the linker scores with what it
-- started with, and every call of `train` that returns says that it was skipped.
pub file-untouched :
    (content : String) (load : String → Result String) (cold : Result String) {l : Linker}
    {s : System}
    → build_scoring_linker true (some content) load cold ≡ ok l
    → Reach l s
    → (s.linker ≡ l)
      × (s.linker.model_file ≡ some content)
      × ((i : ℕ) (answer : Result TrainingOutcome) → s.calls i ≡ returned answer → answer ≡ ok skip)
unfolding build_scoring_linker
file-untouched content load cold {l} {s} h r =
    let f = start_persisted-IsFrozen content (load content) cold h in
    let u = Reach-IsUntouched l f.frozen f.taken r in
    (
      u.linker,
      ap (λ x. x.model_file) u.linker ∙ f.file,
      λ i answer e. elim (u.calls i) [
        | inl is ↦ absurd (idle_returned (sym is ∙ e))
        | inr is ↦ returned-injective (sym e ∙ is)
      ],
    )
