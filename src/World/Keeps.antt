-- ===== src/World/Keeps.antt =====
-- What an action leaves alone, with one rule for each way to build an action.
use entity_resolution_engine.Base.{ℕ, List, ◌≡◌, refl, ◌∙◌, arith}
use entity_resolution_engine.Model.Errors.{Exception, Result, ok, raise}
use entity_resolution_engine.Tracing.{Stage}
use entity_resolution_engine.World.{
  Tables, World, Platform, Exec, ◌>>=◌, pure, throw, lift, attempt, call,
}

-- What lies outside the database: the recorded stages and the trainings that were started.
abbrev pub outside : World → List Stage × ℕ
outside w = (w.log, w.trainings)

-- `m` leaves what `f` reads of the world as it was, whether it returns or raises.
pub record Keeps {A X : Type 0} (f : World → X) (m : Exec A) : Type 0 where
  pub at : (w : World) → f (m w).1 ≡ f w

module _ {A X : Type 0} {f : World → X} where
  pub Keeps-pure : (a : A) → Keeps f (pure a)
  unfolding pure
  Keeps-pure a = record { at = λ w. refl }

  pub Keeps-throw : (e : Exception) → Keeps f (throw {A = A} e)
  unfolding throw
  Keeps-throw e = record { at = λ w. refl }

  pub Keeps-lift : (r : Result A) → Keeps f (lift r)
  unfolding lift
  Keeps-lift r = record { at = λ w. refl }

  pub Keeps-attempt : (m : Exec A) → Keeps f m → Keeps f (attempt m)
  unfolding attempt
  Keeps-attempt m k = record { at = k.at }

module _ {A B X : Type 0} {f : World → X} where
  pub Keeps-bind :
      (m : Exec A) (n : A → Exec B) → Keeps f m → ((a : A) → Keeps f (n a)) → Keeps f (m >>= n)
  unfolding ◌>>=◌
  Keeps-bind m n km kn = record { at = λ w. from w (m w).0 refl }
    where
      from : (w : World) (r : Result A) → (m w).0 ≡ r → f ((m >>= n) w).1 ≡ f w
      from w (ok a) e = rw e ((kn a).at (m w).1 ∙ km.at w)
      from w (raise x) e = rw e (km.at w)

module _ (P : Platform) where
  pub Keeps-outside-call :
      {A : Type 0} (answer : World → A) (effect : World → Tables)
      → Keeps outside (call P answer effect)
  unfolding call
  Keeps-outside-call answer effect = record { at = λ w. ground arith }

  pub Keeps-tables-read :
      {A : Type 0} (answer : World → A) → Keeps (λ w. w.tables) (call P answer (λ w. w.tables))
  unfolding call
  Keeps-tables-read answer = record { at = λ w. ground arith }

pub ruleset keeps_rules = (Keeps-pure, Keeps-throw, Keeps-lift, Keeps-attempt, Keeps-bind)
