-- ===== src/World/Yields.antt =====
-- Actions that return, whatever the world they run in, with a value that satisfies a predicate.
use entity_resolution_engine.Base.{◌≡◌, refl}
use entity_resolution_engine.Model.Errors.{Result, ok}
use entity_resolution_engine.World.{World, Exec, ◌>>=◌, pure, lift, attempt}

pub record Yields {A : Type 0} (Q : A → Type 0) (m : Exec A) : Type 0 where
  pub at : (w : World) → (a : A) × ((m w).0 ≡ ok a) × Q a

module _ {A : Type 0} {Q : A → Type 0} where
  pub Yields-pure : (a : A) → Q a → Yields Q (pure a)
  unfolding pure
  Yields-pure a q = record { at = λ w. (a, refl, q) }

  pub Yields-lift : (r : Result A) (a : A) → r ≡ ok a → Q a → Yields Q (lift r)
  unfolding lift
  Yields-lift r a e q = record { at = λ w. (a, e, q) }

  pub Yields-weaken :
      {R : A → Type 0} {m : Exec A} → Yields Q m → ((a : A) → Q a → R a) → Yields R m
  Yields-weaken y f = record { at = λ w. let (a, e, q) = y.at w in (a, e, f a q) }

pub Yields-attempt :
    {A : Type 0} {Q : Result A → Type 0} (m : Exec A)
    → ((w : World) → Q (m w).0)
    → Yields Q (attempt m)
unfolding attempt
Yields-attempt m h = record { at = λ w. ((m w).0, refl, h w) }

module _ {A B : Type 0} {Q : A → Type 0} {R : B → Type 0} where
  pub Yields-bind :
      (m : Exec A) (n : A → Exec B)
      → Yields Q m
      → ((a : A) → Q a → Yields R (n a))
      → Yields R (m >>= n)
  unfolding ◌>>=◌
  Yields-bind m n y f = record {
    at = λ w. let (a, e, q) = y.at w in let (b, e', r) = (f a q).at (m w).1 in (b, rw e e', r);
  }
