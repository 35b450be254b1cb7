-- ===== src/World/Steps.antt =====
-- The parts of a `do` block that has returned or raised.
use entity_resolution_engine.Base.{Option, none, some, ◌≡◌, refl, ap, ◌⊎◌, inl, inr, arith}
use entity_resolution_engine.Model.Errors.{Exception, Result, ok, raise}
use entity_resolution_engine.World.{Tables, World, Platform, Exec, ◌>>=◌, call, tick, continue}

-- A `do` block that returned has run its parts, and each returned.
pub >>=-eq-ok :
    {A B : Type 0} (m : Exec A) (n : A → Exec B) (w : World) {b : B}
    → ((m >>= n) w).0 ≡ ok b
    → (a : A) × ((m w).0 ≡ ok a) × ((n a (m w).1).0 ≡ ok b) × (((m >>= n) w).1 ≡ (n a (m w).1).1)
unfolding ◌>>=◌
>>=-eq-ok {A} {B} m n w {b} h = from (m w).0 refl
  where
    from :
        (r : Result A)
        → (m w).0 ≡ r
        → (a : A) × ((m w).0 ≡ ok a)
          × ((n a (m w).1).0 ≡ ok b)
          × (((m >>= n) w).1 ≡ (n a (m w).1).1)
    from (ok a) e = (a, e, rw e at h, rw e)
    from (raise x) e = absurd (ground arith)

-- A call that returned answered by the world before it, and had its effect.
pub call-eq-ok :
    (P : Platform) {A : Type 0} (answer : World → A) (effect : World → Tables) (w : World) {a : A}
    → (call P answer effect w).0 ≡ ok a
    → (answer w ≡ a) × ((call P answer effect w).1.tables ≡ effect w)
unfolding call
call-eq-ok P answer effect w h = ground arith

-- A `do` block that raised has raised in its first part, or in the rest behind it.
pub >>=-eq-raise :
    {A B : Type 0} (m : Exec A) (n : A → Exec B) (w : World) {e : Exception}
    → ((m >>= n) w).0 ≡ raise e
    → (((m w).0 ≡ raise e) × (((m >>= n) w).1 ≡ (m w).1))
      ⊎ ((a : A) × ((m w).0 ≡ ok a)
          × ((n a (m w).1).0 ≡ raise e)
          × (((m >>= n) w).1 ≡ (n a (m w).1).1))
unfolding ◌>>=◌
>>=-eq-raise {A} {B} m n w {e} h = from (m w).0 refl
  where
    from :
        (r : Result A)
        → (m w).0 ≡ r
        → (((m w).0 ≡ raise e) × (((m >>= n) w).1 ≡ (m w).1))
          ⊎ ((a : A) × ((m w).0 ≡ ok a)
              × ((n a (m w).1).0 ≡ raise e)
              × (((m >>= n) w).1 ≡ (n a (m w).1).1))
    from (ok a) p = inr (a, p, rw p at h, rw p)
    from (raise x) p = inl (ground arith, rw p)

-- A `do` block whose first part returns goes on from the world that this leaves.
pub >>=-of_ok :
    {A B : Type 0} (m : Exec A) (n : A → Exec B) (w : World) {a : A} {w' : World}
    → m w ≡ (ok a, w')
    → (m >>= n) w ≡ n a w'
unfolding ◌>>=◌
>>=-of_ok m n w h = ap (λ (r : Result _ × World). continue r.0 n r.1) h

-- A call that does not fail answers, and has its effect.
pub call-of_sound :
    (P : Platform) {A : Type 0} (answer : World → A) (effect : World → Tables) (w : World)
    → P.fault w.calls ≡ none
    → call P answer effect w ≡ (ok (answer w), record (tick w) { tables = effect w })
unfolding call
call-of_sound P answer effect w h =
    ap
      (λ (f : Option Exception). elim f [
        | some e ↦ (raise e, tick w)
        | none ↦ (ok (answer w), record (tick w) { tables = effect w })
      ])
      h
