-- ===== src/Service/Answers.antt =====
-- Every request of a bite gets one response, at its position and with its id.
use entity_resolution_engine.Base.{
  ℕ, zero, suc, Option, some, List, [], ◌∷◌, ◌++◌, zip, length, ◌≡◌, ◌≢◌, refl, ◌∙◌, ap, ◌⊎◌, inl,
  inr, arith, ◌<◌, ℕ_discrete,
}
use entity_resolution_engine.Model.Errors.{ok, >>=-eq-ok}
use entity_resolution_engine.Model.Mentions.{Mention}
use entity_resolution_engine.Service.Requests.{
  EreRequest, EreResponse, ere_request_id, request_id, item, put_at,
}

pub put_at-item :
    {A : Type 0} (xs : List A) (i : ℕ) (y : A) {x : A}
    → item xs i ≡ ok x
    → (ys : List A) × (put_at xs i y ≡ ok ys) × (item ys i ≡ ok y) × (length ys ≡ length xs)
unfolding item put_at
put_at-item [] i y h = absurd (ground arith)
put_at-item (x ∷ xs) zero y h = (y ∷ xs, refl, refl, refl)
put_at-item (x ∷ xs) (suc i) y h =
    let (ys, put, here, size) = put_at-item xs i y h in (x ∷ ys, rw put refl, here, ap suc size)

pub put_at-item_ne :
    {A : Type 0} (xs : List A) (i j : ℕ) (y : A) {ys : List A}
    → put_at xs i y ≡ ok ys
    → j ≢ i
    → item ys j ≡ item xs j
unfolding item put_at
put_at-item_ne [] i j y h other = absurd (ground arith)
put_at-item_ne (x ∷ xs) zero zero y h other = absurd (other refl)
put_at-item_ne (x ∷ xs) zero (suc j) y h other = ground arith
put_at-item_ne (x ∷ xs) (suc i) zero y h other =
    let (zs, put, is) = >>=-eq-ok (put_at xs i y) _ h in ground arith
put_at-item_ne (x ∷ xs) (suc i) (suc j) y {ys} h other =
    let (zs, put, is) = >>=-eq-ok (put_at xs i y) _ h in
    let is' : x ∷ zs ≡ ys = ground arith in
    rw (← is') (put_at-item_ne xs i j y put (λ e. other (ap suc e)))

pub item_exists : {A : Type 0} (xs : List A) (i : ℕ) → i < length xs → (x : A) × (item xs i ≡ ok x)
unfolding item
item_exists [] i h = absurd (omega arith)
item_exists (x ∷ xs) zero h = (x, refl)
item_exists (x ∷ xs) (suc i) h = item_exists xs i (omega arith)

pub item_bound : {A : Type 0} (xs : List A) (i : ℕ) {x : A} → item xs i ≡ ok x → i < length xs
unfolding item
item_bound [] i h = absurd (ground arith)
item_bound (x ∷ xs) zero h = omega arith
item_bound (x ∷ xs) (suc i) h = omega (arith, item_bound xs i h)

pub item-zip :
    {A B : Type 0} (xs : List A) (ys : List B) (i : ℕ) {e : A × B}
    → item (zip xs ys) i ≡ ok e
    → (item xs i ≡ ok e.0) × (item ys i ≡ ok e.1)
unfolding item
item-zip [] ys i h = absurd (ground arith)
item-zip (x ∷ xs) [] i h = absurd (ground arith)
item-zip (x ∷ xs) (y ∷ ys) zero h = (ground arith, ground arith)
item-zip (x ∷ xs) (y ∷ ys) (suc i) h = item-zip xs ys i h

-- The position is that of one of the entries.
abbrev pub Listed : {A : Type 0} → ℕ → List (ℕ × A) → Type 0
Listed i [] = ⊥
Listed i (e ∷ es) = (e.0 ≡ i) ⊎ Listed i es

pub Listed-left : {A : Type 0} (i : ℕ) (es fs : List (ℕ × A)) → Listed i es → Listed i (es ++ fs)
Listed-left i [] fs h = absurd h
Listed-left i (e ∷ es) fs (inl p) = inl p
Listed-left i (e ∷ es) fs (inr h) = inr (Listed-left i es fs h)

pub Listed-last : {A : Type 0} (i : ℕ) (es : List (ℕ × A)) (m : A) → Listed i (es ++ (i, m) ∷ [])
Listed-last i [] m = inl refl
Listed-last i (e ∷ es) m = inr (Listed-last i es m)

module _ {M I : Type 0} (requests : List (EreRequest M)) where
  -- The response at the position answers the request at it.
  abbrev pub Answered : List (Option (EreResponse I)) → ℕ → Type 0
  Answered rs i =
      (r : EreResponse I) × (q : EreRequest M) × (item rs i ≡ ok (some r))
      × (item requests i ≡ ok q)
      × (ere_request_id r ≡ request_id q)

  -- From `rs` to `rs'` the entries were answered, and no other response was lost.
  pub record Filled (es : List (ℕ × Mention)) (rs rs' : List (Option (EreResponse I)))
      : Type 0 where
    pub size : length rs' ≡ length requests
    pub keeps : (i : ℕ) → Answered rs i → Answered rs' i
    pub answers : (i : ℕ) → Listed i es → Answered rs' i

  pub Filled-nil :
      (rs : List (Option (EreResponse I))) → length rs ≡ length requests → Filled [] rs rs
  Filled-nil rs size = record { size = size; keeps = λ i a. a; answers = λ i a. absurd a }

  pub Filled-cons :
      (e : ℕ × Mention) (es : List (ℕ × Mention)) (rs rs' rs'' : List (Option (EreResponse I)))
      → Filled (e ∷ []) rs rs'
      → Filled es rs' rs''
      → Filled (e ∷ es) rs rs''
  Filled-cons e es rs rs' rs'' f g = record {
    size = g.size;
    keeps = λ i a. g.keeps i (f.keeps i a);
    answers = λ i a. elim a [ inl p ↦ g.keeps i (f.answers i (inl p)) | inr l ↦ g.answers i l ];
  }

  pub put_at-Filled :
      (rs : List (Option (EreResponse I))) (i : ℕ) (m : Mention) (r : EreResponse I)
      {q : EreRequest M}
      → length rs ≡ length requests
      → item requests i ≡ ok q
      → ere_request_id r ≡ request_id q
      → (rs' : List (Option (EreResponse I))) × (put_at rs i (some r) ≡ ok rs')
        × Filled ((i, m) ∷ []) rs rs'
  put_at-Filled rs i m r {q} size at same =
      let (old, there) = item_exists rs i (omega (arith, item_bound requests i at)) in
      let (rs', put, here, size') = put_at-item rs i (some r) there in
      let answered : Answered rs' i = (r, q, here, at, same) in
      (
        rs',
        put,
        record {
          size = size' ∙ size;
          keeps = λ j a. elim (ℕ_discrete j i) [
            | yes p ↦ rw p answered
            | no p ↦ rw (put_at-item_ne rs i j (some r) put p) a
          ];
          answers = λ j l. elim l [ inl p ↦ rw (← p) answered | inr l ↦ absurd l ];
        },
      )
