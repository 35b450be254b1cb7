-- ===== src/Worker/Replies.antt =====
-- Every message of a bite gets one response, at its position and with the id that the message carries
-- (`_process` of src/ere/entrypoints/queue_worker.py).
use entity_resolution_engine.Base.{
  ℕ, zero, suc, ◌<◌, String, Option, some, List, [], ◌∷◌, ◌++◌, map, zip, length, ℕ_discrete, ◌≡◌,
  refl, sym, ◌∙◌, ap, subst, ◌⊎◌, inl, inr, arith,
}
use entity_resolution_engine.Model.Errors.{Result, ok, raise, ok-injective}
use entity_resolution_engine.Tracing.{MentionTrace}
use entity_resolution_engine.Service.Requests.{
  EreRequest, EreResponse, ere_request_id, request_id, item, put_at,
}
use entity_resolution_engine.Service.Answers.{
  put_at-item, put_at-item_ne, item_exists, item_bound, Listed, Listed-left, Listed-last, Answered,
}
use entity_resolution_engine.Worker.Messages.{
  QueueWorker, trace_of, id_of, build_error_response, Parsed, place, traces_for, parse_one,
}

module _ {M I P : Type 0} (W : QueueWorker M I P) (ids : List String) where
  -- the traces of the bite
  abbrev pub traces : List MentionTrace
  traces = map trace_of ids

  -- The response at the position carries the id at the position.
  abbrev pub Replied : List (Option (EreResponse I)) → ℕ → Type 0
  Replied rs i =
      (r : EreResponse I) × (item rs i ≡ ok (some r)) × (item ids i ≡ ok (ere_request_id r))

  -- From `rs` to `rs'` the positions were filled, and no other response was lost.
  pub record Refills {A : Type 0} (es : List (ℕ × A)) (rs rs' : List (Option (EreResponse I)))
      : Type 0 where
    pub size : length rs' ≡ length ids
    pub keeps : (i : ℕ) → Replied rs i → Replied rs' i
    pub replies : (i : ℕ) → Listed i es → Replied rs' i

  put_at-Refills :
      {A : Type 0} (a : A) (rs : List (Option (EreResponse I))) (i : ℕ) (r : EreResponse I)
      → length rs ≡ length ids
      → item ids i ≡ ok (ere_request_id r)
      → (rs' : List (Option (EreResponse I))) × (put_at rs i (some r) ≡ ok rs')
        × Refills ((i, a) ∷ []) rs rs'
  put_at-Refills a rs i r size at =
      let (old, there) = item_exists rs i (omega (arith, item_bound ids i at)) in
      let (rs', put, here, size') = put_at-item rs i (some r) there in
      let replied : Replied rs' i = (r, here, at) in
      (
        rs',
        put,
        record {
          size = size' ∙ size;
          keeps = λ j x. elim (ℕ_discrete j i) [
            | yes p ↦ subst (Replied rs') (sym p) replied
            | no p ↦ rw (put_at-item_ne rs i j (some r) put p) x
          ];
          replies = λ j l. elim l [ inl p ↦ subst (Replied rs') p replied | inr l ↦ absurd l ];
        },
      )

  -- Each entry has the id that its message carries.
  abbrev pub Owned : List (ℕ × EreRequest M) → Type 0
  Owned [] = Unit {0}
  Owned (e ∷ es) = (item ids e.0 ≡ ok (request_id e.1)) × Owned es

  -- Each result answers its entry.
  abbrev pub Matched : List (ℕ × EreRequest M) → List (Option (EreResponse I)) → Type 0
  Matched [] rs = Unit {0}
  Matched (e ∷ es) [] = ⊥
  Matched (e ∷ es) (x ∷ rs) =
      ((r : EreResponse I) × (x ≡ some r) × (ere_request_id r ≡ request_id e.1)) × Matched es rs

  -- Results that answer their entries fill the positions of the entries.
  pub place-Refills :
      (es : List (ℕ × EreRequest M)) (results rs : List (Option (EreResponse I)))
      → Owned es
      → Matched es results
      → length rs ≡ length ids
      → (rs' : List (Option (EreResponse I))) × (place (zip es results) rs ≡ ok rs')
        × Refills es rs rs'
  unfolding place
  place-Refills [] results rs o m size =
      (rs, refl, record { size = size; keeps = λ i x. x; replies = λ i l. absurd l })
  place-Refills (e ∷ es) [] rs o m size = absurd m
  place-Refills ((i, q) ∷ es) (x ∷ results) rs (o, os) ((r, is, same), ms) size =
      let (rs₁, put, f) = put_at-Refills q rs i r size (o ∙ ap ok (sym same)) in
      let (rs₂, placed, g) = place-Refills es results rs₁ os ms f.size in
      (
        rs₂,
        rw is (rw put placed),
        record {
          size = g.size;
          keeps = λ j y. g.keeps j (f.keeps j y);
          replies =
              λ j l. elim l [ inl p ↦ g.keeps j (f.replies j (inl p)) | inr l ↦ g.replies j l ];
        },
      )

  item-map :
      {A B : Type 0} (f : A → B) (xs : List A) (i : ℕ) {x : A}
      → item xs i ≡ ok x
      → item (map f xs) i ≡ ok (f x)
  unfolding item
  item-map f [] i h = absurd (ground arith)
  item-map f (x ∷ xs) zero h = ap (λ y. ok (f y)) (ok-injective h)
  item-map f (x ∷ xs) (suc i) h = item-map f xs i h

  -- The traces of the entries are those of their messages.
  pub traces_for-eq :
      (es : List (ℕ × EreRequest M))
      → Owned es
      → traces_for traces es ≡ ok (map (λ e. trace_of (request_id e.1)) es)
  unfolding traces_for
  traces_for-eq [] o = refl
  traces_for-eq (e ∷ es) (o, os) = rw (item-map trace_of ids e.0 o) (rw (traces_for-eq es os) refl)

  -- What the loop over the bite has collected, behind `n` messages.
  pub record Collects (n : ℕ) (c : Parsed M I) : Type 0 where
    pub size : length c.responses ≡ length ids
    pub owned : Owned c.parsed
    pub found : (i : ℕ) → i < n → Replied c.responses i ⊎ Listed i c.parsed

  Owned-last :
      (es : List (ℕ × EreRequest M)) (e : ℕ × EreRequest M)
      → Owned es
      → item ids e.0 ≡ ok (request_id e.1)
      → Owned (es ++ e ∷ [])
  Owned-last [] e o h = (h, tt)
  Owned-last (x ∷ es) e (o, os) h = (o, Owned-last es e os h)

  pub parse_one-Collects :
      (n : ℕ) (id : String) (r : Result (EreRequest M)) (c : Parsed M I)
      → item ids n ≡ ok id
      → ((q : EreRequest M) → r ≡ ok q → request_id q ≡ id)
      → Collects n c
      → (c' : Parsed M I) × (parse_one W n traces r c ≡ ok c') × Collects (suc n) c'
  unfolding parse_one build_error_response
  parse_one-Collects n id (ok q) c at faithful s = (
    record c { parsed = c.parsed ++ (n, q) ∷ [] },
    refl,
    record {
      size = s.size;
      owned = Owned-last c.parsed (n, q) s.owned (at ∙ ap ok (sym (faithful q refl)));
      found = λ i h. elim (ℕ_discrete i n) [
        | yes e ↦
            inr (subst (λ j. Listed j (c.parsed ++ (n, q) ∷ [])) (sym e) (Listed-last n c.parsed q))
        | no d ↦ elim (s.found i (omega arith)) [
          | inl a ↦ inl a
          | inr l ↦ inr (Listed-left i c.parsed ((n, q) ∷ []) l)
        ]
      ];
    },
  )
  parse_one-Collects n id (raise e) c at faithful s =
      let response : EreResponse I = build_error_response (W.service.str e) id in
      let (rs, put, f) = put_at-Refills tt c.responses n response s.size at in
      (
        record c { responses = rs },
        rw (item-map trace_of ids n at) (rw put refl),
        record {
          size = f.size;
          owned = s.owned;
          found = λ i h. elim (ℕ_discrete i n) [
            | yes p ↦ inl (f.replies i (inl (sym p)))
            | no d ↦ elim (s.found i (omega arith)) [ inl a ↦ inl (f.keeps i a) | inr l ↦ inr l ]
          ];
        },
      )

  -- The errors that stand for results answer the entries.
  pub errors-Matched :
      (text : String) (es : List (ℕ × EreRequest M))
      → Matched es (
          map
            (λ trace. some (build_error_response text (id_of trace)))
            (map (λ e. trace_of (request_id e.1)) es))
  unfolding build_error_response
  errors-Matched text [] = tt
  errors-Matched text (e ∷ es) =
      ((build_error_response text (request_id e.1), refl, refl), errors-Matched text es)

  -- The responses of `process_batch` answer the entries.
  pub answers-Matched :
      (es : List (ℕ × EreRequest M)) (rs : List (Option (EreResponse I)))
      → length rs ≡ length es
      → ((i : ℕ) → i < length es → Answered (map (λ e. e.1) es) rs i)
      → Matched es rs
  unfolding item
  answers-Matched [] rs size h = tt
  answers-Matched (e ∷ es) [] size h = absurd (omega arith)
  answers-Matched (e ∷ es) (x ∷ rs) size h =
      let (r, q, here, at, same) = h 0 (omega arith) in
      (
        (r, ok-injective here, same ∙ ap (λ y. request_id y) (sym (ok-injective at))),
        answers-Matched es rs (omega arith) (λ i b. h (suc i) (omega arith)),
      )
