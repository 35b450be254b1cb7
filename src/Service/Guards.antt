-- ===== src/Service/Guards.antt =====
-- Each request of a bite is answered by its guard, or is still to be resolved (`_guard` and the loop of
-- `process_batch`).
use entity_resolution_engine.Base.{
  ℕ, suc, String, Option, none, some, List, [], ◌∷◌, ◌++◌, length, ◌≡◌, ◌≢◌, refl, sym, subst, ◌⊎◌,
  inl, inr, arith, All, All-append, true, false, ◌<◌, ◌+◌, ℕ_discrete, Option-cases,
}
use entity_resolution_engine.Base.Dict.{Dict, get, put}
use entity_resolution_engine.Model.Errors.{Result, ok, raise}
use entity_resolution_engine.Model.Mentions.{MentionId, Mention, MentionId-discrete}
use entity_resolution_engine.Model.Clusters.{ResolutionResult}
use entity_resolution_engine.Tracing.{MentionTrace}
use entity_resolution_engine.World.Yields.{
  Yields, Yields-pure, Yields-lift, Yields-attempt, Yields-bind,
}
use entity_resolution_engine.Service.Requests.{
  EreRequest, resolution, unsupported, EntityResolutionService, ere_request_id, request_id, item,
  unsupported_error,
}
use entity_resolution_engine.Service.Collecting.{
  Guarded, ends, goes_on, Collected, conclude_guard, collect_one,
}
use entity_resolution_engine.Service.Answers.{
  Listed, Listed-left, Listed-last, Answered, put_at-Filled,
}
use entity_resolution_engine.Service.Settled.{error_for-id, Placed}
use entity_resolution_engine.Service.{guard, collect}

module _ {M I : Type 0} (S : EntityResolutionService M I) where
  -- What `_guard` may say of a request: a response with its id, or that a mention is still to be
  -- resolved, which it calls a repetition only if it has seen a mention before.
  abbrev GuardOk :
      EreRequest M → Dict MentionId Mention → Guarded I × Dict MentionId Mention → Type 0
  GuardOk q seen (ends r, seen') = ere_request_id r ≡ request_id q
  GuardOk q seen (goes_on b m, seen') =
      ((id : String) × (em : M) × (q ≡ resolution id em)) × (b ≡ true → seen ≢ [])

  get-seen :
      (m : MentionId) (seen : Dict MentionId Mention) {e : Mention}
      → get MentionId-discrete m seen ≡ some e
      → seen ≢ []
  unfolding get
  get-seen m [] h = absurd (ground arith)
  get-seen m (x ∷ seen) h = λ e. cc

  conclude_guard-GuardOk :
      (id : String) (em : M) (seen : Dict MentionId Mention)
      (answer : Result (Mention × Option ResolutionResult))
      → (g : Guarded I × Dict MentionId Mention) × (conclude_guard S id em seen answer ≡ ok g)
        × GuardOk (resolution id em) seen g
  unfolding conclude_guard
  conclude_guard-GuardOk id em seen (raise e) = (_, refl, error_for-id S id e)
  conclude_guard-GuardOk id em seen (ok (m, some r)) = (_, refl, refl)
  conclude_guard-GuardOk id em seen (ok (m, none)) =
      elim (Option-cases (get MentionId-discrete m.id seen)) [
        | inl unseen ↦ (
          (goes_on false m, put MentionId-discrete m.id m seen),
          rw (unseen, conclude_guard) refl,
          ((id, em, refl), λ e. absurd (ground arith)),
        )
        | inr (earlier, known) ↦ (
          (goes_on true m, seen),
          rw (known, conclude_guard) refl,
          ((id, em, refl), λ e. get-seen m.id seen known),
        )
      ]

  guard-Yields :
      (q : EreRequest M) (t : MentionTrace) (seen : Dict MentionId Mention)
      → Yields (GuardOk q seen) (guard S q t seen)
  unfolding guard unsupported_error
  guard-Yields (unsupported ty id) t seen = Yields-pure _ refl
  guard-Yields (resolution id em) t seen =
      Yields-bind {Q = λ answer. Unit {0}} _ _ (Yields-attempt _ (λ w. tt)) (λ answer _.
        let (g, is, good) = conclude_guard-GuardOk id em seen answer in Yields-lift _ g is good)

  module _ (requests : List (EreRequest M)) (traces : List MentionTrace) where
    -- What holds before the request at position `k` is guarded.
    pub record Sorted (k : ℕ) (c : Collected I) : Type 0 where
      pub size : length c.responses ≡ length requests
      pub pending : All (Placed S requests traces) c.pending
      pub repeats : All (Placed S requests traces) c.repeats
      pub found :
          (i : ℕ)
          → i < k
          → Answered requests c.responses i ⊎ (Listed i c.pending ⊎ Listed i c.repeats)

    collect_one-Sorted :
        (k : ℕ) (q : EreRequest M) (t : MentionTrace) (c : Collected I)
        (g : Guarded I × Dict MentionId Mention)
        → Sorted k c
        → item requests k ≡ ok q
        → item traces k ≡ ok t
        → GuardOk q c.first_seen g
        → (c' : Collected I) × (collect_one k g c ≡ ok c')
          × Sorted (k + 1) c'
          × (c.first_seen ≡ [] → c.repeats ≡ [] → c'.repeats ≡ [])
    unfolding collect_one
    collect_one-Sorted k q t c (ends r, seen) s at traced good =
        let (rs, put, filled) =
          put_at-Filled requests c.responses k
            (record { id = record { value = request_id q }; attributes = [] }) r s.size at good in
        (
          record c { first_seen = seen; responses = rs },
          rw put refl,
          record {
            size = filled.size;
            pending = s.pending;
            repeats = s.repeats;
            found = λ i h. elim (ℕ_discrete i k) [
              | yes p ↦ inl (filled.answers i (inl (sym p)))
              | no p ↦ elim (s.found i (omega arith)) [
                | inl a ↦ inl (filled.keeps i a)
                | inr l ↦ inr l
              ]
            ];
          },
          λ none_seen unrepeated. unrepeated,
        )
    collect_one-Sorted k q t c (goes_on true m, seen) s at traced ((id, em, is), again) = (
      record c { first_seen = seen; repeats = c.repeats ++ (k, m) ∷ [] },
      refl,
      record {
        size = s.size;
        pending = s.pending;
        repeats =
            All-append (Placed S requests traces) c.repeats ((k, m) ∷ []) s.repeats
              ((id, em, t, rw is at at, traced), tt);
        found = λ i h. elim (ℕ_discrete i k) [
          | yes p ↦ inr (inr (rw p (Listed-last k c.repeats m)))
          | no p ↦ elim (s.found i (omega arith)) [
            | inl a ↦ inl a
            | inr (inl l) ↦ inr (inl l)
            | inr (inr l) ↦ inr (inr (Listed-left i c.repeats ((k, m) ∷ []) l))
          ]
        ];
      },
      λ none_seen unrepeated. absurd (again refl none_seen),
    )
    collect_one-Sorted k q t c (goes_on false m, seen) s at traced ((id, em, is), again) = (
      record c { first_seen = seen; pending = c.pending ++ (k, m) ∷ [] },
      refl,
      record {
        size = s.size;
        pending =
            All-append (Placed S requests traces) c.pending ((k, m) ∷ []) s.pending
              ((id, em, t, rw is at at, traced), tt);
        repeats = s.repeats;
        found = λ i h. elim (ℕ_discrete i k) [
          | yes p ↦ inr (inl (rw p (Listed-last k c.pending m)))
          | no p ↦ elim (s.found i (omega arith)) [
            | inl a ↦ inl a
            | inr (inl l) ↦ inr (inl (Listed-left i c.pending ((k, m) ∷ []) l))
            | inr (inr l) ↦ inr (inr l)
          ]
        ];
      },
      λ none_seen unrepeated. unrepeated,
    )

    pub collect-Yields :
        (k n : ℕ) (es : List (EreRequest M × MentionTrace)) (c : Collected I)
        → Sorted k c
        → n ≡ k + length es
        → ((i j : ℕ) (e : EreRequest M × MentionTrace)
            → i ≡ k + j
            → item es j ≡ ok e
            → (item requests i ≡ ok e.0) × (item traces i ≡ ok e.1))
        → Yields (Sorted n) (collect S k es c)
    unfolding collect item
    collect-Yields k n [] c s end here = Yields-pure c (subst (λ i. Sorted i c) (omega arith) s)
    collect-Yields k n ((q, t) ∷ es) c s end here =
        let (at, traced) = here k 0 (q, t) (omega arith) refl in
        Yields-bind _ _ (guard-Yields q t c.first_seen) (λ g good.
          let (c₁, is, s₁, first) = collect_one-Sorted k q t c g s at traced good in
          Yields-bind {Q = λ c'. c' ≡ c₁} _ _ (Yields-lift _ c₁ is refl) (λ c' same. rw same (
            collect-Yields (k + 1) n es c₁ s₁ (omega arith)
              (λ i j e place there. here i (suc j) e (omega arith) there))))

    -- A bite of one repeats nothing.
    pub collect-Yields_one :
        (q : EreRequest M) (t : MentionTrace) (c : Collected I)
        → Sorted 0 c
        → item requests 0 ≡ ok q
        → item traces 0 ≡ ok t
        → c.first_seen ≡ []
        → c.repeats ≡ []
        → Yields (λ c'. Sorted 1 c' × (c'.repeats ≡ [])) (collect S 0 ((q, t) ∷ []) c)
    unfolding collect
    collect-Yields_one q t c s at traced none_seen unrepeated =
        Yields-bind _ _ (guard-Yields q t c.first_seen) (λ g good.
          let (c₁, is, s₁, first) = collect_one-Sorted 0 q t c g s at traced good in
          Yields-bind {Q = λ c'. c' ≡ c₁} _ _ (Yields-lift _ c₁ is refl)
            (λ c' same. rw same (Yields-pure c₁ (s₁, first none_seen unrepeated))))
