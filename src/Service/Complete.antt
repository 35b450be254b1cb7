-- ===== src/Service/Complete.antt =====
-- A bite of requests gets its responses (`process_batch` and `process_request`).
use entity_resolution_engine.Base.{
  ℕ, Option, none, some, List, [], ◌∷◌, zip, length, length-zip, ◌≡◌, ◌≢◌, refl, ◌∙◌, sym, ap,
  subst, inl, inr, arith, ◌<◌,
}
use entity_resolution_engine.Model.Errors.{ok}
use entity_resolution_engine.Model.Mentions.{Mention}
use entity_resolution_engine.Model.Clusters.{ResolutionResult}
use entity_resolution_engine.Tracing.{MentionTrace, disabled}
use entity_resolution_engine.World.{World, ◌>>=◌, pure, lift}
use entity_resolution_engine.World.Yields.{Yields, Yields-pure, Yields-lift, Yields-bind}
use entity_resolution_engine.World.Steps.{>>=-eq-ok}
use entity_resolution_engine.Repositories.Transactions.{duckdb}
use entity_resolution_engine.Resolver.Batch.{or_disabled, find_cluster_for}
use entity_resolution_engine.Resolver.Batch.Success.{or_disabled-length}
use entity_resolution_engine.Service.Requests.{
  EreRequest, EreResponse, EntityResolutionService, ere_request_id, request_id, item, put_at,
  unexpected_error,
}
use entity_resolution_engine.Service.Collecting.{no_responses, length-no_responses, Collected}
use entity_resolution_engine.Service.Answers.{
  Answered, Filled, Filled-nil, Filled-cons, put_at-Filled, item-zip,
}
use entity_resolution_engine.Service.Settled.{
  resolve_pending-Yields, resolution_response-id, unexpected_error-id,
}
use entity_resolution_engine.Service.Guards.{Sorted, collect-Yields, collect-Yields_one}
use entity_resolution_engine.Service.{
  collect, resolve_pending, respond_repeats, respond_cached, cached_response, process_batch,
  process_request,
}

module _ {M I : Type 0} (S : EntityResolutionService M I) where
  cached_response-id :
      (q : EreRequest M) (cached : Option ResolutionResult) {r : EreResponse I}
      → cached_response S q cached ≡ ok r
      → ere_request_id r ≡ request_id q
  unfolding cached_response
  cached_response-id q none h = ap (λ x. x) (unexpected q h)
    where
      unexpected :
          (q : EreRequest M) {r : EreResponse I}
          → ok (unexpected_error S (request_id q)) ≡ ok r
          → ere_request_id r ≡ request_id q
      unexpected q h = ground (arith, unexpected_error-id S (request_id q))
  cached_response-id q (some result) h = resolution_response-id S q result h

  respond_cached-id :
      (q : EreRequest M) (m : Mention) (w : World) {r : EreResponse I}
      → (respond_cached S q m w).0 ≡ ok r
      → ere_request_id r ≡ request_id q
  unfolding respond_cached lift
  respond_cached-id q m w h =
      let (cached, ran, h', same) = >>=-eq-ok (find_cluster_for S.platform S.config m.id) _ w h in
      cached_response-id q cached h'

  module _ (requests : List (EreRequest M)) (traces : List MentionTrace) where
    respond_repeats-Filled :
        (es : List (ℕ × Mention)) (rs : List (Option (EreResponse I))) (w : World)
        {rs' : List (Option (EreResponse I))}
        → length rs ≡ length requests
        → (respond_repeats S requests es rs w).0 ≡ ok rs'
        → Filled requests es rs rs'
    unfolding respond_repeats lift pure
    respond_repeats-Filled [] rs w {rs'} size h =
        let same : rs ≡ rs' = ground arith in
        subst (Filled requests [] rs) same (Filled-nil requests rs size)
    respond_repeats-Filled ((i, m) ∷ es) rs w {rs'} size h =
        let (q, at, h₁, same₁) = >>=-eq-ok (lift (item requests i)) _ w h in
        let (r, answered, h₂, same₂) = >>=-eq-ok (respond_cached S q m) _ w h₁ in
        let w₁ = (respond_cached S q m w).1 in
        let (rs₁, put, h₃, same₃) = >>=-eq-ok (lift (put_at rs i (some r))) _ w₁ h₂ in
        let (rs₂, put', filled) =
          put_at-Filled requests rs i m r size at (respond_cached-id q m w answered) in
        let is : rs₂ ≡ rs₁ = ground arith in
        let filled' : Filled requests ((i, m) ∷ []) rs rs₁ =
          subst (Filled requests ((i, m) ∷ []) rs) is filled in
        Filled-cons requests (i, m) es rs rs₁ rs' filled'
          (respond_repeats-Filled es rs₁ w₁ filled'.size h₃)

    start-Sorted : Sorted S requests traces 0 (no_responses (length requests))
    unfolding no_responses
    start-Sorted = record {
      size = length-no_responses I (length requests);
      pending = tt;
      repeats = tt;
      found = λ i h. absurd (omega arith);
    }

    -- Once the pending and the repeated ones are answered, all are.
    all-Answered :
        (c : Collected I) (rs rs' : List (Option (EreResponse I)))
        → Sorted S requests traces (length requests) c
        → Filled requests c.pending c.responses rs
        → Filled requests c.repeats rs rs'
        → (length rs' ≡ length requests) × ((i : ℕ) → i < length requests → Answered requests rs' i)
    all-Answered c rs rs' s f g = (
      g.size,
      λ i h. elim (s.found i h) [
        | inl a ↦ g.keeps i (f.keeps i a)
        | inr (inl l) ↦ g.keeps i (f.answers i l)
        | inr (inr l) ↦ g.answers i l
      ],
    )

  -- With the unit of work of the database, and as many traces as requests or none, a bite of requests that
  -- is processed has one response for each request, at its position and with its id, whatever failed on
  -- the way: the mapping, a guard, the bite or a mention of it.
  pub process_batch-answers :
      (requests : List (EreRequest M)) (traces : List MentionTrace) (w : World)
      {responses : List (Option (EreResponse I))}
      → S.unit_of_work ≡ duckdb
      → (traces ≢ [] → length traces ≡ length requests)
      → (process_batch S requests traces w).0 ≡ ok responses
      → (length responses ≡ length requests)
        × ((i : ℕ) → i < length requests → Answered requests responses i)
  unfolding process_batch
  process_batch-answers requests traces w {responses} transactional traced h =
      let used = or_disabled requests traces in
      let (c, collected, h₁, same₁) =
        >>=-eq-ok (collect S 0 (zip requests used) (no_responses (length requests))) _ w h in
      let w₁ = (collect S 0 (zip requests used) (no_responses (length requests)) w).1 in
      let (rs, settled, h₂, same₂) =
        >>=-eq-ok (resolve_pending S requests used c.pending c.responses) _ w₁ h₁ in
      let w₂ = (resolve_pending S requests used c.pending c.responses w₁).1 in
      let (c', is, s) =
        (collect-Yields S requests used 0 (length requests) (zip requests used)
            (no_responses (length requests)) (start-Sorted requests used)
            (omega (arith, length-zip requests used (or_disabled-length requests traces traced)))
            (λ i j e place there.
              item-zip requests used i
                (subst (λ x. item (zip requests used) x ≡ ok e) (omega arith) there))).at
          w in
      let same_c : c' ≡ c = ground arith in
      let sorted : Sorted S requests used (length requests) c =
        subst (Sorted S requests used (length requests)) same_c s in
      let (rs', is', filled) =
        (resolve_pending-Yields S requests used c.pending c.responses transactional sorted.size
            sorted.pending).at
          w₁ in
      let same_rs : rs' ≡ rs = ground arith in
      let filled' : Filled requests c.pending c.responses rs =
        subst (Filled requests c.pending c.responses) same_rs filled in
      all-Answered requests used c rs responses sorted filled'
        (respond_repeats-Filled requests used c.repeats rs w₂ filled'.size h₂)

  module _ (q : EreRequest M) where
    -- the response that answers the request
    abbrev Answers : EreResponse I → Type 0
    Answers r = ere_request_id r ≡ request_id q

    process_one :
        (t : MentionTrace) (us : List MentionTrace)
        → S.unit_of_work ≡ duckdb
        → Yields
            (λ rs. (r : EreResponse I) × (item rs 0 ≡ ok (some r)) × Answers r)
            (collect S 0 (zip (q ∷ []) (t ∷ us)) (no_responses 1) >>= λ c.
              resolve_pending S (q ∷ []) (t ∷ us) c.pending c.responses >>= λ rs.
              respond_repeats S (q ∷ []) c.repeats rs)
    unfolding item no_responses respond_repeats
    process_one t us transactional =
        Yields-bind _ _
          (collect-Yields_one S (q ∷ []) (t ∷ us) q t (no_responses 1)
            (start-Sorted (q ∷ []) (t ∷ us)) refl refl refl refl)
          (λ c (s, unrepeated).
            Yields-bind _ _
              (resolve_pending-Yields S (q ∷ []) (t ∷ us) c.pending c.responses transactional s.size
                s.pending)
              (λ rs filled.
                let none_left : Filled (q ∷ []) c.repeats rs rs =
                  rw unrepeated (Filled-nil (q ∷ []) rs filled.size) in
                let (size, answered) = all-Answered (q ∷ []) (t ∷ us) c rs rs s filled none_left in
                let (r, q', here, is, same) = answered 0 (omega arith) in
                let same_q : q ≡ q' = ground arith in
                rw unrepeated
                  (Yields-pure rs (r, here, same ∙ ap (λ x. request_id x) (sym same_q)))))

    process_request-Yields :
        (ts : List MentionTrace)
        → S.unit_of_work ≡ duckdb
        → Yields (λ o. (r : EreResponse I) × (o ≡ some r) × Answers r) (process_request S q ts)
    unfolding process_request process_batch or_disabled
    process_request-Yields [] transactional =
        Yields-bind _ _ (process_one disabled [] transactional)
          (λ rs (r, here, same). Yields-lift _ (some r) here (r, refl, same))
    process_request-Yields (t ∷ ts) transactional =
        Yields-bind _ _ (process_one t ts transactional)
          (λ rs (r, here, same). Yields-lift _ (some r) here (r, refl, same))

    -- With the unit of work of the database, a single request always gets a response, and the response has
    -- its id, whatever fails.
    pub process_request-answers :
        (traces : List MentionTrace) (w : World)
        → S.unit_of_work ≡ duckdb
        → (r : EreResponse I) × ((process_request S q traces w).0 ≡ ok (some r))
          × (ere_request_id r ≡ request_id q)
    process_request-answers traces w transactional =
        let (o, is, (r, same, answers)) = (process_request-Yields traces transactional).at w in
        (r, is ∙ ap ok same, answers)
