-- ===== src/Service/Settled.antt =====
-- The pending requests of a bite are answered, whether the bite is resolved or not
-- (`_resolve_pending` and `_resolve_alone`).
use entity_resolution_engine.Base.{
  ℕ, suc, String, Option, some, List, [], ◌∷◌, map, zip, length, length-map, ◌≡◌, refl, ◌∙◌, sym,
  ap, arith, All,
}
use entity_resolution_engine.Model.Errors.{Exception, Result, ok, raise}
use entity_resolution_engine.Model.Mentions.{Mention}
use entity_resolution_engine.Model.Clusters.{ResolutionResult}
use entity_resolution_engine.Tracing.{MentionTrace}
use entity_resolution_engine.World.{lift}
use entity_resolution_engine.World.Yields.{
  Yields, Yields-pure, Yields-lift, Yields-weaken, Yields-attempt, Yields-bind,
}
use entity_resolution_engine.World.Steps
use entity_resolution_engine.Repositories.Transactions.{duckdb}
use entity_resolution_engine.Resolver.Batch.{resolve}
use entity_resolution_engine.Resolver.Batch.Success.{resolve_batch-length}
use entity_resolution_engine.Service.Requests.{
  EreRequest, resolution, EreResponse, EntityResolutionService, ere_request_id, request_id, item,
  put_at, resolution_response, response_or_error, error_for, unexpected_error, controlled_error,
  fill, traces_at,
}
use entity_resolution_engine.Service.Answers.{Filled, Filled-nil, Filled-cons, put_at-Filled}
use entity_resolution_engine.Service.{resolve_alone, resolve_each, settle, resolve_pending}

module _ {M I : Type 0} (S : EntityResolutionService M I) where
  pub error_for-id : (id : String) (e : Exception) → ere_request_id (error_for S id e) ≡ id
  unfolding error_for controlled_error unexpected_error
  error_for-id id (Exception.value_error name text) = refl
  error_for-id id (Exception.conflict_error m a b) = refl
  error_for-id id (Exception.key_error k) = refl
  error_for-id id (Exception.lookup_error t) = refl
  error_for-id id (Exception.other name text) = refl

  pub resolution_response-id :
      (q : EreRequest M) (result : ResolutionResult) {r : EreResponse I}
      → resolution_response S q result ≡ ok r
      → ere_request_id r ≡ request_id q
  unfolding resolution_response
  resolution_response-id (resolution id em) result h = ground arith
  resolution_response-id (EreRequest.unsupported ty id) result h = absurd (ground arith)

  pub resolution_response-ok :
      (id : String) (em : M) (result : ResolutionResult)
      → (r : EreResponse I) × (resolution_response S (resolution id em) result ≡ ok r)
        × (ere_request_id r ≡ id)
  unfolding resolution_response
  resolution_response-ok id em result = (_, refl, refl)

  pub unexpected_error-id : (id : String) → ere_request_id (unexpected_error S id) ≡ id
  unfolding unexpected_error
  unexpected_error-id id = refl

  response_or_error-id :
      (id : String) (answer : Result (EreResponse I))
      → ((r : EreResponse I) → answer ≡ ok r → ere_request_id r ≡ id)
      → ere_request_id (response_or_error S id answer) ≡ id
  unfolding response_or_error
  response_or_error-id id (ok r) h = h r refl
  response_or_error-id id (raise e) h = error_for-id id e

  -- A mention that is resolved alone is answered, by a response or by an error.
  resolve_alone-Yields :
      (q : EreRequest M) (m : Mention) (t : MentionTrace)
      → Yields (λ r. ere_request_id r ≡ request_id q) (resolve_alone S q m t)
  unfolding resolve_alone lift
  resolve_alone-Yields q m t =
      Yields-bind
        {Q = λ answer. (r : EreResponse I) → answer ≡ ok r → ere_request_id r ≡ request_id q} _ _
        (Yields-attempt _ (λ w r h.
          let (result, ran, h', same) =
            Steps.>>=-eq-ok (resolve S.platform S.config S.unit_of_work m (t ∷ [])) _ w h in
          resolution_response-id q result h'))
        (λ answer good. Yields-pure _ (response_or_error-id (request_id q) answer good))

  module _ (requests : List (EreRequest M)) (traces : List MentionTrace) where
    -- The entry is a resolution request of the bite, with its trace.
    abbrev pub Placed : ℕ × Mention → Type 0
    Placed e =
        (id : String) × (em : M) × (t : MentionTrace) × (item requests e.0 ≡ ok (resolution id em))
        × (item traces e.0 ≡ ok t)

    pub traces_at-ok :
        (es : List (ℕ × Mention))
        → All Placed es
        → (ts : List MentionTrace) × (traces_at traces es ≡ ok ts) × (length ts ≡ length es)
    unfolding traces_at
    traces_at-ok [] h = ([], refl, refl)
    traces_at-ok ((i, m) ∷ es) ((id, em, t, at, traced), h) =
        let (ts, is, size) = traces_at-ok es h in (t ∷ ts, rw traced (rw is refl), ap suc size)

    fill_step :
        (i : ℕ) (m : Mention) (result : ResolutionResult)
        (rest : List ((ℕ × Mention) × ResolutionResult)) (rs rs' : List (Option (EreResponse I)))
        (q : EreRequest M) (r : EreResponse I)
        → item requests i ≡ ok q
        → resolution_response S q result ≡ ok r
        → put_at rs i (some r) ≡ ok rs'
        → fill S requests (((i, m), result) ∷ rest) rs ≡ fill S requests rest rs'
    unfolding fill
    fill_step i m result rest rs rs' q r at response put = rw at (rw response (rw put refl))

    fill-Filled :
        (es : List (ℕ × Mention)) (results : List ResolutionResult)
        (rs : List (Option (EreResponse I)))
        → length rs ≡ length requests
        → length results ≡ length es
        → All Placed es
        → (rs' : List (Option (EreResponse I))) × (fill S requests (zip es results) rs ≡ ok rs')
          × Filled requests es rs rs'
    unfolding fill
    fill-Filled [] results rs size same h = (rs, refl, Filled-nil requests rs size)
    fill-Filled (e ∷ es) [] rs size same h = absurd (omega arith)
    fill-Filled ((i, m) ∷ es) (result ∷ results) rs size same ((id, em, t, at, traced), h) =
        let (r, response, same_id) = resolution_response-ok id em result in
        let (rs', put, filled) = put_at-Filled requests rs i m r size at same_id in
        let (rs'', rest, filled') = fill-Filled es results rs' filled.size (omega arith) h in
        (
          rs'',
          fill_step i m result (zip es results) rs rs' (resolution id em) r at response put ∙ rest,
          Filled-cons requests (i, m) es rs rs' rs'' filled filled',
        )

    resolve_each-Yields :
        (es : List (ℕ × Mention)) (rs : List (Option (EreResponse I)))
        → length rs ≡ length requests
        → All Placed es
        → Yields (Filled requests es rs) (resolve_each S requests traces es rs)
    unfolding resolve_each
    resolve_each-Yields [] rs size h = Yields-pure rs (Filled-nil requests rs size)
    resolve_each-Yields ((i, m) ∷ es) rs size ((id, em, t, at, traced), h) =
        Yields-bind {Q = λ q. q ≡ resolution id em} _ _ (Yields-lift _ _ at refl) (λ q is.
          Yields-bind {Q = λ u. Unit {0}} _ _ (Yields-lift _ _ traced tt) (λ t' _.
            Yields-bind _ _ (resolve_alone-Yields q m t') (λ r same.
              let (rs', put, filled) =
                put_at-Filled requests rs i m r size at (same ∙ ap (λ x. request_id x) is) in
              Yields-bind {Q = λ xs. xs ≡ rs'} _ _ (Yields-lift _ _ put refl) (λ xs is'. rw is' (
                Yields-weaken (resolve_each-Yields es rs' filled.size h)
                  (λ rs'' filled'. Filled-cons requests (i, m) es rs rs' rs'' filled filled'))))))

    settle-Yields :
        (es : List (ℕ × Mention)) (rs : List (Option (EreResponse I)))
        (answer : Result (List ResolutionResult))
        → length rs ≡ length requests
        → ((results : List ResolutionResult) → answer ≡ ok results → length results ≡ length es)
        → All Placed es
        → Yields (Filled requests es rs) (settle S requests traces es rs answer)
    unfolding settle
    settle-Yields es rs (ok results) size same h =
        let (rs', is, filled) = fill-Filled es results rs size (same results refl) h in
        Yields-lift _ rs' is filled
    settle-Yields [] rs (raise e) size same h = resolve_each-Yields [] rs size h
    settle-Yields ((i, m) ∷ []) rs (raise e) size same ((id, em, t, at, traced), h) =
        Yields-bind {Q = λ q. q ≡ resolution id em} _ _ (Yields-lift _ _ at refl) (λ q is.
          let (rs', put, filled) =
            put_at-Filled requests rs i m (unexpected_error S (request_id q)) size at
              (unexpected_error-id (request_id q) ∙ ap (λ x. request_id x) is) in
          Yields-lift _ rs' put filled)
    settle-Yields (e ∷ f ∷ es) rs (raise x) size same h = resolve_each-Yields (e ∷ f ∷ es) rs size h

    -- Each pending request is answered, whether the bite is resolved or not.
    pub resolve_pending-Yields :
        (es : List (ℕ × Mention)) (rs : List (Option (EreResponse I)))
        → S.unit_of_work ≡ duckdb
        → length rs ≡ length requests
        → All Placed es
        → Yields (Filled requests es rs) (resolve_pending S requests traces es rs)
    unfolding resolve_pending lift
    resolve_pending-Yields [] rs transactional size h = Yields-pure rs (Filled-nil requests rs size)
    resolve_pending-Yields (e ∷ es) rs transactional size h =
        let (chosen, is, as_many) = traces_at-ok (e ∷ es) h in
        let ms = map (λ (x : ℕ × Mention). x.1) (e ∷ es) in
        Yields-bind
          {Q = λ answer.
            (results : List ResolutionResult)
            → answer ≡ ok results
            → length results ≡ length (e ∷ es)}
          _ _
          (Yields-attempt _ (λ w results ran.
            let (ts, there, h', same) =
              Steps.>>=-eq-ok (lift (traces_at traces (e ∷ es))) _ w ran in
            let is_ts : ts ≡ chosen = ground arith in
            resolve_batch-length S.platform S.config ms ts w (rw transactional at h') (λ _.
              ap length is_ts ∙ as_many ∙ sym (length-map (λ (x : ℕ × Mention). x.1) (e ∷ es)))
            ∙ length-map (λ (x : ℕ × Mention). x.1) (e ∷ es)))
          (λ answer same. settle-Yields (e ∷ es) rs answer size same h)
