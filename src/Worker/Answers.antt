-- ===== src/Worker/Answers.antt =====
-- A bite of messages is answered in full and in order, whatever fails on the way.
use entity_resolution_engine.Base.{
  ℕ, zero, suc, ◌+◌, String, Option, none, some, List, [], ◌∷◌, map, length, length-map, replicate,
  ◌≡◌, refl, sym, ◌∙◌, ap, subst, inl, inr, arith,
}
use entity_resolution_engine.Model.Errors.{Exception, Result, ok, raise, ok-injective}
use entity_resolution_engine.Model.Yaml.{Yaml, null, boolean, number, text, sequence, mapping}
use entity_resolution_engine.Tracing.{MentionTrace}
use entity_resolution_engine.World.{World, Exec, ◌>>=◌, pure, lift, record_stage}
use entity_resolution_engine.World.Yields.{
  Yields, Yields-pure, Yields-lift, Yields-attempt, Yields-bind,
}
use entity_resolution_engine.Repositories.Transactions.{duckdb}
use entity_resolution_engine.Queue.{Raw}
use entity_resolution_engine.Service.Requests.{
  EreRequest, EreResponse, ere_request_id, request_id, item,
}
use entity_resolution_engine.Service.{process_batch}
use entity_resolution_engine.Service.Answers.{item_bound}
use entity_resolution_engine.Service.Complete.{process_batch-answers}
use entity_resolution_engine.Worker.Messages.{
  QueueWorker, peek_identity, trace_of, Parsed, traces_for, parse_all, results_of,
}
use entity_resolution_engine.Worker.{dequeued_trace, dequeued_traces, resolve_parsed, respond}
use entity_resolution_engine.Worker.Replies.{
  Replied, Refills, Owned, Matched, place-Refills, traces_for-eq, Collects, parse_one-Collects,
  errors-Matched, answers-Matched,
}

-- Where `json.loads` raises, it raises a `ValueError`, and the id of a request that parses is the one
-- that its JSON carries.
pub record ReadsIds {M I P : Type 0} (W : QueueWorker M I P) : Type 0 where
  pub tolerant :
      (raw : Raw) (e : Exception)
      → W.loads raw ≡ raise e
      → (name message : String) × (e ≡ Exception.value_error name message)
  pub faithful :
      (raw : Raw) (q : EreRequest M)
      → W.get_request_from_message raw ≡ ok q
      → peek_identity (W.loads raw) ≡ ok (request_id q)

peek_identity_total :
    (r : Result Yaml)
    → ((e : Exception) → r ≡ raise e → (n m : String) × (e ≡ Exception.value_error n m))
    → (id : String) × (peek_identity r ≡ ok id)
unfolding peek_identity
peek_identity_total (raise e) h =
    let (n, m, is) = h e refl in ("unknown", ap (λ x. peek_identity (raise x)) is)
peek_identity_total (ok null) h = ("unknown", refl)
peek_identity_total (ok (boolean b)) h = ("unknown", refl)
peek_identity_total (ok (number n)) h = ("unknown", refl)
peek_identity_total (ok (text t)) h = ("unknown", refl)
peek_identity_total (ok (sequence ys)) h = ("unknown", refl)
peek_identity_total (ok (mapping es)) h = (_, refl)

module _ {M I P : Type 0} (W : QueueWorker M I P) (reads : ReadsIds W) where
  peeked : (raw : Raw) → (id : String) × (peek_identity (W.loads raw) ≡ ok id)
  peeked raw = peek_identity_total (W.loads raw) (reads.tolerant raw)

  -- the id that the message carries
  abbrev carried : Raw → String
  carried raw = (peeked raw).0

  dequeued_trace-Yields :
      (raw : Raw) → Yields (λ t. t ≡ trace_of (carried raw)) (dequeued_trace W raw)
  unfolding dequeued_trace record_stage ◌>>=◌ lift pure
  dequeued_trace-Yields raw = record {
    at = λ w. (trace_of (carried raw), rw (peeked raw).1 refl, refl);
  }

  dequeued_traces-Yields :
      (bite : List Raw)
      → Yields (λ ts. ts ≡ map trace_of (map carried bite)) (dequeued_traces W bite)
  unfolding dequeued_traces
  dequeued_traces-Yields [] = Yields-pure [] refl
  dequeued_traces-Yields (raw ∷ bite) =
      Yields-bind (dequeued_trace W raw) _ (dequeued_trace-Yields raw) (λ t e.
        Yields-bind _ _ (dequeued_traces-Yields bite) (λ ts e'.
          Yields-pure (t ∷ ts) (ap (λ x. x ∷ ts) e ∙ ap (λ x. trace_of (carried raw) ∷ x) e')))

  parse_all-Collects :
      (ids : List String) (n : ℕ) (bite : List Raw) (c : Parsed M I)
      → ((i : ℕ) (raw : Raw) → item bite i ≡ ok raw → item ids (n + i) ≡ ok (carried raw))
      → Collects W ids n c
      → (c' : Parsed M I) × (parse_all W n (map trace_of ids) bite c ≡ ok c')
        × Collects W ids (n + length bite) c'
  unfolding parse_all item
  parse_all-Collects ids n [] c at s = (c, refl, subst (λ k. Collects W ids k c) (omega arith) s)
  parse_all-Collects ids n (raw ∷ bite) c at s =
      let here : item ids n ≡ ok (carried raw) =
        subst (λ k. item ids k ≡ ok (carried raw)) (omega arith) (at 0 raw refl) in
      let (c₁, parsed, s₁) =
        parse_one-Collects W ids n (carried raw) (W.get_request_from_message raw) c here
          (λ q h. ok-injective (sym (reads.faithful raw q h) ∙ (peeked raw).1)) s in
      let s₂ : Collects W ids (n + 1) c₁ = subst (λ k. Collects W ids k c₁) (omega arith) s₁ in
      let (c₂, parsed', s₃) =
        parse_all-Collects ids (n + 1) bite c₁
          (λ i raw' h.
            subst (λ k. item ids k ≡ ok (carried raw')) (omega arith) (at (suc i) raw' h))
          s₂ in
      (c₂, rw parsed parsed', subst (λ k. Collects W ids k c₂) (omega arith) s₃)

  module _ (ids : List String) (transactional : W.service.unit_of_work ≡ duckdb) where
    -- What `process_batch` comes to gives results that answer the entries.
    results_of-Matched :
        (es : List (ℕ × EreRequest M)) (ts : List MentionTrace) (w : World)
        (r : Result (List (Option (EreResponse I))))
        → Owned W ids es
        → (process_batch W.service (map (λ e. e.1) es) ts w).0 ≡ r
        → length ts ≡ length es
        → (results : List (Option (EreResponse I))) × (results_of W (map trace_of ids) es r
            ≡ ok results)
          × Matched W ids es results
    unfolding results_of
    results_of-Matched es ts w (ok results) o h size =
        let same : length (map (λ (e : ℕ × EreRequest M). e.1) es) ≡ length es = length-map _ es in
        let (sized, answered) =
          process_batch-answers W.service (map (λ e. e.1) es) ts w transactional
            (λ given. size ∙ sym same) h in
        (
          results,
          refl,
          answers-Matched W ids es results (sized ∙ same) (λ i b. answered i (omega (arith, same))),
        )
    results_of-Matched es ts w (raise e) o h size =
        (_, rw (traces_for-eq W ids es o) refl, errors-Matched W ids (W.service.str e) es)

    -- the call of `process_batch` with the requests and the traces of the entries
    abbrev asked : List (ℕ × EreRequest M) → Exec (List (Option (EreResponse I)))
    asked es = lift (traces_for (map trace_of ids) es) >>= λ chosen.
        process_batch W.service (map (λ e. e.1) es) chosen

    asked-eq :
        (es : List (ℕ × EreRequest M)) (w : World)
        → Owned W ids es
        → (process_batch W.service
            (map (λ e. e.1) es)
            (map (λ e. trace_of (request_id e.1)) es)
            w).0
          ≡ (asked es w).0
    unfolding ◌>>=◌ lift
    asked-eq es w o = rw (traces_for-eq W ids es o) refl

    abbrev Matches : List (ℕ × EreRequest M) → Result (List (Option (EreResponse I))) → Type 0
    Matches es answer =
        (results : List (Option (EreResponse I))) × (results_of W (map trace_of ids) es answer
          ≡ ok results)
        × Matched W ids es results

    resolve_parsed-Yields :
        (es : List (ℕ × EreRequest M)) (rs : List (Option (EreResponse I)))
        → Owned W ids es
        → length rs ≡ length ids
        → Yields (Refills W ids es rs) (resolve_parsed W (map trace_of ids) es rs)
    unfolding resolve_parsed
    resolve_parsed-Yields [] rs o size =
        Yields-pure rs (record { size = size; keeps = λ i a. a; replies = λ i l. absurd l })
    resolve_parsed-Yields (e ∷ es) rs o size =
        Yields-bind _ _
          (Yields-attempt {Q = Matches (e ∷ es)} (asked (e ∷ es)) (λ w.
            results_of-Matched (e ∷ es) _ w (asked (e ∷ es) w).0 o (asked-eq (e ∷ es) w o)
              (length-map _ (e ∷ es))))
          (λ answer (results, is, matched).
            Yields-bind _ _ (Yields-lift {Q = Matched W ids (e ∷ es)} _ results is matched)
              (λ results' matched'.
                let (rs', placed, f) = place-Refills W ids (e ∷ es) results' rs o matched' size in
                Yields-lift _ rs' placed f))

  replicate-length : {A : Type 0} (n : ℕ) (x : A) → length (replicate n x) ≡ n
  replicate-length zero x = refl
  replicate-length (suc n) x = omega (arith, replicate-length n x)

  item-carried :
      (bite : List Raw) (i : ℕ) (raw : Raw)
      → item bite i ≡ ok raw
      → item (map carried bite) i ≡ ok (carried raw)
  unfolding item
  item-carried [] i raw h = absurd (ground arith)
  item-carried (x ∷ bite) zero raw h = ap (λ y. ok (carried y)) (ok-injective h)
  item-carried (x ∷ bite) (suc i) raw h = item-carried bite i raw h

  -- Each message has a response that carries its id.
  abbrev pub InOrder : List Raw → List (Option (EreResponse I)) → Type 0
  InOrder bite responses =
      (length responses ≡ length bite)
      × ((i : ℕ) (raw : Raw)
          → item bite i ≡ ok raw
          → (r : EreResponse I) × (item responses i ≡ ok (some r))
            × (peek_identity (W.loads raw) ≡ ok (ere_request_id r)))

  all-InOrder :
      (bite : List Raw) (c : Parsed M I) (rs : List (Option (EreResponse I)))
      → Collects W (map carried bite) (length bite) c
      → Refills W (map carried bite) c.parsed c.responses rs
      → InOrder bite rs
  all-InOrder bite c rs s f = (
    f.size ∙ length-map carried bite,
    λ i raw at.
        let replied : Replied W (map carried bite) rs i = elim (s.found i (item_bound bite i at)) [
          | inl a ↦ f.keeps i a
          | inr l ↦ f.replies i l
        ] in
        let (r, here, id) = replied in
        (r, here, (peeked raw).1 ∙ sym (item-carried bite i raw at) ∙ id),
  )

  pub respond-Yields :
      (bite : List Raw)
      → W.service.unit_of_work ≡ duckdb
      → Yields (λ r. InOrder bite r.1) (respond W bite)
  unfolding respond
  respond-Yields bite transactional =
      let ids = map carried bite in
      let n = length bite in
      let started : Collects W ids 0 (record { responses = replicate n none; parsed = [] }) =
        record {
          size = replicate-length n none ∙ sym (length-map carried bite);
          owned = tt;
          found = λ i h. absurd (omega arith);
        } in
      Yields-bind _ _ (dequeued_traces-Yields bite) (λ ts e.
        let (c, parsed, s) =
          parse_all-Collects ids 0 bite (record { responses = replicate n none; parsed = [] })
            (λ i raw at.
              subst (λ k. item ids k ≡ ok (carried raw)) (omega arith) (item-carried bite i raw at))
            started in
        Yields-bind _ _
          (Yields-lift {Q = λ c'. Collects W ids n c'} _ c (rw e parsed)
            (subst (λ k. Collects W ids k c) (omega arith) s))
          (λ c' s'.
            Yields-bind _ _
              (rw e
                (resolve_parsed-Yields ids transactional c'.parsed c'.responses s'.owned s'.size))
              (λ rs f. Yields-pure (ts, rs) (all-InOrder bite c' rs s' f))))
