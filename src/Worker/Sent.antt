-- ===== src/Worker/Sent.antt =====
-- What a bite of messages leaves in the response queue, and how many messages it may have:
-- `process_bite` of src/ere/entrypoints/queue_worker.py.
use entity_resolution_engine.Base.{
  ℕ, zero, suc, ◌<◌, Option, none, some, List, [], ◌∷◌, length, ◌≡◌, refl, sym, ◌∙◌, ap, subst,
  arith,
}
use entity_resolution_engine.Model.Errors.{ok, ok-injective}
use entity_resolution_engine.World.Yields.{Yields, Yields-pure, Yields-bind}
use entity_resolution_engine.Repositories.Transactions.{duckdb}
use entity_resolution_engine.Queue.{Raw}
use entity_resolution_engine.Service.Requests.{EreResponse, ere_request_id, item}
use entity_resolution_engine.Service.Answers.{item_exists}
use entity_resolution_engine.Worker.Messages.{QueueWorker, peek_identity, kept, payloads, pushed}
use entity_resolution_engine.Worker.{stage_responded, process}
use entity_resolution_engine.Worker.Answers.{ReadsIds, InOrder, respond-Yields}

pub item_nil : {A : Type 0} (i : ℕ) {x : A} → item [] i ≡ ok x → ⊥
unfolding item
item_nil i h = ground arith

module _ {M I P : Type 0} (W : QueueWorker M I P) where
  payloads-cons :
      (x : Option (EreResponse I)) (rs : List (Option (EreResponse I))) {p : P}
      → W.dumps x ≡ ok p
      → payloads W (x ∷ rs) ≡ p ∷ payloads W rs
  unfolding payloads
  payloads-cons x rs e = ap (λ r. kept r (payloads W rs)) e

  -- The payloads are those of the responses, one by one.
  abbrev SerialisedAt : List (Option (EreResponse I)) → List P → Type 0
  SerialisedAt rs ps =
      (i : ℕ) (r : EreResponse I)
      → item rs i ≡ ok (some r)
      → (p : P) × (item ps i ≡ ok p) × (W.dumps (some r) ≡ ok p)

  abbrev Serialised : List (Option (EreResponse I)) → List P → Type 0
  Serialised rs ps = (length ps ≡ length rs) × SerialisedAt rs ps

  payloads-item_cons :
      (x : Option (EreResponse I)) (p : P) (rs : List (Option (EreResponse I))) (ps : List P)
      → W.dumps x ≡ ok p
      → SerialisedAt rs ps
      → SerialisedAt (x ∷ rs) (p ∷ ps)
  unfolding item
  payloads-item_cons x p rs ps made rest zero r h =
      (p, refl, ap W.dumps (sym (ok-injective h)) ∙ made)
  payloads-item_cons x p rs ps made rest (suc i) r h = rest i r h

  payloads-Serialised :
      ((r : EreResponse I) → (p : P) × (W.dumps (some r) ≡ ok p))
      → (rs : List (Option (EreResponse I)))
      → ((i : ℕ) → i < length rs → (r : EreResponse I) × (item rs i ≡ ok (some r)))
      → Serialised rs (payloads W rs)
  unfolding payloads item
  payloads-Serialised dumped [] full = (refl, λ i r h. absurd (ground arith))
  payloads-Serialised dumped (x ∷ rs) full =
      let (r, here) = full 0 (omega arith) in
      let is : x ≡ some r = ok-injective here in
      let (p, made) = dumped r in
      let made' : W.dumps x ≡ ok p = ap W.dumps is ∙ made in
      let (size, rest) = payloads-Serialised dumped rs (λ i b. full (suc i) (omega arith)) in
      subst (Serialised (x ∷ rs)) (sym (payloads-cons x rs made'))
        (omega (arith, size), payloads-item_cons x p rs (payloads W rs) made' rest)

  -- The messages are taken one by one in order, and for each one payload is pushed: that of a response
  -- with the id that the message carries.
  abbrev pub Sends : List Raw → List P → Type 0
  Sends bite ps =
      (length ps ≡ length bite)
      × ((i : ℕ) (raw : Raw)
          → item bite i ≡ ok raw
          → (r : EreResponse I) × (p : P) × (item ps i ≡ ok p)
            × (W.dumps (some r) ≡ ok p)
            × (peek_identity (W.loads raw) ≡ ok (ere_request_id r)))

  module _ (reads : ReadsIds W) (dumped : (r : EreResponse I) → (p : P) × (W.dumps (some r) ≡ ok p))
      (transactional : W.service.unit_of_work ≡ duckdb) where
    payloads-Sends :
        (bite : List Raw) (rs : List (Option (EreResponse I)))
        → InOrder W reads bite rs
        → Sends bite (payloads W rs)
    payloads-Sends bite rs (size, replies) =
        let (sized, sent) = payloads-Serialised dumped rs (λ i h.
          let (raw, at) = item_exists bite i (omega (arith, size)) in
          let (r, here, id) = replies i raw at in (r, here)) in
        (
          sized ∙ size,
          λ i raw at.
              let (r, here, id) = replies i raw at in
              let (p, there, made) = sent i r here in (r, p, there, made, id),
        )

    pub process-Yields :
        (bite : List Raw) → Yields (λ a. (a.0 ≡ length bite) × Sends bite a.1) (process W none bite)
    unfolding process pushed stage_responded
    process-Yields [] = Yields-pure (0, []) (refl, (refl, λ i raw h. absurd (item_nil i h)))
    process-Yields (raw ∷ bite) =
        Yields-bind _ _ (respond-Yields W reads (raw ∷ bite) transactional) (λ a inorder.
          Yields-bind {Q = λ u. Unit {0}} (stage_responded a.0) _
            (record { at = λ w. (tt, refl, tt) })
            (λ u v.
              Yields-pure (length (raw ∷ bite), payloads W a.1)
                (refl, payloads-Sends (raw ∷ bite) a.1 inorder)))
