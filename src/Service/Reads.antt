-- ===== src/Service/Reads.antt =====
-- What the guards and the answers from what is stored leave alone: the tables.
use entity_resolution_engine.Base.{
  ℕ, ◌+◌, Option, none, some, List, [], ◌∷◌, zip, length, true, false, if◌then◌else◌, ◌≡◌, refl,
  ◌∙◌, ap, arith,
}
use entity_resolution_engine.Base.Dict.{Dict}
use entity_resolution_engine.Model.Errors.{Exception, Result, ok, raise}
use entity_resolution_engine.Model.Mentions.{MentionId, Mention, same_attributes}
use entity_resolution_engine.Model.Clusters.{ResolutionResult}
use entity_resolution_engine.Tracing.{MentionTrace, TraceEvent, Fields}
use entity_resolution_engine.World.{
  World, Tables, Platform, ◌>>=◌, pure, throw, record_stage, select,
}
use entity_resolution_engine.World.Keeps.{
  Keeps, Keeps-tables-read, Keeps-bind, Keeps-pure, Keeps-lift, keeps_rules,
}
use entity_resolution_engine.World.Steps.{>>=-of_ok}
use entity_resolution_engine.Config.{ResolverConfig}
use entity_resolution_engine.Repositories.Mentions
use entity_resolution_engine.Repositories.Similarities
use entity_resolution_engine.Repositories.Clusters
use entity_resolution_engine.Resolver.Batch.{
  or_disabled, none_if_missing, refuse_conflict, gen_cand, find_cluster_for, check_conflict,
}
use entity_resolution_engine.Service.Collecting.{Collected, no_responses}
use entity_resolution_engine.Service.Requests.{
  EreRequest, resolution, unsupported, EreResponse, EntityResolutionService,
}
use entity_resolution_engine.Service.{
  stage_conflict, prepare_mention, guard, collect, resolve_pending, respond_repeats, respond_cached,
  process_batch,
}

-- the tables of a world
abbrev tables_of : World → Tables
tables_of w = w.tables

select-Keeps : (P : Platform) {A : Type 0} (f : Tables → A) → Keeps tables_of (select P f)
unfolding select
select-Keeps P f = Keeps-tables-read P (λ w. f w.tables)

record_stage-Keeps :
    (t : MentionTrace) (e : TraceEvent) (fields : Fields)
    → Keeps tables_of (record_stage t e fields)
unfolding record_stage
record_stage-Keeps t e fields = record { at = λ w. refl }

none_if_missing-Keeps : (r : Result ResolutionResult) → Keeps tables_of (none_if_missing r)
unfolding none_if_missing
none_if_missing-Keeps (ok r) = search keeps_rules
none_if_missing-Keeps (raise (Exception.key_error k)) = search keeps_rules
none_if_missing-Keeps (raise e) = search keeps_rules

stage_conflict-Keeps :
    (t : MentionTrace) (r : Result (Unit {0})) → Keeps tables_of (stage_conflict t r)
unfolding stage_conflict
stage_conflict-Keeps t (ok u) = search keeps_rules
stage_conflict-Keeps t (raise (Exception.conflict_error m a b)) =
    search (keeps_rules, record_stage-Keeps) depth 8
stage_conflict-Keeps t (raise e) = search keeps_rules

refuse_conflict-Keeps : (m : Mention) (x : Option Mention) → Keeps tables_of (refuse_conflict m x)
unfolding refuse_conflict
refuse_conflict-Keeps m none = search keeps_rules
refuse_conflict-Keeps m (some existing) =
    elim (same_attributes existing.attributes m.attributes)
      as (λ b. Keeps tables_of (
        if b
        then pure tt
        else throw (Exception.conflict_error m.id.value existing.attributes m.attributes))) [
          | true ↦ search keeps_rules
          | false ↦ search keeps_rules
        ]

module _ (P : Platform) (config : ResolverConfig) where
  clusters_for-Keeps : (ids : List MentionId) → Keeps tables_of (Clusters.clusters_for P ids)
  unfolding Clusters.clusters_for
  clusters_for-Keeps [] = search keeps_rules
  clusters_for-Keeps (i ∷ ids) = search (keeps_rules, select-Keeps)

  find_for-Keeps : (m : MentionId) → Keeps tables_of (Similarities.find_for P m)
  unfolding Similarities.find_for
  find_for-Keeps m = search (keeps_rules, select-Keeps) depth 8

  find_cluster_of-Keeps : (m : MentionId) → Keeps tables_of (Clusters.find_cluster_of P m)
  unfolding Clusters.find_cluster_of
  find_cluster_of-Keeps m = search (keeps_rules, select-Keeps) depth 8

  find_by_id-Keeps :
      (m : MentionId) → Keeps tables_of (Mentions.find_by_id P config.entity_fields m)
  unfolding Mentions.find_by_id
  find_by_id-Keeps m = search (keeps_rules, select-Keeps) depth 8

  gen_cand-Keeps : (m : MentionId) → Keeps tables_of (gen_cand P config m)
  unfolding gen_cand
  gen_cand-Keeps m =
      search (keeps_rules, clusters_for-Keeps, find_for-Keeps, find_cluster_of-Keeps) depth 12

  find_cluster_for-Keeps : (m : MentionId) → Keeps tables_of (find_cluster_for P config m)
  unfolding find_cluster_for
  find_cluster_for-Keeps m =
      search (keeps_rules, none_if_missing-Keeps, find_cluster_of-Keeps, gen_cand-Keeps) depth 12

  check_conflict-Keeps : (m : Mention) → Keeps tables_of (check_conflict P config m)
  unfolding check_conflict
  check_conflict-Keeps m = search (keeps_rules, find_by_id-Keeps, refuse_conflict-Keeps) depth 8

module _ {M I : Type 0} (S : EntityResolutionService M I) where
  prepare_mention-Keeps : (em : M) (t : MentionTrace) → Keeps tables_of (prepare_mention S em t)
  unfolding prepare_mention
  prepare_mention-Keeps em t =
      search
        (
          keeps_rules, record_stage-Keeps, stage_conflict-Keeps, check_conflict-Keeps,
          find_cluster_for-Keeps,
        )
        depth 16

  guard-Keeps :
      (q : EreRequest M) (t : MentionTrace) (seen : Dict MentionId Mention)
      → Keeps tables_of (guard S q t seen)
  unfolding guard
  guard-Keeps (unsupported ty id) t seen = search keeps_rules
  guard-Keeps (resolution id em) t seen = search (keeps_rules, prepare_mention-Keeps) depth 16

  collect-Keeps :
      (n : ℕ) (xs : List (EreRequest M × MentionTrace)) (c : Collected I)
      → Keeps tables_of (collect S n xs c)
  unfolding collect
  collect-Keeps n [] c = search keeps_rules
  collect-Keeps n ((q, t) ∷ xs) c =
      Keeps-bind _ _ (guard-Keeps q t c.first_seen)
        (λ g. Keeps-bind _ _ (Keeps-lift _) (λ c'. collect-Keeps (n + 1) xs c'))

  respond_cached-Keeps : (q : EreRequest M) (m : Mention) → Keeps tables_of (respond_cached S q m)
  unfolding respond_cached
  respond_cached-Keeps q m = search (keeps_rules, find_cluster_for-Keeps) depth 8

  respond_repeats-Keeps :
      (qs : List (EreRequest M)) (es : List (ℕ × Mention)) (rs : List (Option (EreResponse I)))
      → Keeps tables_of (respond_repeats S qs es rs)
  unfolding respond_repeats
  respond_repeats-Keeps qs [] rs = search keeps_rules
  respond_repeats-Keeps qs ((i, m) ∷ es) rs = Keeps-bind _ _ (Keeps-lift _) (λ q.
      Keeps-bind _ _ (respond_cached-Keeps q m)
        (λ r. Keeps-bind _ _ (Keeps-lift _) (λ rs'. respond_repeats-Keeps qs es rs')))

  settled-Keeps :
      (requests : List (EreRequest M)) (traces : List MentionTrace) (pending : List (ℕ × Mention))
      (repeats : List (ℕ × Mention)) (rs : List (Option (EreResponse I)))
      → pending ≡ []
      → Keeps tables_of (
          resolve_pending S requests traces pending rs >>= λ rs'.
          respond_repeats S requests repeats rs')
  unfolding resolve_pending
  settled-Keeps requests traces [] repeats rs e =
      Keeps-bind _ _ (Keeps-pure rs) (λ rs'. respond_repeats-Keeps requests repeats rs')
  settled-Keeps requests traces (p ∷ pending) repeats rs e = absurd (ground arith)

  -- A bite of requests of which the guards leave none to be resolved, since each is refused or answered
  -- from what is stored, changes no table.
  pub process_batch-reads :
      (requests : List (EreRequest M)) (traces : List MentionTrace) (w : World) {c : Collected I}
      → (collect S 0
          (zip requests (or_disabled requests traces))
          (no_responses (length requests))
          w).0
        ≡ ok c
      → c.pending ≡ []
      → (process_batch S requests traces w).1.tables ≡ w.tables
  unfolding process_batch
  process_batch-reads requests traces w {c} h idle =
      let used = or_disabled requests traces in
      let first = collect S 0 (zip requests used) (no_responses (length requests)) in
      ap (λ a. a.1.tables)
        (>>=-of_ok first
          (λ c. resolve_pending S requests used c.pending c.responses >>= λ rs.
            respond_repeats S requests c.repeats rs)
          w (ap (λ x. (x, (first w).1)) h))
      ∙ (settled-Keeps requests used c.pending c.repeats c.responses idle).at (first w).1
      ∙ (collect-Keeps 0 (zip requests used) (no_responses (length requests))).at w
