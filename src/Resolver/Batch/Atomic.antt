-- ===== src/Resolver/Batch/Atomic.antt =====
-- A bite is resolved all or nothing.
use entity_resolution_engine.Base.{
  ℕ, ◌+◌, some, List, [], ◌∷◌, ◌≡◌, ◌⊎◌, ◌∙◌, ap, sym, subst, inl, inr, arith, length,
}
use entity_resolution_engine.Model.Errors.{Exception, raise}
use entity_resolution_engine.Model.Mentions.{Mention}
use entity_resolution_engine.Model.Clusters.{ResolutionResult}
use entity_resolution_engine.Tracing.{MentionTrace, DeferredStage, TraceEvent, emit_all, stage_all}
use entity_resolution_engine.World.{World, Platform, ◌>>=◌, pure, tick}
use entity_resolution_engine.World.Keeps.{outside}
use entity_resolution_engine.World.Steps.{>>=-eq-raise}
use entity_resolution_engine.Config.{ResolverConfig}
use entity_resolution_engine.Repositories.Transactions.{
  within, duckdb, within-of_ok, within-tables_of_raise, Keeps-outside-within,
}
use entity_resolution_engine.Repositories.Mentions
use entity_resolution_engine.Resolver.Bite.{resolve_bite}
use entity_resolution_engine.Resolver.Bite.Outcome.{Outcome, resolve_bite-Outcome}
use entity_resolution_engine.Resolver.Batch.Counted.{
  count-Keeps-tables, count-Keeps-outside, count-eq-ok, trainings_started,
}
use entity_resolution_engine.Resolver.Bite.Quiet.{resolve_bite-Keeps}
use entity_resolution_engine.Resolver.Batch.{
  or_disabled, emit_stages, start_thread, maybe_start_training, resolve_batch,
}

-- A bite whose transaction is committed and that raises all the same: all of it is stored, its stages are
-- recorded, and the thread that was to train did not start.
pub record Unstarted (P : Platform) (config : ResolverConfig) (ms : List Mention)
    (ts : List MentionTrace) (w : World) (e : Exception) (after : World) : Type 0 where
  pub before : World
  pub results : List ResolutionResult
  pub stages : List DeferredStage
  pub outcome : Outcome P config ms (or_disabled ms ts) before results stages after.tables
  pub tables : before.tables ≡ w.tables
  pub log : after.log ≡ stage_all (or_disabled ms ts) TraceEvent.persisted (emit_all stages w.log)
  pub trainings : after.trainings ≡ w.trainings
  pub due : trainings_started config.auto_train_threshold (length w.tables.mentions) (length ms) ≡ 1
  pub failed : (n : ℕ) × (P.start_fault n ≡ some e)

-- What follows the transaction raises only where the thread does not start.
after_commit_raised :
    (P : Platform) (threshold stored size : ℕ) (stages : List DeferredStage)
    (used : List MentionTrace) (results : List ResolutionResult) (w : World) {e : Exception}
    → ((emit_stages stages used >>= λ _.
          maybe_start_training P threshold stored (stored + size) >>= λ _. pure results)
        w).0
      ≡ raise e
    → (((emit_stages stages used >>= λ _.
            maybe_start_training P threshold stored (stored + size) >>= λ _. pure results)
          w).1
        ≡ record w { log = stage_all used TraceEvent.persisted (emit_all stages w.log) })
      × (trainings_started threshold stored size ≡ 1)
      × (P.start_fault w.calls ≡ some e)
unfolding emit_stages maybe_start_training start_thread pure ◌>>=◌
after_commit_raised P threshold stored size stages used results w h = ground arith

-- From what each step is known to have done.
conclude-Unstarted :
    (P : Platform) (config : ResolverConfig) (ms : List Mention) (ts : List MentionTrace)
    (w w₁ w₂ v after : World) (n : ℕ) (found : List ResolutionResult) (stages : List DeferredStage)
    {e : Exception}
    → length w.tables.mentions ≡ n
    → w₁.tables ≡ w.tables
    → outside w₁ ≡ outside w
    → Outcome P config ms (or_disabled ms ts) (tick w₁) found stages v.tables
    → outside v ≡ outside (tick w₁)
    → w₂ ≡ tick v
    → after ≡ record w₂ {
      log = stage_all (or_disabled ms ts) TraceEvent.persisted (emit_all stages w₂.log);
    }
    → trainings_started config.auto_train_threshold n (length ms) ≡ 1
    → P.start_fault w₂.calls ≡ some e
    → Unstarted P config ms ts w e after
conclude-Unstarted P config ms ts w w₁ w₂ v after n found stages e₁ e₂ e₃ o e₄ e₅ e₆ due e₇ =
    record {
      before = tick w₁;
      results = found;
      stages = stages;
      outcome =
          subst (λ t. Outcome P config ms (or_disabled ms ts) (tick w₁) found stages t)
            (sym (
              ap (λ (x : World). x.tables)
                (e₆
                  ∙ ap
                      (λ (x : World). record x {
                        log =
                            stage_all (or_disabled ms ts) TraceEvent.persisted
                              (emit_all stages x.log);
                      })
                      e₅)))
            o;
      tables = e₂;
      log =
          ap (λ (x : World). x.log) e₆
          ∙ ap (λ l. stage_all (or_disabled ms ts) TraceEvent.persisted (emit_all stages l))
              (ap (λ (x : World). x.log) e₅ ∙ ap (λ x. x.0) (e₄ ∙ e₃));
      trainings =
          ap (λ (x : World). x.trainings) e₆
          ∙ ap (λ (x : World). x.trainings) e₅
          ∙ ap (λ x. x.1) (e₄ ∙ e₃);
      due = rw e₁ due;
      failed = (w₂.calls, e₇);
    }

-- In a unit of work of the database, a bite that raises, whatever failed on the way - the database, the
-- linker, a value that is refused -, leaves the tables as they were, records no stage and starts no
-- training; unless the bite crosses the threshold and the thread that is to train does not start: then
-- the exception is that of the start, all of the bite is stored, and its stages are recorded.
pub resolve_batch-atomic :
    (P : Platform) (config : ResolverConfig) (ms : List Mention) (ts : List MentionTrace)
    (w : World) {e : Exception}
    → (resolve_batch P config duckdb ms ts w).0 ≡ raise e
    → (((resolve_batch P config duckdb ms ts w).1.tables ≡ w.tables)
        × (outside (resolve_batch P config duckdb ms ts w).1 ≡ outside w))
      ⊎ Unstarted P config ms ts w e (resolve_batch P config duckdb ms ts w).1
unfolding resolve_batch pure
resolve_batch-atomic P config [] ts w h = absurd (ground arith)
resolve_batch-atomic P config (m ∷ ms) ts w {e} h =
    let used = or_disabled (m ∷ ms) ts in
    let body = resolve_bite P config (m ∷ ms) used in
    let v = (Mentions.count P w).1 in
    elim (>>=-eq-raise (Mentions.count P) _ w h) [
      | inl (failed, same) ↦ inl (
        ap (λ (v : World). v.tables) same ∙ (count-Keeps-tables P).at w,
        ap outside same ∙ (count-Keeps-outside P).at w,
      )
      | inr (before, counted, failed, same) ↦
          elim (>>=-eq-raise (within P duckdb body) _ v failed) [
            | inl (failed', same') ↦ inl (
              ap (λ (v : World). v.tables) (same ∙ same')
                  ∙ within-tables_of_raise P body v failed'
                  ∙ (count-Keeps-tables P).at w,
              ap outside (same ∙ same')
                  ∙ (Keeps-outside-within P duckdb body
                        (resolve_bite-Keeps P config (m ∷ ms) (or_disabled (m ∷ ms) ts))).at
                      v
                  ∙ (count-Keeps-outside P).at w,
            )
            | inr ((results, stages), done, failed', same') ↦
                let (returned, committed) = within-of_ok P body v done in
                let (stored, unread) = count-eq-ok P w counted in
                let (is, due, unstarted) =
                  after_commit_raised P config.auto_train_threshold before (length (m ∷ ms)) stages
                    used results (within P duckdb body v).1 failed' in
                inr (
                  conclude-Unstarted P config (m ∷ ms) ts w v (within P duckdb body v).1
                    (body (tick v)).1 (resolve_batch P config duckdb (m ∷ ms) ts w).1 before results
                    stages stored unread ((count-Keeps-outside P).at w)
                    (resolve_bite-Outcome P config (m ∷ ms) used (tick v) returned)
                    ((resolve_bite-Keeps P config (m ∷ ms) used).at (tick v)) committed
                    (same ∙ same' ∙ is) due unstarted)
          ]
    ]
