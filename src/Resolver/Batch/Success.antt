-- ===== src/Resolver/Batch/Success.antt =====
-- What a bite that returns has done (`EntityResolver.resolve_batch` with a unit of work).
use entity_resolution_engine.Base.{
  ℕ, List, [], ◌∷◌, zip, length, ◌≡◌, ◌≢◌, length-map, length-zip, ◌∙◌, ap, sym, subst, arith, ◌+◌,
}
use entity_resolution_engine.Model.Errors.{ok}
use entity_resolution_engine.Model.Mentions.{Mention}
use entity_resolution_engine.Model.Clusters.{ResolutionResult}
use entity_resolution_engine.Tracing.{
  MentionTrace, disabled, DeferredStage, TraceEvent, emit_all, stage_all,
}
use entity_resolution_engine.World.{World, Platform, ◌>>=◌, pure, tick}
use entity_resolution_engine.World.Steps.{>>=-eq-ok}
use entity_resolution_engine.World.Keeps.{outside}
use entity_resolution_engine.Config.{ResolverConfig}
use entity_resolution_engine.Repositories.Transactions.{within, duckdb, within-of_ok}
use entity_resolution_engine.Repositories.Mentions
use entity_resolution_engine.Resolver.Bite.{resolve_bite}
use entity_resolution_engine.Resolver.Bite.Outcome.{Outcome, resolve_bite-Outcome}
use entity_resolution_engine.Resolver.Bite.Quiet.{resolve_bite-Keeps}
use entity_resolution_engine.Resolver.Batch.{
  or_disabled, emit_stages, start_thread, maybe_start_training, resolve_batch,
}
use entity_resolution_engine.Resolver.Batch.Counted.{
  count-Keeps-outside, count-eq-ok, trainings_started,
}
use entity_resolution_engine.Resolver.Consistency.{IsConsistent, IsFresh}
use entity_resolution_engine.Resolver.Consistency.Kept
use entity_resolution_engine.Resolver.Visit.{start}
use entity_resolution_engine.Resolver.Visit.Founders.{visit_all-length}

after_commit :
    (P : Platform) (threshold stored size : ℕ) (stages : List DeferredStage)
    (used : List MentionTrace) (results : List ResolutionResult) (w : World)
    {answer : List ResolutionResult}
    → ((emit_stages stages used >>= λ _.
          maybe_start_training P threshold stored (stored + size) >>= λ _. pure results)
        w).0
      ≡ ok answer
    → (answer ≡ results)
      × (((emit_stages stages used >>= λ _.
              maybe_start_training P threshold stored (stored + size) >>= λ _. pure results)
            w).1.tables
          ≡ w.tables)
      × (((emit_stages stages used >>= λ _.
              maybe_start_training P threshold stored (stored + size) >>= λ _. pure results)
            w).1.log
          ≡ stage_all used TraceEvent.persisted (emit_all stages w.log))
      × (((emit_stages stages used >>= λ _.
              maybe_start_training P threshold stored (stored + size) >>= λ _. pure results)
            w).1.trainings
          ≡ w.trainings + trainings_started threshold stored size)
unfolding emit_stages maybe_start_training start_thread pure ◌>>=◌
after_commit P threshold stored size stages used results w h = ground arith

-- What a bite of at least one mention, that returned, has done.
pub record Success (P : Platform) (config : ResolverConfig) (ms : List Mention)
    (ts : List MentionTrace) (w : World) (results : List ResolutionResult) (after : World)
    : Type 0 where
  pub before : World
  pub stages : List DeferredStage
  pub outcome : Outcome P config ms (or_disabled ms ts) before results stages after.tables
  pub tables : before.tables ≡ w.tables
  pub log : after.log ≡ stage_all (or_disabled ms ts) TraceEvent.persisted (emit_all stages w.log)
  pub trainings :
      after.trainings
      ≡ w.trainings
        + trainings_started config.auto_train_threshold (length w.tables.mentions) (length ms)

-- From what each step is known to have done.
conclude :
    (P : Platform) (config : ResolverConfig) (ms : List Mention) (ts : List MentionTrace)
    (w w₁ w₂ v after : World) (n : ℕ) (results found : List ResolutionResult)
    (stages : List DeferredStage)
    → length w.tables.mentions ≡ n
    → w₁.tables ≡ w.tables
    → outside w₁ ≡ outside w
    → Outcome P config ms (or_disabled ms ts) (tick w₁) found stages v.tables
    → outside v ≡ outside (tick w₁)
    → w₂ ≡ tick v
    → results ≡ found
    → after.tables ≡ w₂.tables
    → after.log ≡ stage_all (or_disabled ms ts) TraceEvent.persisted (emit_all stages w₂.log)
    → after.trainings ≡ w₂.trainings + trainings_started config.auto_train_threshold n (length ms)
    → Success P config ms ts w results after
conclude P config ms ts w w₁ w₂ v after n results found stages e₁ e₂ e₃ o e₄ e₅ e₆ e₇ e₈ e₉ =
    record {
      before = tick w₁;
      stages = stages;
      outcome =
          subst (λ r. Outcome P config ms (or_disabled ms ts) (tick w₁) r stages after.tables)
            (sym e₆)
            (subst (λ t. Outcome P config ms (or_disabled ms ts) (tick w₁) found stages t)
              (sym (e₇ ∙ ap (λ (x : World). x.tables) e₅)) o);
      tables = e₂;
      log =
          e₈
          ∙ ap (λ l. stage_all (or_disabled ms ts) TraceEvent.persisted (emit_all stages l))
              (ap (λ (x : World). x.log) e₅ ∙ ap (λ x. x.0) (e₄ ∙ e₃));
      trainings = rw e₁ (
          e₉
          ∙ ap (λ x. x + trainings_started config.auto_train_threshold n (length ms))
              (ap (λ (x : World). x.trainings) e₅ ∙ ap (λ x. x.1) (e₄ ∙ e₃)));
    }

-- A bite of at least one mention that returns in a unit of work has run on the tables as they were: it
-- has stored its mentions, its kept links and its memberships, its results are those of the loop over
-- the mentions, the stages of the loop and then one `persisted` for each trace are recorded, and a
-- training is started just if the count of stored mentions has crossed the threshold.
pub resolve_batch-Success :
    (P : Platform) (config : ResolverConfig) (m : Mention) (ms : List Mention)
    (ts : List MentionTrace) (w : World) {results : List ResolutionResult}
    → (resolve_batch P config duckdb (m ∷ ms) ts w).0 ≡ ok results
    → Success P config (m ∷ ms) ts w results (resolve_batch P config duckdb (m ∷ ms) ts w).1
unfolding resolve_batch
resolve_batch-Success P config m ms ts w {results} h =
    let used = or_disabled (m ∷ ms) ts in
    let body = resolve_bite P config (m ∷ ms) used in
    let (n, counted, h₁, same₁) = >>=-eq-ok (Mentions.count P) _ w h in
    let w₁ = (Mentions.count P w).1 in
    let ((found, stages), ran, h₂, same₂) = >>=-eq-ok (within P duckdb body) _ w₁ h₁ in
    let w₂ = (within P duckdb body w₁).1 in
    let (returned, committed) = within-of_ok P body w₁ ran in
    let (stored, unread) = count-eq-ok P w counted in
    let (is, tables, log, trainings) =
      after_commit P config.auto_train_threshold n (length (m ∷ ms)) stages used found w₂ h₂ in
    conclude P config (m ∷ ms) ts w w₁ w₂ (body (tick w₁)).1
      (resolve_batch P config duckdb (m ∷ ms) ts w).1 n results found stages stored unread
      ((count-Keeps-outside P).at w)
      (resolve_bite-Outcome P config (m ∷ ms) used (tick w₁) returned)
      ((resolve_bite-Keeps P config (m ∷ ms) used).at (tick w₁)) committed is
      (ap (λ (x : World). x.tables) (same₁ ∙ same₂) ∙ tables)
      (ap (λ (x : World). x.log) (same₁ ∙ same₂) ∙ log)
      (ap (λ (x : World). x.trainings) (same₁ ∙ same₂) ∙ trainings)

pub or_disabled-length :
    {A : Type 0} (xs : List A) (ts : List MentionTrace)
    → (ts ≢ [] → length ts ≡ length xs)
    → length (or_disabled xs ts) ≡ length xs
unfolding or_disabled
or_disabled-length xs [] h = length-map (λ x. disabled) xs
or_disabled-length xs (t ∷ ts) h = h (λ e. ground arith)

-- In a unit of work of the database, with a trace for each mention or none, a bite of new mentions that
-- is resolved returns one result for each, and leaves every stored mention, if this was so before, with one
-- membership, in a cluster that its founder is a member of.
pub resolve_batch-IsConsistent :
    (P : Platform) (config : ResolverConfig) (ms : List Mention) (ts : List MentionTrace)
    (w : World) {results : List ResolutionResult}
    → (resolve_batch P config duckdb ms ts w).0 ≡ ok results
    → IsConsistent w.tables
    → IsFresh w.tables ms
    → (ts ≢ [] → length ts ≡ length ms)
    → IsConsistent (resolve_batch P config duckdb ms ts w).1.tables × (length results ≡ length ms)
resolve_batch-IsConsistent P config [] ts w h before fresh traced =
    unfold resolve_batch pure in (before, ground arith)
resolve_batch-IsConsistent P config (m ∷ ms) ts w h before fresh traced =
    let s = resolve_batch-Success P config m ms ts w h in
    let before' : IsConsistent s.before.tables = rw s.tables before in
    let fresh' : IsFresh s.before.tables (m ∷ ms) = rw s.tables fresh in
    (
      Kept.Outcome-IsConsistent P config s.outcome before' fresh',
      ap length s.outcome.is_results
          ∙ (Kept.loop P config s.outcome before' fresh').1
          ∙ length-zip (m ∷ ms) (or_disabled (m ∷ ms) ts) (or_disabled-length (m ∷ ms) ts traced),
    )

-- A bite that is resolved returns one result for each mention.
pub resolve_batch-length :
    (P : Platform) (config : ResolverConfig) (ms : List Mention) (ts : List MentionTrace)
    (w : World) {results : List ResolutionResult}
    → (resolve_batch P config duckdb ms ts w).0 ≡ ok results
    → (ts ≢ [] → length ts ≡ length ms)
    → length results ≡ length ms
resolve_batch-length P config [] ts w h traced = unfold resolve_batch pure in ground arith
resolve_batch-length P config (m ∷ ms) ts w h traced =
    let s = resolve_batch-Success P config m ms ts w h in
    omega (
      arith,
      ap length s.outcome.is_results,
      visit_all-length config s.outcome.grouped (zip (m ∷ ms) (or_disabled (m ∷ ms) ts)) (start _)
          s.outcome.visited,
      length-zip (m ∷ ms) (or_disabled (m ∷ ms) ts) (or_disabled-length (m ∷ ms) ts traced),
    )
