-- ===== src/World.antt =====
-- The state that requests share, and actions on it that may raise.
-- What runs outside the program is a `Platform`: every call of the database or of the linker may
-- fail, and answers as it likes at its turn, so that a model trained in the background is covered.
pub mod Keeps
pub mod Steps
pub mod Yields
use entity_resolution_engine.Base.{ℕ, ◌+◌, String, Option, none, some, List}
use entity_resolution_engine.Model.Errors.{Exception, Result, ok, raise}
use entity_resolution_engine.Model.Mentions.{Mention}
use entity_resolution_engine.Model.Links.{Score, LinkTable}
use entity_resolution_engine.Model.Clusters.{ClusterMembership}
use entity_resolution_engine.Tracing.{Stage, MentionTrace, TraceEvent, Fields, stage}

-- A row of `mentions`: the id and the entity fields, in the order of the configuration. The
-- normalised copies, which SQL computes for the linker alone, are left out.
pub record MentionRow : Type 0 where
  pub mention_id : Option String
  pub values : List (Option String)

-- A row of `similarities`; `match_probability` is a REAL.
pub record LinkRow : Type 0 where
  pub left_id : String
  pub right_id : String
  pub match_probability : Score

-- The tables of the database, rows in the order of their insertion.
pub record Tables : Type 0 where
  pub mentions : List MentionRow
  pub similarities : List LinkRow
  pub clusters : List ClusterMembership

pub record World : Type 0 where
  pub tables : Tables
  -- calls of the database and the linker so far
  pub calls : ℕ
  -- stages that traces recorded
  pub log : List Stage
  -- background training threads started
  pub trainings : ℕ

pub record Platform : Type 0 where
  -- why the n-th call raises, if it does
  pub fault : ℕ → Option Exception
  -- what the linker finds at the n-th call: the stored mentions, the new ones
  pub find_matches_batch : ℕ → List MentionRow → List Mention → LinkTable
  -- why starting a thread raises, after so many calls, if it does
  pub start_fault : ℕ → Option Exception
  -- a double stored as a REAL and read back
  pub as_real : Score → Score

abbrev pub Exec : Type 0 → Type 0
Exec A = World → Result A × World

continue : {A B : Type 0} → Result A → (A → Exec B) → Exec B
continue (ok a) f w = f a w
continue (raise e) f w = (raise e, w)

infixl 5 ◌>>=◌ ◌>>◌
unfoldable pub ◌>>=◌ : {A B : Type 0} → Exec A → (A → Exec B) → Exec B
unfolding continue
◌>>=◌ m f w = continue (m w).0 f (m w).1

abbrev pub ◌>>◌ : {A B : Type 0} → Exec A → Exec B → Exec B
m >> n = m >>= λ _. n

unfoldable pub pure : {A : Type 0} → A → Exec A
pure a w = (ok a, w)

unfoldable pub throw : {A : Type 0} → Exception → Exec A
throw e w = (raise e, w)

unfoldable pub lift : {A : Type 0} → Result A → Exec A
lift r w = (r, w)

-- try: m; except Exception as exc
unfoldable pub attempt : {A : Type 0} → Exec A → Exec (Result A)
attempt m w = (ok (m w).0, (m w).1)

-- trace.stage(event, **fields)
unfoldable pub record_stage : MentionTrace → TraceEvent → Fields → Exec (Unit {0})
unfolding stage
record_stage trace e fields w = (ok tt, record w { log = stage trace e fields w.log })

abbrev pub tick : World → World
tick w = record w { calls = w.calls + 1 }

module _ (P : Platform) where
  -- one call that the platform answers
  unfoldable pub call : {A : Type 0} → (World → A) → (World → Tables) → Exec A
  call answer effect w = elim (P.fault w.calls) [
    | some e ↦ (raise e, tick w)
    | none ↦ (ok (answer w), record (tick w) { tables = effect w })
  ]

  -- con.execute of a SELECT
  unfoldable pub select : {A : Type 0} → (Tables → A) → Exec A
  select f = call (λ w. f w.tables) (λ w. w.tables)

  -- con.execute of an INSERT
  unfoldable pub insert : (Tables → Tables) → Exec (Unit {0})
  insert f = call (λ w. tt) (λ w. f w.tables)
