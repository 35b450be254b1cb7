-- ===== src/Repositories/Transactions.antt =====
-- The unit of work (src/ere/adapters/duckdb_unit_of_work.py).
use entity_resolution_engine.Base.{none, some, ◌≡◌, arith}
use entity_resolution_engine.Model.Errors.{Exception, Result, ok, raise}
use entity_resolution_engine.World.Keeps.{Keeps, outside}
use entity_resolution_engine.World.{Tables, World, Platform, Exec, ◌>>=◌, call, select, tick}

-- How the resolver bounds a transaction: `DuckDBUnitOfWork`, or `nullcontext` if it has none.
pub data UnitOfWork : Type 0 where
  duckdb null_context : UnitOfWork

module _ (P : Platform) where
  -- COMMIT; if it fails, the tables are as they were at BEGIN
  commit : {A : Type 0} → Tables → A → Exec A
  commit saved a w = elim (P.fault w.calls) [
    | some e ↦ (raise e, record (tick w) { tables = saved })
    | none ↦ (ok a, tick w)
  ]

  -- the end of the block: COMMIT if it returned, ROLLBACK and raise again if it raised
  finish : {A : Type 0} → Tables → Result A → Exec A
  unfolding commit
  finish saved (ok a) w = commit saved a w
  finish saved (raise e) w = (raise e, record (tick w) { tables = saved })

  transaction : {A : Type 0} → Exec A → Tables → Exec A
  unfolding finish
  transaction body saved w = finish saved (body w).0 (body w).1

  -- with self._unit_of_work(): body
  unfoldable pub within : {A : Type 0} → UnitOfWork → Exec A → Exec A
  unfolding transaction ◌>>=◌ select call
  within null_context body = body
  within duckdb body = do saved ← select P (λ t. t); transaction body saved

  -- A transaction that raises leaves the tables as they were, whatever its body did to them.
  pub within-tables_of_raise :
      {A : Type 0} (body : Exec A) (w : World) {e : Exception}
      → (within duckdb body w).0 ≡ raise e
      → (within duckdb body w).1.tables ≡ w.tables
  unfolding within
  within-tables_of_raise body w h = ground arith

  -- A transaction that returns has run its body, with nothing rolled back.
  pub within-of_ok :
      {A : Type 0} (body : Exec A) (w : World) {a : A}
      → (within duckdb body w).0 ≡ ok a
      → ((body (tick w)).0 ≡ ok a) × ((within duckdb body w).1 ≡ tick (body (tick w)).1)
  unfolding within
  within-of_ok body w h = ground arith

  pub Keeps-outside-within :
      {A : Type 0} (unit_of_work : UnitOfWork) (body : Exec A)
      → Keeps outside body
      → Keeps outside (within unit_of_work body)
  unfolding within
  Keeps-outside-within null_context body k = k
  Keeps-outside-within duckdb body k = record { at = λ w. ground (arith, k.at (tick w)) }
