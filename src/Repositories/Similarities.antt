-- ===== src/Repositories/Similarities.antt =====
-- DuckDBSimilarityRepository (src/ere/adapters/duckdb_repositories.py).
use entity_resolution_engine.Base.{ℕ, List, [], ◌∷◌, ◌++◌, map, length}
use entity_resolution_engine.Model.Mentions.{MentionId}
use entity_resolution_engine.Model.Links.{MentionLink, LinkTable, Row, rows}
use entity_resolution_engine.World.{Platform, Exec, ◌>>=◌, pure, lift, select, insert}
use entity_resolution_engine.Repositories.Rows.{link_row, links_about, links_of}

module _ (P : Platform) where
  -- an empty table makes no call
  unfoldable pub save_rows : List Row → Exec (Unit {0})
  save_rows [] = pure tt
  save_rows (r ∷ rs) =
      insert P
        (λ t. record t { similarities = t.similarities ++ map (link_row P.as_real) (r ∷ rs) })

  unfoldable pub save_table : LinkTable → Exec (Unit {0})
  save_table t = save_rows (rows t)

  unfoldable pub save_all : List MentionLink → Exec (Unit {0})
  save_all links = save_rows (
      map (λ l. record { left = l.left_id.value; right = l.right_id.value; score = l.score }) links)

  unfoldable pub count : Exec ℕ
  count = select P (λ t. length t.similarities)

  unfoldable pub find_for : MentionId → Exec (List MentionLink)
  find_for m = do found ← select P (λ t. links_about m t.similarities); lift (links_of found)
