-- ===== src/Repositories/Mentions.antt =====
-- DuckDBMentionRepository (src/ere/adapters/duckdb_repositories.py).
use entity_resolution_engine.Base.{ℕ, String, Option, List, [], ◌∷◌, ◌++◌, length}
use entity_resolution_engine.Model.Mentions.{MentionId, Mention}
use entity_resolution_engine.World.{Platform, Exec, ◌>>=◌, lift, select, insert}
use entity_resolution_engine.Repositories.Rows.{mention_row, rows_of, mentions_of, first_mention}

module _ (P : Platform) (fields : List String) where
  unfoldable pub save : Mention → Exec (Unit {0})
  save m = insert P (λ t. record t { mentions = t.mentions ++ mention_row fields m ∷ [] })

  unfoldable pub load_all : Exec (List Mention)
  load_all = do found ← select P (λ t. t.mentions); lift (mentions_of fields found)

  unfoldable pub find_by_id : MentionId → Exec (Option Mention)
  find_by_id m = do found ← select P (λ t. rows_of m t.mentions); lift (first_mention fields found)

unfoldable pub count : Platform → Exec ℕ
count P = select P (λ t. length t.mentions)
