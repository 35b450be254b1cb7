-- ===== src/Schema.antt =====
-- The tables of the database: src/ere/adapters/duckdb_schema.py. Of `mentions` the columns are kept; the
-- other two tables have no columns that are configured.
pub mod Initialised
use Prim.Native.String
use entity_resolution_engine.Base.{
  String, Option, none, some, List, [], ◌∷◌, ◌++◌, map, Bool, true, false, not, ◌&&◌, if◌then◌else◌,
  contains,
}
use entity_resolution_engine.Model.Errors.{Exception, Result, ok, raise, ◌>>=◌, ◌>>◌}

-- The columns of `mentions`, if it exists, the other tables that do, and the indexes.
pub record Schema : Type 0 where
  pub mentions : Option (List String)
  pub similarities : Bool
  pub clusters : Bool
  pub indexes : List String

-- normalised_columns
unfoldable pub normalised_columns : List String → List String
normalised_columns fields = map (λ f. String.◌++◌ f "_norm") fields

-- _present
unfoldable pub present : List String → List String → List String
unfolding contains
present [] entity_fields = []
present (f ∷ fs) entity_fields =
    let rest = present fs entity_fields in if contains f entity_fields then f ∷ rest else rest

-- the columns of `_refuse_outdated_mentions` that are not there
unfoldable pub missing : List String → List String → List String
unfolding contains
missing [] existing = []
missing (c ∷ cs) existing =
    let rest = missing cs existing in if contains c existing then rest else c ∷ rest

abbrev pub is_empty : List String → Bool
is_empty [] = true
is_empty (x ∷ xs) = false

-- a table that is not there has no columns
abbrev pub columns_of : Option (List String) → List String
columns_of none = []
columns_of (some cs) = cs

-- _refuse_outdated_mentions
unfoldable pub refuse_outdated_mentions : Schema → List String → Result (Unit {0})
unfolding normalised_columns missing
refuse_outdated_mentions s normalised =
    let existing = columns_of s.mentions in
    if not (is_empty existing) && not (is_empty (missing (normalised_columns normalised) existing))
    then raise (Exception.other "OutdatedSchemaError" "The mentions table lacks columns")
    else ok tt

-- CREATE TABLE IF NOT EXISTS mentions
unfoldable pub create_mentions : List String → Option (List String) → Option (List String)
create_mentions columns none = some columns
create_mentions columns (some cs) = some cs

-- CREATE INDEX IF NOT EXISTS
unfoldable pub create_index : String → List String → List String
unfolding contains
create_index name names = if contains name names then names else names ++ name ∷ []

-- DROP INDEX IF EXISTS
unfoldable pub drop_index : String → List String → List String
unfolding contains
drop_index name [] = []
drop_index name (n ∷ ns) =
    let rest = drop_index name ns in if contains name (n ∷ []) then rest else n ∷ rest

-- the loops over LOOKUP_INDEXES and RETIRED_INDEXES
unfoldable pub update_indexes : List String → List String
unfolding create_index drop_index
update_indexes names = drop_index "idx_similarities_mention_id_r" (
    drop_index "idx_similarities_mention_id_l"
      (create_index "idx_clusters_mention_id" (create_index "idx_mentions_mention_id" names)))

-- the statements behind `_refuse_outdated_mentions`
unfoldable pub create_tables : Schema → List String → Schema
unfolding create_mentions update_indexes
create_tables s columns = record {
  mentions = create_mentions ("mention_id" ∷ columns) s.mentions;
  similarities = true;
  clusters = true;
  indexes = update_indexes s.indexes;
}

-- init_schema
unfoldable pub init_schema : Schema → List String → List String → Result Schema
unfolding present refuse_outdated_mentions normalised_columns create_tables
init_schema s entity_fields normalised_fields = do
  let stored_normalised = present normalised_fields entity_fields
  refuse_outdated_mentions s stored_normalised
  ok (create_tables s (entity_fields ++ normalised_columns stored_normalised))
