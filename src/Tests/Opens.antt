-- ===== src/Tests/Opens.antt =====
-- Settings of an environment, a database that they open, and the results applied to them.
use entity_resolution_engine.Base.{
  String, String-discrete, none, some, List, [], ◌∷◌, true, false, contains, ◌≡◌, ◌≢◌, refl, All,
  OneOf, arith,
}
use entity_resolution_engine.Base.Dict.{get}
use entity_resolution_engine.Model.Errors.{Result, ok}
use entity_resolution_engine.Model.Yaml.{Number, finite}
use entity_resolution_engine.Settings.{
  Env, BatchSettings, DuckDbConfig, DuckDbSettings, memory, batch_value, checked_value, too_small,
  resolve_batch_settings,
}
use entity_resolution_engine.Settings.Accepted.{
  IsBatchSettings, resolve_batch_settings-IsBatchSettings,
}
use entity_resolution_engine.Schema.{
  Schema, init_schema, refuse_outdated_mentions, normalised_columns, missing, present,
  create_tables, create_mentions, update_indexes, create_index, drop_index,
}
use entity_resolution_engine.Schema.Initialised.{init_schema-columns}

-- every text is read as seven
abbrev int : String → Result Number
int s = ok (finite 7)

abbrev env : Env
env = ("ERE_BATCH_MAX_MENTIONS", "7") ∷ []

abbrev batch : BatchSettings
batch = record {
  target_seconds = 0x4000_0000_0000_0000;
  max_mentions = 7;
  max_bytes = 50_000_000;
  linger_ms = 250;
}

batch_read : resolve_batch_settings int int env ≡ ok batch
unfolding resolve_batch_settings batch_value checked_value too_small get String-discrete
batch_read = refl

resolve_batch_settings-IsBatchSettings_example : IsBatchSettings int int env batch
resolve_batch_settings-IsBatchSettings_example =
    resolve_batch_settings-IsBatchSettings int int env batch_read

abbrev in_memory : DuckDbConfig
in_memory = record { type = some "in-memory"; path = none }

abbrev database : DuckDbSettings
database = record {
  storage = memory;
  path = "data/app.duckdb";
  memory_limit = none;
  threads = none;
  temp_directory = none;
}

abbrev fields : List String
fields = "legal_name" ∷ "country_code" ∷ []

abbrev empty_schema : Schema
empty_schema = record { mentions = none; similarities = false; clusters = false; indexes = [] }

abbrev full_schema : Schema
full_schema = record {
  mentions = some ("mention_id" ∷ "legal_name" ∷ "country_code" ∷ "legal_name_norm" ∷ []);
  similarities = true;
  clusters = true;
  indexes = "idx_mentions_mention_id" ∷ "idx_clusters_mention_id" ∷ [];
}

created : init_schema empty_schema fields ("legal_name" ∷ []) ≡ ok full_schema
unfolding init_schema refuse_outdated_mentions normalised_columns missing present create_tables
    create_mentions update_indexes create_index drop_index contains String-discrete
created = refl

no_table : empty_schema.mentions ≢ some []
no_table h = ground arith

init_schema-columns_example :
    ((cs : List String) × (full_schema.mentions ≡ some cs)
      × All (λ c. OneOf c cs) (normalised_columns (present ("legal_name" ∷ []) fields)))
    × ((cs : List String)
        → empty_schema.mentions ≡ some cs
        → full_schema.mentions ≡ empty_schema.mentions)
    × ((s'' : Schema) × (init_schema full_schema fields ("legal_name" ∷ []) ≡ ok s'')
        × (s''.mentions ≡ full_schema.mentions))
init_schema-columns_example =
    init_schema-columns empty_schema fields ("legal_name" ∷ []) no_table created
