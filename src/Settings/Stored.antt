-- ===== src/Settings/Stored.antt =====
-- Where the data of a configuration are kept: `resolve_duckdb_settings` and `resolve_model_path` of
-- src/ere/entrypoints/bootstrap.py, and `open_duckdb` of src/ere/adapters/duckdb_connection.py.
use Prim.Native.String
use entity_resolution_engine.Base.{String, Option, none, some, ◌≡◌, ◌≢◌}
use entity_resolution_engine.Model.Yaml.{Number}
use entity_resolution_engine.Settings.{
  Env, DuckDbStorage, disk, memory, DuckDbSettings, lookup, temp_directory_for, resolve_model_path,
  open_duckdb,
}

-- Where the data of the settings are.
pub record IsStored (env : Env) (s : DuckDbSettings) : Type 0 where
  pub path : s.path ≢ ""
  pub on_disk :
      s.storage ≡ disk
      → ((open_duckdb s).database ≡ s.path)
        × ((dir : String) × ((open_duckdb s).temp_directory ≡ some dir))
        × ((file : String) × (resolve_model_path s env ≡ some file))
  pub in_memory :
      s.storage ≡ memory
      → lookup "ERE_DUCKDB_TEMP_DIR" env ≡ none
      → lookup "ERE_SPLINK_MODEL_PATH" env ≡ none
      → ((open_duckdb s).database ≡ ":memory:")
        × ((open_duckdb s).temp_directory ≡ none)
        × (resolve_model_path s env ≡ none)

module _ (env : Env) (path : String) (limit : Option String) (threads : Option Number) where
  -- the settings that are built for a storage
  abbrev settings : DuckDbStorage → DuckDbSettings
  settings storage = record {
    storage = storage;
    path = path;
    memory_limit = limit;
    threads = threads;
    temp_directory = temp_directory_for storage path (lookup "ERE_DUCKDB_TEMP_DIR" env);
  }
