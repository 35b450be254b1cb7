-- ===== src/Settings.antt =====
-- Settings from the environment and from the configuration: the functions of
-- src/ere/entrypoints/bootstrap.py before the objects are built, and src/ere/adapters/duckdb_connection.py.
-- `int` and `float` of a text are Python's. An int that no double holds, which `isfinite` refuses, is not
-- represented.
pub mod Accepted
pub mod Stored
use Prim.Native.String
use entity_resolution_engine.Base.{
  ℕ, zero, suc, String, String-discrete, Option, none, some, List, [], ◌∷◌, Bool, true, false, ite,
  if◌then◌else◌,
}
use entity_resolution_engine.Base.Dict.{Dict, get, put}
use entity_resolution_engine.Model.Errors.{Exception, Result, ok, raise, value_error, ◌>>=◌}
use entity_resolution_engine.Model.Yaml.{Number, finite, negative, not_finite}

-- os.environ
abbrev pub Env : Type 0
Env = Dict String String

-- DuckDBStorage
pub data DuckDbStorage : Type 0 where
  disk memory : DuckDbStorage

pub record DuckDbSettings : Type 0 where
  pub storage : DuckDbStorage
  pub path : String
  pub memory_limit : Option String
  pub threads : Option Number
  pub temp_directory : Option String

-- DuckDBConfig
pub record DuckDbConfig : Type 0 where
  pub type : Option String
  pub path : Option String

-- BatchSettings: target_seconds by the bit pattern of the double
pub record BatchSettings : Type 0 where
  pub target_seconds : ℕ
  pub max_mentions : ℕ
  pub max_bytes : ℕ
  pub linger_ms : ℕ

abbrev pub lookup : String → Env → Option String
unfolding get
lookup = get String-discrete

abbrev pub or_default : {A : Type 0} → Option A → A → A
or_default none d = d
or_default (some a) d = a

-- a or b, where a text that is empty counts as none
unfoldable pub or_else : Option String → String → String
or_else none d = d
or_else (some s) d = ite (String-discrete s "") d s

abbrev pub invalid : {A : Type 0} → String → Result A
invalid message = raise (value_error "ValueError" message)

-- DuckDBStorage(env_value)
unfoldable pub storage_of : String → Result DuckDbStorage
storage_of s =
    ite (String-discrete s "disk") (ok disk)
      (ite (String-discrete s "memory") (ok memory) (invalid "Invalid ERE_DUCKDB_STORAGE"))

-- YAML_TYPE_TO_STORAGE[DuckDBType(config.type)]
unfoldable pub storage_of_type : String → Result DuckDbStorage
storage_of_type s =
    ite (String-discrete s "in-memory") (ok memory)
      (ite (String-discrete s "persistent") (ok disk) (invalid "Invalid duckdb type"))

-- _storage_from, by the variable and the type
unfoldable pub storage_by : Option String → Option String → Result DuckDbStorage
unfolding storage_of storage_of_type
storage_by (some value) type = storage_of value
storage_by none none = ok disk
storage_by none (some type) = storage_of_type type

unfoldable pub storage_from : DuckDbConfig → Env → Result DuckDbStorage
unfolding storage_by
storage_from config env = storage_by (lookup "ERE_DUCKDB_STORAGE" env) config.type

-- if temp_directory is None and storage == DuckDBStorage.DISK; in memory, None leaves DuckDB's default
unfoldable pub temp_directory_for : DuckDbStorage → String → Option String → Option String
temp_directory_for s path (some dir) = some dir
temp_directory_for disk path none = some (String.◌++◌ path ".tmp")
temp_directory_for memory path none = none

-- resolve_model_path, by whether the variable is set and not empty
unfoldable pub model_path_by : DuckDbStorage → String → String → Option String
model_path_by disk path value =
    ite (String-discrete value "") (some (String.◌++◌ path ".splink_model.json")) (some value)
model_path_by memory path value = ite (String-discrete value "") none (some value)

unfoldable pub resolve_model_path : DuckDbSettings → Env → Option String
unfolding model_path_by
resolve_model_path settings env =
    model_path_by settings.storage settings.path
      (or_default (lookup "ERE_SPLINK_MODEL_PATH" env) "")

-- The database that is opened, and its directory for temporary files.
pub record Opened : Type 0 where
  pub database : String
  pub temp_directory : Option String

-- open_duckdb, up to the call of `duckdb.connect`
unfoldable pub open_duckdb : DuckDbSettings → Opened
unfolding or_else
open_duckdb settings = elim settings.storage [
  | disk ↦ record {
    database = settings.path;
    temp_directory = some (or_else settings.temp_directory (String.◌++◌ settings.path ".tmp"));
  }
  | memory ↦ record { database = ":memory:"; temp_directory = settings.temp_directory }
]

-- value < minimum if minimum_allowed else value <= minimum, where the minimum is 0
unfoldable pub too_small : Bool → ℕ → Bool
too_small true n = false
too_small false zero = true
too_small false (suc n) = false

-- the end of the loop's body, by what has been parsed
unfoldable pub checked_value : Bool → Result Number → Result (Option ℕ)
unfolding too_small
checked_value minimum_allowed (raise e) = invalid "expected a finite number"
checked_value minimum_allowed (ok negative) = invalid "expected a finite number"
checked_value minimum_allowed (ok not_finite) = invalid "expected a finite number"
checked_value minimum_allowed (ok (finite n)) =
    if too_small minimum_allowed n then invalid "expected a finite number" else ok (some n)

-- the loop's body for one variable
unfoldable pub batch_value : (String → Result Number) → Bool → Option String → Result (Option ℕ)
unfolding checked_value
batch_value parse minimum_allowed none = ok none
batch_value parse minimum_allowed (some raw) = checked_value minimum_allowed (parse raw)

module _ (int float : String → Result Number) where
  -- _threads_from
  unfoldable pub threads_by : Option String → Result (Option Number)
  threads_by none = ok none
  threads_by (some value) = elim (int value) [
    | ok n ↦ ok (some n)
    | raise e ↦ invalid "Invalid ERE_DUCKDB_THREADS"
  ]

  -- resolve_duckdb_settings
  unfoldable pub resolve_duckdb_settings : DuckDbConfig → Env → Result DuckDbSettings
  unfolding storage_from or_else temp_directory_for threads_by
  resolve_duckdb_settings config env = do
    storage ← storage_from config env
    let path = or_else (lookup "DUCKDB_PATH" env) (or_else config.path "data/app.duckdb")
    threads ← threads_by (lookup "ERE_DUCKDB_THREADS" env)
    ok (record {
      storage = storage;
      path = path;
      memory_limit = lookup "ERE_DUCKDB_MEMORY_LIMIT" env;
      threads = threads;
      temp_directory = temp_directory_for storage path (lookup "ERE_DUCKDB_TEMP_DIR" env);
    })

  -- resolve_batch_settings: the loop goes through the four variables in this order
  unfoldable pub resolve_batch_settings : Env → Result BatchSettings
  unfolding batch_value
  resolve_batch_settings env = do
    target_seconds ← batch_value float false (lookup "ERE_BATCH_TARGET_SECONDS" env)
    max_mentions ← batch_value int false (lookup "ERE_BATCH_MAX_MENTIONS" env)
    max_bytes ← batch_value int false (lookup "ERE_BATCH_MAX_BYTES" env)
    linger_ms ← batch_value int true (lookup "ERE_BATCH_LINGER_MS" env)
    ok (record {
      target_seconds = or_default target_seconds 0x4000_0000_0000_0000;
      max_mentions = or_default max_mentions 500;
      max_bytes = or_default max_bytes 50_000_000;
      linger_ms = or_default linger_ms 250;
    })
