-- ===== src/Tests/Data.antt =====
-- The data of the tests: two mentions that match, a database that does not fail and one that does.
use entity_resolution_engine.Base.{
  String, none, some, List, [], ◌∷◌, ite, ℕ_discrete, true, false, ◌≡◌, ◌≢◌, arith,
}
use entity_resolution_engine.Model.Errors.{Exception}
use entity_resolution_engine.Model.Mentions.{
  MentionId, ClusterId, Mention, MentionId-discrete, ClusterId-discrete,
}
use entity_resolution_engine.Model.Links.{LinkTable}
use entity_resolution_engine.Model.Clusters.{ResolutionResult}
use entity_resolution_engine.World.{World, Tables, Platform}
use entity_resolution_engine.Config.{ResolverConfig}

abbrev pub config : ResolverConfig
config = record { threshold = 50; top_n = 2; entity_fields = "name" ∷ []; auto_train_threshold = 2 }

abbrev pub mention_id : String → MentionId
mention_id s = record { value = s }

abbrev pub cluster_id : String → ClusterId
cluster_id s = record { value = s }

abbrev pub mention : String → String → Mention
mention id name = record { id = mention_id id; attributes = ("name", some name) ∷ [] }

abbrev pub acme : Mention
acme = mention "m1" "Acme"

abbrev pub acme_ltd : Mention
acme_ltd = mention "m2" "Acme Ltd"

abbrev pub bite : List Mention
bite = acme ∷ acme_ltd ∷ []

abbrev pub no_table : Tables
no_table = record { mentions = []; similarities = []; clusters = [] }

abbrev pub new_world : World
new_world = record { tables = no_table; calls = 0; log = []; trainings = 0 }

-- the second mention is found to match the first, and the other way round
abbrev pub table : LinkTable
table = record { left_ids = "m1" ∷ "m2" ∷ []; right_ids = "m2" ∷ "m1" ∷ []; scores = 90 ∷ 90 ∷ [] }

abbrev pub platform : Platform
platform = record {
  fault = λ n. none;
  find_matches_batch = λ n stored ms. table;
  start_fault = λ n. none;
  as_real = λ s. s;
}

-- the third call of the database fails
abbrev pub broken : Platform
broken = record {
  fault = λ n. ite (ℕ_discrete n 2) (some (Exception.other "IOException" "disk full")) none;
  find_matches_batch = λ n stored ms. table;
  start_fault = λ n. none;
  as_real = λ s. s;
}

-- no thread can be started
abbrev pub unstartable : Platform
unstartable = record platform {
  start_fault = λ n. some (Exception.other "RuntimeError" "can't start new thread");
}

abbrev pub results : List ResolutionResult
results =
    record { top = record { cluster_id = cluster_id "m1"; score = 0 }; others = [] }
    ∷ record { top = record { cluster_id = cluster_id "m1"; score = 90 }; others = [] }
    ∷ []

pub different : (a b : MentionId) → ite (MentionId-discrete a b) true false ≡ false → a ≢ b
different a b h = ground arith

pub different_cluster : (a b : ClusterId) → ite (ClusterId-discrete a b) true false ≡ false → a ≢ b
different_cluster a b h = ground arith
