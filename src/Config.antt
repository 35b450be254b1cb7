-- ===== src/Config.antt =====
-- The resolver's configuration (src/ere/services/resolver_config.py): the values that the
-- algorithm reads. A negative `top_n` or `auto_train_threshold` is not represented.
use entity_resolution_engine.Base.{ℕ, String, List}
use entity_resolution_engine.Model.Links.{Score}

pub record ResolverConfig : Type 0 where
  pub threshold : Score
  pub top_n : ℕ
  pub entity_fields : List String
  pub auto_train_threshold : ℕ
