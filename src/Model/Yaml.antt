-- ===== src/Model/Yaml.antt =====
-- What a YAML file is read as (`yaml.safe_load`), for the parts of the configuration that are checked.
use entity_resolution_engine.Base.{ℕ, String, List, [], ◌∷◌, Bool}
use entity_resolution_engine.Base.Dict.{Dict}

-- A number as a double: a non-negative finite one by its bit pattern, as a score is; a negative one by
-- its sign alone.
pub data Number : Type 0 where
  finite : ℕ → Number
  negative not_finite : Number

mutual
  pub data Yaml : Type 0 where
    null : Yaml
    boolean : Bool → Yaml
    number : Number → Yaml
    text : String → Yaml
    sequence : Items → Yaml
    mapping : Entries → Yaml

  pub data Items : Type 0 where
    no_item : Items
    item : Yaml → Items → Items

  pub data Entries : Type 0 where
    no_entry : Entries
    entry : String → Yaml → Entries → Entries

abbrev pub items : Items → List Yaml
items no_item = []
items (item y ys) = y ∷ items ys

abbrev pub entries : Entries → Dict String Yaml
entries no_entry = []
entries (entry k y ys) = (k, y) ∷ entries ys

-- the sequence of some values
abbrev pub sequence_of : List Yaml → Items
sequence_of [] = no_item
sequence_of (y ∷ ys) = item y (sequence_of ys)
