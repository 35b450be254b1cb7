-- ===== src/Rdf/Mappings.antt =====
-- Reading the mapping file: `load_entity_mappings` of src/ere/adapters/rdf_mapper.py, for a file that has
-- the expected parts. Namespaces and their terms are rdflib's.
use Prim.Native.String
use text.Mathlib.Text.{find?}
use entity_resolution_engine.Base.{
  ℕ, zero, suc, String, String-discrete, Option, none, some, List, [], ◌∷◌,
}
use entity_resolution_engine.Base.Dict.{Dict, get, put}
use entity_resolution_engine.Model.Errors.{Result, ok, raise, value_error, ◌>>=◌}
use entity_resolution_engine.Rdf.{Rdf, EntityTypeConfig}

-- mapping["rdf_type"] and mapping["fields"]
pub record TypeMapping : Type 0 where
  pub rdf_type : String
  pub fields : Dict String (Option String)

-- config["namespaces"] and config["entity_types"]
pub record MappingFile : Type 0 where
  pub namespaces : Dict String String
  pub entity_types : Dict String TypeMapping

-- the part of a text behind a position
abbrev pub behind : ℕ → String → String
behind i s = String.slice s i (String.len s)

-- path_str.split("/"), on fuel: one piece more than there are bytes
unfoldable pub split_path : ℕ → String → List String
split_path zero s = s ∷ []
split_path (suc fuel) s = elim (find? s "/") [
  | none ↦ s ∷ []
  | some i ↦ String.slice s 0 i ∷ split_path fuel (behind (suc i) s)
]

module _ (R : Rdf) (uri_ref : String → R.Node) (term : String → String → R.Node) where
  -- a namespace's term, if the prefix is known
  unfoldable pub term_of : Option String → String → Result R.Node
  term_of none local_name = raise (value_error "ValueError" "Unknown namespace prefix")
  term_of (some namespace) local_name = ok (term namespace local_name)

  -- _resolve_prefixed_uri
  unfoldable pub resolve_prefixed_uri : String → Dict String String → Result R.Node
  unfolding term_of get
  resolve_prefixed_uri prefixed registry = elim (find? prefixed ":") [
    | none ↦ ok (uri_ref prefixed)
    | some i ↦
        term_of (get String-discrete (String.slice prefixed 0 i) registry) (behind (suc i) prefixed)
  ]

  -- [_resolve_prefixed_uri(step, namespace_registry) for step in steps]
  unfoldable pub resolve_steps : List String → Dict String String → Result (List R.Node)
  unfolding resolve_prefixed_uri
  resolve_steps [] registry = ok []
  resolve_steps (step ∷ steps) registry = do
    n ← resolve_prefixed_uri step registry
    ns ← resolve_steps steps registry
    ok (n ∷ ns)

  -- the path of one field
  unfoldable pub resolve_path : Option String → Dict String String → Result (Option (List R.Node))
  unfolding split_path resolve_steps
  resolve_path none registry = ok none
  resolve_path (some path) registry = do
    steps ← resolve_steps (split_path (suc (String.len path)) path) registry
    ok (some steps)

  -- for field_name, path_str in mapping["fields"].items()
  unfoldable pub load_fields :
      Dict String String
      → Dict String (Option String)
      → Dict String (Option (List R.Node))
      → Result (Dict String (Option (List R.Node)))
  unfolding resolve_path put
  load_fields registry [] acc = ok acc
  load_fields registry ((field, path) ∷ fields) acc = do
    steps ← resolve_path path registry
    load_fields registry fields (put String-discrete field steps acc)

  -- the loop's body for one entity type
  unfoldable pub load_type : Dict String String → TypeMapping → Result (EntityTypeConfig R)
  unfolding resolve_prefixed_uri load_fields
  load_type registry mapping = do
    rdf_type ← resolve_prefixed_uri mapping.rdf_type registry
    fields ← load_fields registry mapping.fields []
    ok (record { rdf_type = rdf_type; fields = fields })

  -- for entity_type, mapping in entity_types_config.items()
  unfoldable pub load_types :
      Dict String String
      → Dict String TypeMapping
      → Dict String (EntityTypeConfig R)
      → Result (Dict String (EntityTypeConfig R))
  unfolding load_type put
  load_types registry [] acc = ok acc
  load_types registry ((entity_type, mapping) ∷ types) acc = do
    config ← load_type registry mapping
    load_types registry types (put String-discrete entity_type config acc)

  -- load_entity_mappings, behind `yaml.safe_load`
  unfoldable pub load_entity_mappings : MappingFile → Result (Dict String (EntityTypeConfig R))
  unfolding load_types
  load_entity_mappings file = load_types file.namespaces file.entity_types []
