-- ===== src/Rdf.antt =====
-- From the RDF of a mention to its attributes: `extract_mention_attributes` of
-- src/ere/adapters/rdf_mapper.py and `TurtleRDFMapper` of src/ere/adapters/rdf_mapper_impl.py. The graph
-- is rdflib's and the digest hashlib's.
pub mod Paths
pub mod Mapped
pub mod Mappings
pub mod Loaded
pub mod Refused
use Prim.Native.String
use entity_resolution_engine.Base.{
  String, String-discrete, Option, none, some, List, [], ◌∷◌, Bool, if◌then◌else◌,
}
use entity_resolution_engine.Base.Dict.{Dict, get, put}
use entity_resolution_engine.Model.Errors.{
  Exception, Result, ok, raise, value_error, Attributes, ◌>>=◌,
}
use entity_resolution_engine.Model.Mentions.{Mention}

-- What is taken from rdflib, from `str.strip` and from hashlib.
pub record Rdf : Type 1 where
  pub Graph : Type 0
  pub Node : Type 0
  -- not content or not content.strip()
  pub is_blank : String → Bool
  -- graph.parse(data=content, format="turtle")
  pub parse : String → Result Graph
  -- graph.value(predicate=RDF.type, object=rdf_type)
  pub subject_of_type : Graph → Node → Option Node
  -- graph.value(current, predicate)
  pub value : Graph → Node → Node → Option Node
  -- str(current)
  pub str : Node → String
  -- hashlib.sha256(raw.encode("utf-8")).hexdigest()
  pub sha256 : String → String

-- The identifier and the content of an `EntityMention`.
pub record EntityMention : Type 0 where
  pub source_id : String
  pub request_id : String
  pub entity_type : String
  pub content : String

module _ (R : Rdf) where
  -- {"rdf_type": URIRef, "fields": {field_name: [URIRef, ...] or None}}
  pub record EntityTypeConfig : Type 0 where
    pub rdf_type : R.Node
    pub fields : Dict String (Option (List R.Node))

  -- for predicate in path_steps: if current is None: break; current = graph.value(current, predicate)
  unfoldable pub follow : R.Graph → Option R.Node → List R.Node → Option R.Node
  follow g none steps = none
  follow g (some current) [] = some current
  follow g (some current) (predicate ∷ steps) = follow g (R.value g current predicate) steps

  -- str(current) if current is not None
  abbrev pub text_of : Option R.Node → Option String
  text_of none = none
  text_of (some n) = some (R.str n)

  -- the attribute of one field
  unfoldable pub attribute : R.Graph → R.Node → Option (List R.Node) → Option String
  unfolding follow
  attribute g subject none = none
  attribute g subject (some steps) = text_of (follow g (some subject) steps)

  -- for field_name, path_steps in fields.items()
  unfoldable pub extract_fields :
      R.Graph → R.Node → Dict String (Option (List R.Node)) → Attributes → Attributes
  unfolding attribute put
  extract_fields g subject [] attributes = attributes
  extract_fields g subject ((field, path) ∷ fields) attributes =
      extract_fields g subject fields
        (put String-discrete field (attribute g subject path) attributes)

  -- except Exception as exc: raise ValueError(...) from exc
  unfoldable pub parse_turtle : String → Result R.Graph
  parse_turtle content = elim (R.parse content) [
    | ok g ↦ ok g
    | raise e ↦ raise (value_error "ValueError" "Failed to parse RDF Turtle")
  ]

  -- if entity_subject is None: raise ValueError
  unfoldable pub find_subject : R.Graph → R.Node → Result R.Node
  find_subject g rdf_type = elim (R.subject_of_type g rdf_type) [
    | none ↦ raise (value_error "ValueError" "No entity of the type found in RDF content")
    | some subject ↦ ok subject
  ]

  -- extract_mention_attributes
  unfoldable pub extract_mention_attributes : String → EntityTypeConfig → Result Attributes
  unfolding parse_turtle find_subject extract_fields
  extract_mention_attributes content config =
      if R.is_blank content
      then raise (value_error "ValueError" "RDF content is empty or whitespace-only")
      else do
        g ← parse_turtle content
        subject ← find_subject g config.rdf_type
        ok (extract_fields g subject config.fields [])

  -- _derive_mention_id
  unfoldable pub derive_mention_id : String → String → String → String
  derive_mention_id source_id request_id entity_type =
      R.sha256 (String.◌++◌ (String.◌++◌ source_id request_id) entity_type)

  -- the end of `map_entity_mention_to_domain`, by the configuration of the type
  unfoldable pub map_with : EntityMention → Option EntityTypeConfig → Result Mention
  unfolding extract_mention_attributes derive_mention_id
  map_with em none =
      raise (value_error "ValueError" "No rdf_mapping configured for the entity type")
  map_with em (some config) = do
    attributes ← extract_mention_attributes em.content config
    ok (record {
      id = record { value = derive_mention_id em.source_id em.request_id em.entity_type };
      attributes = attributes;
    })

  -- map_entity_mention_to_domain
  unfoldable pub map_entity_mention_to_domain :
      Dict String EntityTypeConfig → EntityMention → Result Mention
  unfolding map_with get
  map_entity_mention_to_domain mappings em =
      map_with em (get String-discrete em.entity_type mappings)
