-- ===== src/Tests/Maps.antt =====
-- A graph of one organisation with a legal name, and the results of mapping applied to it.
use entity_resolution_engine.Base.{
  not_same, ◌⊎◌, All, String, String-discrete, Option, none, some, [], ◌∷◌, true, false, ite, ◌≡◌,
  ◌≢◌, ◌↔◌, refl,
}
use entity_resolution_engine.Base.Dict.{Dict, get, put}
use entity_resolution_engine.Model.Errors.{Exception, ok, raise, value_error}
use entity_resolution_engine.Model.Mentions.{Mention}
use entity_resolution_engine.Rdf.{
  Rdf, EntityMention, EntityTypeConfig, attribute, follow, extract_fields,
  extract_mention_attributes, parse_turtle, find_subject, derive_mention_id, map_with,
  map_entity_mention_to_domain,
}
use entity_resolution_engine.Rdf.Paths.{Leads}
use entity_resolution_engine.Rdf.Mapped.{IsRead, map-IsRead, attribute-Leads}
use entity_resolution_engine.Rdf.Mappings.{
  MappingFile, load_entity_mappings, load_types, load_type, load_fields, resolve_path,
  resolve_steps, resolve_prefixed_uri, split_path, term_of,
}
use entity_resolution_engine.Rdf.Loaded.{Configures, load_entity_mappings-Configures}
use entity_resolution_engine.Rdf.Refused.{Refusal, RaisesValueError, map-refused}

-- Nodes are texts; the entity "s" has the name node "n", which has the value "Acme".
abbrev value_at : String → String → Option String
value_at n p =
    ite (String-discrete p "name") (some "n") (ite (String-discrete p "value") (some "Acme") none)

abbrev rdf : Rdf
rdf = record {
  Graph = Unit {0};
  Node = String;
  is_blank = λ c. ite (String-discrete c "") true false;
  parse = λ c. ok tt;
  subject_of_type = λ g ty. some "s";
  value = λ g n p. value_at n p;
  str = λ n. n;
  sha256 = λ s. s;
}

abbrev organisation : EntityTypeConfig rdf
organisation = record {
  rdf_type = "Organisation";
  fields = ("legal_name", some ("name" ∷ "value" ∷ [])) ∷ ("country_code", none) ∷ [];
}

abbrev mappings : Dict String (EntityTypeConfig rdf)
mappings = ("ORGANISATION", organisation) ∷ []

abbrev received : EntityMention
received = record {
  source_id = "src";
  request_id = "r1";
  entity_type = "ORGANISATION";
  content = "turtle";
}

abbrev mapped : Mention
mapped = record {
  id = record { value = "srcr1ORGANISATION" };
  attributes = ("legal_name", some "Acme") ∷ ("country_code", none) ∷ [];
}

is_mapped : map_entity_mention_to_domain rdf mappings received ≡ ok mapped
unfolding map_entity_mention_to_domain map_with extract_mention_attributes parse_turtle find_subject
    extract_fields attribute follow derive_mention_id get put String-discrete
is_mapped = refl

configured : get String-discrete "ORGANISATION" mappings ≡ some organisation
unfolding get String-discrete
configured = refl

fields_differ : ◌≢◌ {A = String} "legal_name" "country_code"
unfolding String-discrete
fields_differ = not_same "legal_name" "country_code" refl

map-IsRead_example :
    IsRead rdf "turtle" organisation mapped.attributes
    × (mapped.id.value ≡ derive_mention_id rdf "src" "r1" "ORGANISATION")
map-IsRead_example =
    map-IsRead rdf mappings received organisation configured ((fields_differ, tt), (tt, tt))
      is_mapped

attribute-Leads_example :
    (attribute rdf tt "s" (some ("name" ∷ "value" ∷ [])) ≡ some "Acme")
    ↔ ((n : String) × Leads rdf tt "s" ("name" ∷ "value" ∷ []) n × (n ≡ "Acme"))
attribute-Leads_example = attribute-Leads rdf tt "s" ("name" ∷ "value" ∷ []) "Acme"

abbrev unknown : EntityMention
unknown = record received { entity_type = "PROCEDURE" }

abbrev no_mapping : Exception
no_mapping = value_error "ValueError" "No rdf_mapping configured for the entity type"

is_refused : map_entity_mention_to_domain rdf mappings unknown ≡ raise no_mapping
unfolding map_entity_mention_to_domain map_with get String-discrete
is_refused = refl

map-refused_example :
    ((m : Mention) × (map_entity_mention_to_domain rdf mappings unknown ≡ ok m)
      × (¬ Refusal rdf mappings unknown))
    ⊎ (Refusal rdf mappings unknown
        × RaisesValueError (map_entity_mention_to_domain rdf mappings unknown))
map-refused_example = map-refused rdf mappings unknown

-- A text moved from the source id to the request id leaves the id of the mention as it was.
shared_id :
    derive_mention_id rdf "ab" "c" "ORGANISATION" ≡ derive_mention_id rdf "a" "bc" "ORGANISATION"
unfolding derive_mention_id
shared_id = refl

-- The mapping file from which the configuration is read; nodes are local names.
abbrev file : MappingFile
file = record {
  namespaces = ("org", "http://org#") ∷ [];
  entity_types =
      (
        "ORGANISATION",
        record {
          rdf_type = "Organisation";
          fields = ("legal_name", some "org:name/org:value") ∷ ("country_code", none) ∷ [];
        },
      )
      ∷ [];
}

abbrev same_text : String → String
same_text s = s

abbrev local_term : String → String → String
local_term namespace name = name

is_loaded : load_entity_mappings rdf same_text local_term file ≡ ok mappings
unfolding load_entity_mappings load_types load_type load_fields resolve_path resolve_steps
    resolve_prefixed_uri split_path term_of get put String-discrete
is_loaded = refl

load_entity_mappings-Configures_example :
    All
      (λ e.
        (config : EntityTypeConfig rdf) × (get String-discrete e.0 mappings ≡ some config)
        × Configures rdf same_text local_term file.namespaces e.1 config)
      file.entity_types
load_entity_mappings-Configures_example =
    load_entity_mappings-Configures rdf same_text local_term file (tt, tt)
      (((fields_differ, tt), (tt, tt)), tt) is_loaded
