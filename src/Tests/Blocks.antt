-- ===== src/Tests/Blocks.antt =====
-- A configuration of two blocking rules, and the results applied to it.
use entity_resolution_engine.Base.{
  String, String-discrete, List, [], ◌∷◌, map, Bool, true, ◌≡◌, refl,
}
use entity_resolution_engine.Base.Dict.{get}
use entity_resolution_engine.Model.Errors.{ok}
use entity_resolution_engine.Model.Yaml.{
  Yaml, text, number, finite, sequence, mapping, item, no_item, entry, no_entry,
}
use entity_resolution_engine.Blocking.{
  equality, name_similarity, BlockingSettings, from_config, entity_field, entity_fields,
  parse_rules, parse_rule, parse_similarity, check_keys, entry_of, as_mapping, require_normalised,
  similarity_threshold, all_in,
}
use entity_resolution_engine.Blocking.Valid.{IsSettings, from_config-IsSettings}
use entity_resolution_engine.Blocking.Accepted.{texts, raw_rule, from_config-raw_rules}

abbrev identifier : String → Bool
identifier s = true

abbrev known : List String
known = "legal_name" ∷ "country_code" ∷ []

-- 0.9 as a threshold
abbrev similar : Yaml
similar = mapping (
    entry "field" (text "legal_name")
      (entry "min_jaro_winkler" (number (finite 0x3fec_cccc_cccc_cccd)) no_entry))

abbrev rules : List Yaml
rules =
    sequence (item (text "legal_name") no_item)
    ∷ mapping (entry "same" (text "country_code") (entry "similar" similar no_entry))
    ∷ []

abbrev settings : BlockingSettings
settings = record {
  rules =
      equality ("legal_name" ∷ [])
      ∷ name_similarity "country_code" "legal_name" 0x3fec_cccc_cccc_cccd
      ∷ [];
  normalised_fields = "legal_name" ∷ [];
  em_blocking_field = "country_code";
}

read :
    from_config identifier rules known (text "legal_name" ∷ []) (text "country_code") ≡ ok settings
unfolding from_config entity_field entity_fields parse_rules parse_rule parse_similarity check_keys
    entry_of as_mapping require_normalised similarity_threshold all_in get String-discrete
read = refl

from_config-IsSettings_example : IsSettings identifier known settings
from_config-IsSettings_example =
    from_config-IsSettings identifier known rules (text "legal_name" ∷ []) (text "country_code")
      read

accepted : IsSettings identifier known settings
accepted =
    from_config-IsSettings identifier known rules (text "legal_name" ∷ []) (text "country_code")
      read

from_config-raw_rules_example :
    from_config identifier
      (map raw_rule settings.rules)
      known
      (texts settings.normalised_fields)
      (text settings.em_blocking_field)
    ≡ ok settings
from_config-raw_rules_example = from_config-raw_rules identifier known settings accepted
