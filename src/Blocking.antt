-- ===== src/Blocking.antt =====
-- Blocking settings: which stored mentions are scored against a new one
-- (src/ere/models/resolver/blocking.py). An error keeps the wording of its message, without the values
-- that the message quotes. `str.isidentifier` is Python's.
pub mod Valid
pub mod Accepted
use entity_resolution_engine.Base.{
  ℕ, String, String-discrete, Option, none, some, List, [], ◌∷◌, map, Bool, true, false, ite, leb,
  if◌then◌else◌, contains,
}
use entity_resolution_engine.Base.Dict.{Dict, get, keys}
use entity_resolution_engine.Model.Errors.{Exception, Result, ok, raise, value_error, ◌>>=◌, ◌>>◌}
use entity_resolution_engine.Model.Yaml.{
  Number, finite, negative, not_finite, Yaml, null, boolean, number, text, sequence, mapping, items,
  entries,
}

-- EqualityRule and NameSimilarityRule
pub data BlockingRule : Type 0 where
  equality : List String → BlockingRule
  name_similarity : String → String → ℕ → BlockingRule

pub record BlockingSettings : Type 0 where
  pub rules : List BlockingRule
  pub normalised_fields : List String
  pub em_blocking_field : String

abbrev pub refused : String → Exception
refused message = value_error "ValueError" message

-- 1.0, by its bit pattern
abbrev pub one : ℕ
one = 0x3ff0_0000_0000_0000

-- _similarity_threshold
unfoldable pub similarity_threshold : Yaml → Result ℕ
similarity_threshold (number (finite n)) =
    if leb n one then ok n else raise (refused "min_jaro_winkler must be a number between 0 and 1")
similarity_threshold _ = raise (refused "min_jaro_winkler must be a number between 0 and 1")

unfoldable pub all_in : List String → List String → Bool
unfolding contains
all_in [] allowed = true
all_in (k ∷ ks) allowed = if contains k allowed then all_in ks allowed else false

-- _check_keys
unfoldable pub check_keys : Dict String Yaml → List String → Result (Unit {0})
unfolding all_in
check_keys entry allowed =
    if all_in (keys entry) allowed
    then if all_in allowed (keys entry)
      then ok tt
      else raise (refused "Missing key(s); required keys")
    else raise (refused "Unknown key(s); allowed keys")

-- entry[key], behind `_check_keys`
unfoldable pub entry_of : String → Dict String Yaml → Result Yaml
unfolding get
entry_of k e = elim (get String-discrete k e) [
  | none ↦ raise (Exception.key_error k)
  | some y ↦ ok y
]

abbrev pub rule_keys : List String
rule_keys = "same" ∷ "similar" ∷ []

abbrev pub similar_keys : List String
similar_keys = "field" ∷ "min_jaro_winkler" ∷ []

-- if field not in normalised: raise
unfoldable pub require_normalised : String → List String → Result (Unit {0})
unfolding contains
require_normalised f normalised =
    if contains f normalised
    then ok tt
    else raise (refused "Name similarity needs the field among the normalised fields")

-- isinstance(similar, dict)
unfoldable pub as_mapping : Yaml → Result (Dict String Yaml)
as_mapping (mapping es) = ok (entries es)
as_mapping _ = raise (refused "'similar' of a blocking rule must be a mapping")

module _ (isidentifier : String → Bool) where
  -- _entity_field
  unfoldable pub entity_field : Yaml → List String → String → Result String
  unfolding contains
  entity_field (text name) known role =
      if isidentifier name
      then if contains name known
        then ok name
        else raise (refused "The field is not one of the entity fields")
      else raise (refused "The field is not a valid identifier")
  entity_field _ known role = raise (refused "The field is not a valid identifier")

  -- tuple(_entity_field(name, known, role) for name in names)
  unfoldable pub entity_fields : List Yaml → List String → String → Result (List String)
  unfolding entity_field
  entity_fields [] known role = ok []
  entity_fields (y ∷ ys) known role = do
    f ← entity_field y known role
    fs ← entity_fields ys known role
    ok (f ∷ fs)

  -- the part of `_parse_rule` for a mapping
  unfoldable pub parse_similarity :
      Dict String Yaml → List String → List String → Result BlockingRule
  unfolding check_keys entry_of as_mapping entity_field require_normalised similarity_threshold
  parse_similarity rule known normalised = do
    check_keys rule rule_keys
    similar_value ← entry_of "similar" rule
    similar ← as_mapping similar_value
    check_keys similar similar_keys
    field_value ← entry_of "field" similar
    f ← entity_field field_value known "name similarity field"
    require_normalised f normalised
    same_value ← entry_of "same" rule
    same ← entity_field same_value known "blocking field"
    threshold_value ← entry_of "min_jaro_winkler" similar
    threshold ← similarity_threshold threshold_value
    ok (name_similarity same f threshold)

  -- _parse_rule
  unfoldable pub parse_rule : Yaml → List String → List String → Result BlockingRule
  unfolding entity_field entity_fields parse_similarity
  parse_rule (text name) known normalised = do
    f ← entity_field (text name) known "blocking field"
    ok (equality (f ∷ []))
  parse_rule (sequence ys) known normalised = do
    fs ← entity_fields (items ys) known "blocking field"
    ok (equality fs)
  parse_rule (mapping es) known normalised = parse_similarity (entries es) known normalised
  parse_rule _ known normalised =
      raise (refused "Invalid blocking rule: expected a field name, a list of fields or a mapping")

  unfoldable pub parse_rules : List Yaml → List String → List String → Result (List BlockingRule)
  unfolding parse_rule
  parse_rules [] known normalised = ok []
  parse_rules (y ∷ ys) known normalised = do
    r ← parse_rule y known normalised
    rs ← parse_rules ys known normalised
    ok (r ∷ rs)

  -- BlockingSettings.from_config
  unfoldable pub from_config : List Yaml → List String → List Yaml → Yaml → Result BlockingSettings
  unfolding entity_field entity_fields parse_rules
  from_config [] known normalised_fields em_blocking_field =
      raise (refused "At least one entry is required in blocking_rules")
  from_config (r ∷ rs) known normalised_fields em_blocking_field = do
    normalised ← entity_fields normalised_fields known "normalised field"
    em_field ← entity_field em_blocking_field known "EM blocking field"
    parsed ← parse_rules (r ∷ rs) known normalised
    ok (record { rules = parsed; normalised_fields = normalised; em_blocking_field = em_field })
