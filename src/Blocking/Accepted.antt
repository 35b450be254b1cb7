-- ===== src/Blocking/Accepted.antt =====
-- Valid settings, written out as YAML, are read back.
use entity_resolution_engine.Base.{
  ℕ, String, String-discrete, List, [], ◌∷◌, map, Bool, ◌≡◌, ◌≢◌, refl, arith, All, contains,
  contains_of_OneOf,
}
use entity_resolution_engine.Base.Dict.{get}
use entity_resolution_engine.Model.Errors.{ok}
use entity_resolution_engine.Model.Yaml.{
  finite, Yaml, number, text, sequence, mapping, items, entries, sequence_of, no_entry, entry,
}
use entity_resolution_engine.Blocking.{
  BlockingRule, equality, name_similarity, BlockingSettings, similarity_threshold, check_keys,
  all_in, entry_of, as_mapping, require_normalised, entity_field, entity_fields, parse_similarity,
  parse_rule, parse_rules, from_config, rule_keys, similar_keys,
}
use entity_resolution_engine.Blocking.Valid.{IsField, IsRule, IsSettings}

abbrev pub texts : List String → List Yaml
texts = map text

abbrev pub similar_of : String → ℕ → Yaml
similar_of f threshold =
    mapping (entry "field" (text f) (entry "min_jaro_winkler" (number (finite threshold)) no_entry))

-- A rule as it is written in the configuration.
abbrev pub raw_rule : BlockingRule → Yaml
raw_rule (equality fs) = sequence (sequence_of (texts fs))
raw_rule (name_similarity same f threshold) =
    mapping (entry "same" (text same) (entry "similar" (similar_of f threshold) no_entry))

items-sequence_of : (ys : List Yaml) → items (sequence_of ys) ≡ ys
items-sequence_of [] = refl
items-sequence_of (y ∷ ys) = rw (items-sequence_of ys)

-- The keys of a mapping that is written out are those that are read.
keys_checked :
    (same f : String) (threshold : ℕ)
    → (check_keys
          (entries (entry "same" (text same) (entry "similar" (similar_of f threshold) no_entry)))
          rule_keys
        ≡ ok tt)
      × (check_keys
            (entries (
              entry "field"
                (text f)
                (entry "min_jaro_winkler" (number (finite threshold)) no_entry)))
            similar_keys
          ≡ ok tt)
unfolding check_keys all_in contains String-discrete
keys_checked same f threshold = (refl, refl)

module _ (isidentifier : String → Bool) (known : List String) where
  entity_field-text :
      (role : String) (f : String)
      → IsField isidentifier known f
      → entity_field isidentifier (text f) known role ≡ ok f
  unfolding entity_field
  entity_field-text role f h = ground (arith, contains_of_OneOf f known)

  entity_fields-texts :
      (role : String) (fs : List String)
      → All (IsField isidentifier known) fs
      → entity_fields isidentifier (texts fs) known role ≡ ok fs
  unfolding entity_fields
  entity_fields-texts role [] h = refl
  entity_fields-texts role (f ∷ fs) h =
      rw (entity_field-text role f h.0) (rw (entity_fields-texts role fs h.1) refl)

  module _ (normalised : List String) where
    parse_similarity-raw :
        (same f : String) (threshold : ℕ)
        → IsRule isidentifier known normalised (name_similarity same f threshold)
        → parse_similarity isidentifier
            (entries (entry "same" (text same) (entry "similar" (similar_of f threshold) no_entry)))
            known
            normalised
          ≡ ok (name_similarity same f threshold)
    unfolding parse_similarity entry_of get String-discrete as_mapping similarity_threshold
        require_normalised
    parse_similarity-raw same f threshold h =
        let (rule_checked, similar_checked) = keys_checked same f threshold in
        ground (
          arith,
          rule_checked,
          similar_checked,
          entity_field-text "name similarity field" f,
          entity_field-text "blocking field" same,
          contains_of_OneOf f normalised,
        )

    parse_rule-raw_rule :
        (r : BlockingRule)
        → IsRule isidentifier known normalised r
        → parse_rule isidentifier (raw_rule r) known normalised ≡ ok r
    unfolding parse_rule
    parse_rule-raw_rule (equality fs) h =
        rw (items-sequence_of (texts fs)) (rw (entity_fields-texts "blocking field" fs h) refl)
    parse_rule-raw_rule (name_similarity same f threshold) h =
        parse_similarity-raw same f threshold h

    parse_rules-raw_rules :
        (rs : List BlockingRule)
        → All (IsRule isidentifier known normalised) rs
        → parse_rules isidentifier (map raw_rule rs) known normalised ≡ ok rs
    unfolding parse_rules
    parse_rules-raw_rules [] h = refl
    parse_rules-raw_rules (r ∷ rs) h =
        rw (parse_rule-raw_rule r h.0) (rw (parse_rules-raw_rules rs h.1) refl)

  -- Valid settings that are written out as configuration are read back as they were.
  pub from_config-raw_rules :
      (s : BlockingSettings)
      → IsSettings isidentifier known s
      → from_config isidentifier
          (map raw_rule s.rules)
          known
          (texts s.normalised_fields)
          (text s.em_blocking_field)
        ≡ ok s
  unfolding from_config
  from_config-raw_rules s h = from s.rules h.nonempty h.rules
    where
      from :
          (rs : List BlockingRule)
          → rs ≢ []
          → All (IsRule isidentifier known s.normalised_fields) rs
          → from_config isidentifier
              (map raw_rule rs)
              known
              (texts s.normalised_fields)
              (text s.em_blocking_field)
            ≡ ok (record s { rules = rs })
      from [] some_rule valid = absurd (some_rule refl)
      from (r ∷ rs) some_rule valid = ground (
        arith,
        entity_fields-texts "normalised field" s.normalised_fields h.normalised,
        entity_field-text "EM blocking field" s.em_blocking_field h.em,
        parse_rules-raw_rules s.normalised_fields (r ∷ rs) valid,
      )
