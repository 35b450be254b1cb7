-- ===== src/Blocking/Valid.antt =====
-- What the settings that are accepted satisfy, and that all such settings are accepted.
use entity_resolution_engine.Base.{
  ℕ, String, List, [], ◌∷◌, Bool, true, ◌≡◌, ◌≢◌, refl, subst, ◌≤◌, arith, All, OneOf,
  OneOf-of_contains,
}
use entity_resolution_engine.Base.Dict.{Dict}
use entity_resolution_engine.Model.Errors.{ok, >>=-eq-ok, ok-injective}
use entity_resolution_engine.Model.Yaml.{
  finite, Yaml, number, text, sequence, mapping, items, entries,
}
use entity_resolution_engine.Blocking.{
  BlockingRule, equality, name_similarity, BlockingSettings, one, similarity_threshold, check_keys,
  rule_keys, similar_keys, entry_of, as_mapping, require_normalised, entity_field, entity_fields,
  parse_similarity, parse_rule, parse_rules, from_config,
}

similarity_threshold-le : (y : Yaml) {n : ℕ} → similarity_threshold y ≡ ok n → n ≤ one
unfolding similarity_threshold
similarity_threshold-le (number (finite n)) h = ground arith
similarity_threshold-le _ h = cc

module _ (isidentifier : String → Bool) (known : List String) where
  -- The field is an entity field, and an identifier.
  abbrev pub IsField : String → Type 0
  IsField f = (isidentifier f ≡ true) × OneOf f known

  -- The rule speaks of such fields only, its name field is normalised, its threshold is at most 1.0.
  abbrev pub IsRule : List String → BlockingRule → Type 0
  IsRule normalised (equality fs) = All IsField fs
  IsRule normalised (name_similarity same f threshold) =
      IsField same × IsField f × OneOf f normalised × (threshold ≤ one)

  pub record IsSettings (s : BlockingSettings) : Type 0 where
    pub nonempty : s.rules ≢ []
    pub normalised : All IsField s.normalised_fields
    pub em : IsField s.em_blocking_field
    pub rules : All (IsRule s.normalised_fields) s.rules

  entity_field-IsField :
      (y : Yaml) (role : String) {f : String}
      → entity_field isidentifier y known role ≡ ok f
      → IsField f
  unfolding entity_field
  entity_field-IsField (text name) role {f} h = ground (arith, OneOf-of_contains name known)
  entity_field-IsField _ role h = cc

  entity_fields-IsField :
      (ys : List Yaml) (role : String) {fs : List String}
      → entity_fields isidentifier ys known role ≡ ok fs
      → All IsField fs
  unfolding entity_fields
  entity_fields-IsField [] role h = ground arith
  entity_fields-IsField (y ∷ ys) role h =
      let (f, first, h₁) = >>=-eq-ok (entity_field isidentifier y known role) _ h in
      let (fs, rest, h₂) = >>=-eq-ok (entity_fields isidentifier ys known role) _ h₁ in
      subst (All IsField) (ok-injective h₂)
        (entity_field-IsField y role first, entity_fields-IsField ys role rest)

  module _ (normalised : List String) where
    parse_similarity-IsRule :
        (e : Dict String Yaml) {r : BlockingRule}
        → parse_similarity isidentifier e known normalised ≡ ok r
        → IsRule normalised r
    unfolding parse_similarity
    parse_similarity-IsRule e h =
        let (_, known_keys, h₁) = >>=-eq-ok (check_keys e rule_keys) _ h in
        let (similar_value, found, h₂) = >>=-eq-ok (entry_of "similar" e) _ h₁ in
        let (similar, is_mapping, h₃) = >>=-eq-ok (as_mapping similar_value) _ h₂ in
        let (_, similar_known, h₄) = >>=-eq-ok (check_keys similar similar_keys) _ h₃ in
        let (field_value, field_found, h₅) = >>=-eq-ok (entry_of "field" similar) _ h₄ in
        let (f, field, h₆) =
          >>=-eq-ok (entity_field isidentifier field_value known "name similarity field") _ h₅ in
        let (_, kept, h₇) = >>=-eq-ok (require_normalised f normalised) _ h₆ in
        let (same_value, same_found, h₈) = >>=-eq-ok (entry_of "same" e) _ h₇ in
        let (same, is_same, h₉) =
          >>=-eq-ok (entity_field isidentifier same_value known "blocking field") _ h₈ in
        let (value, value_found, h₁₀) = >>=-eq-ok (entry_of "min_jaro_winkler" similar) _ h₉ in
        let (threshold, within, h₁₁) = >>=-eq-ok (similarity_threshold value) _ h₁₀ in
        subst (IsRule normalised) (ok-injective h₁₁) (
          entity_field-IsField same_value "blocking field" is_same,
          entity_field-IsField field_value "name similarity field" field,
          require_normalised-OneOf f kept,
          similarity_threshold-le value within,
        )
      where
        require_normalised-OneOf :
            (f : String) {u : Unit {0}}
            → require_normalised f normalised ≡ ok u
            → OneOf f normalised
        require_normalised-OneOf f h = ground (arith, OneOf-of_contains f normalised)

    parse_rule-IsRule :
        (y : Yaml) {r : BlockingRule}
        → parse_rule isidentifier y known normalised ≡ ok r
        → IsRule normalised r
    unfolding parse_rule
    parse_rule-IsRule (text name) h =
        let (f, field, h₁) =
          >>=-eq-ok (entity_field isidentifier (text name) known "blocking field") _ h in
        subst (IsRule normalised) (ok-injective h₁)
          (entity_field-IsField (text name) "blocking field" field, tt)
    parse_rule-IsRule (sequence ys) h =
        let (fs, fields, h₁) =
          >>=-eq-ok (entity_fields isidentifier (items ys) known "blocking field") _ h in
        subst (IsRule normalised) (ok-injective h₁)
          (entity_fields-IsField (items ys) "blocking field" fields)
    parse_rule-IsRule (mapping es) h = parse_similarity-IsRule (entries es) h
    parse_rule-IsRule _ h = cc

    parse_rules-IsRule :
        (ys : List Yaml) {rs : List BlockingRule}
        → parse_rules isidentifier ys known normalised ≡ ok rs
        → All (IsRule normalised) rs × (ys ≢ [] → rs ≢ [])
    unfolding parse_rules
    parse_rules-IsRule [] {rs} h =
        subst (λ rs. All (IsRule normalised) rs × (◌≢◌ {A = List Yaml} [] [] → rs ≢ []))
          (ok-injective h) (tt, λ p q. p refl)
    parse_rules-IsRule (y ∷ ys) {rs} h =
        let (r, first, h₁) = >>=-eq-ok (parse_rule isidentifier y known normalised) _ h in
        let (rest, others, h₂) = >>=-eq-ok (parse_rules isidentifier ys known normalised) _ h₁ in
        subst (λ rs. All (IsRule normalised) rs × (y ∷ ys ≢ [] → rs ≢ [])) (ok-injective h₂)
          ((parse_rule-IsRule y first, (parse_rules-IsRule ys others).0), λ p q. cc)

  -- Settings that are accepted have at least one rule and speak of entity fields only: a rule on name
  -- similarity has its field among the normalised ones and a threshold of at most 1.0.
  pub from_config-IsSettings :
      (rules normalised_fields : List Yaml) (em_blocking_field : Yaml) {s : BlockingSettings}
      → from_config isidentifier rules known normalised_fields em_blocking_field ≡ ok s
      → IsSettings s
  unfolding from_config
  from_config-IsSettings [] normalised_fields em h = cc
  from_config-IsSettings (r ∷ rs) normalised_fields em h =
      let (normalised, are_fields, h₁) =
        >>=-eq-ok (entity_fields isidentifier normalised_fields known "normalised field") _ h in
      let (field, is_field, h₂) =
        >>=-eq-ok (entity_field isidentifier em known "EM blocking field") _ h₁ in
      let (parsed, are_rules, h₃) =
        >>=-eq-ok (parse_rules isidentifier (r ∷ rs) known normalised) _ h₂ in
      let (valid, some_rule) = parse_rules-IsRule normalised (r ∷ rs) are_rules in
      subst IsSettings (ok-injective h₃) (record {
        nonempty = some_rule (λ e. cc);
        normalised = entity_fields-IsField normalised_fields "normalised field" are_fields;
        em = entity_field-IsField em "EM blocking field" is_field;
        rules = valid;
      })
