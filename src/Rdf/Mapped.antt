-- ===== src/Rdf/Mapped.antt =====
-- What a mapped mention has.
use entity_resolution_engine.Base.{
  String, String-discrete, Option, none, some, List, [], ◌∷◌, ◌++◌, map, Bool, true, false,
  if◌then◌else◌, All, All-always, All-both, All-weaken, ◌≡◌, ◌≢◌, ◌↔◌, refl, sym, ◌∙◌, ap, subst,
  arith,
}
use mathlib.Core.Option.{some-injective}
use mathlib.Core.List.{append-nil, append_assoc}
use entity_resolution_engine.Base.Dict.Distinct.{DistinctKeys, get_nil, put-new}
use entity_resolution_engine.Base.Dict.{Dict, get, put, get-put_ne}
use entity_resolution_engine.Model.Errors.{
  ok, raise, value_error, Attributes, ◌>>=◌, >>=-eq-ok, ok-injective,
}
use entity_resolution_engine.Model.Mentions.{Mention}
use entity_resolution_engine.Rdf.{
  Rdf, EntityMention, EntityTypeConfig, follow, text_of, attribute, extract_fields, parse_turtle,
  find_subject, extract_mention_attributes, derive_mention_id, map_with,
  map_entity_mention_to_domain,
}
use entity_resolution_engine.Rdf.Paths.{Leads, follow-of_Leads, Leads-of_follow}

module _ (R : Rdf) where
  text_of-some :
      (x : Option R.Node) {s : String}
      → text_of R x ≡ some s
      → (n : R.Node) × (x ≡ some n) × (R.str n ≡ s)
  text_of-some none h = absurd (ground arith)
  text_of-some (some n) h = (n, refl, some-injective _ _ h)

  module _ (g : R.Graph) (subject : R.Node) where
    -- the entry that a field gets
    abbrev pub entry_for : String × Option (List R.Node) → String × Option String
    entry_for e = (e.0, attribute R g subject e.1)

    extract_fields-eq :
        (fields : Dict String (Option (List R.Node))) (attributes : Attributes)
        → DistinctKeys fields
        → All (λ e. get String-discrete e.0 attributes ≡ none) fields
        → extract_fields R g subject fields attributes ≡ attributes ++ map entry_for fields
    unfolding extract_fields
    extract_fields-eq [] attributes d new = sym (append-nil attributes)
    extract_fields-eq ((field, path) ∷ fields) attributes (apart, d) (new, news) =
        let a = attribute R g subject path in
        let put_last = put-new field a attributes new in
        extract_fields-eq fields (put String-discrete field a attributes) d (
          All-weaken _
            (λ e. get String-discrete e.0 (put String-discrete field a attributes) ≡ none)
            (λ e both. get-put_ne String-discrete field e.0 a attributes both.0 ∙ both.1) fields
            (All-both (λ e. field ≢ e.0) (λ e. get String-discrete e.0 attributes ≡ none) fields
              apart news))
        ∙ ap (λ d. d ++ map entry_for fields) put_last
        ∙ append_assoc attributes ((field, a) ∷ []) (map entry_for fields)

    -- A field with a path has the value of the node that the properties of its path lead to from the
    -- entity, as text, and has a value only if they lead to a node.
    pub attribute-Leads :
        (steps : List R.Node) (s : String)
        → (attribute R g subject (some steps) ≡ some s)
          ↔ ((n : R.Node) × Leads R g subject steps n × (R.str n ≡ s))
    unfolding attribute
    attribute-Leads steps s = (
      λ h.
          let (n, found, same) = text_of-some (follow R g (some subject) steps) h in
          (n, Leads-of_follow R g subject steps found, same),
      λ (n, leads, same). ap (text_of R) (follow-of_Leads R g leads) ∙ ap some same,
    )

  parse_turtle-ok :
      (content : String) {g : R.Graph} → parse_turtle R content ≡ ok g → R.parse content ≡ ok g
  unfolding parse_turtle
  parse_turtle-ok content h = ground arith

  find_subject-ok :
      (g : R.Graph) (ty : R.Node) {subject : R.Node}
      → find_subject R g ty ≡ ok subject
      → R.subject_of_type g ty ≡ some subject
  unfolding find_subject
  find_subject-ok g ty h = ground arith

  -- What is read from the content with the configuration of the type.
  pub record IsRead (content : String) (config : EntityTypeConfig R) (attributes : Attributes)
      : Type 0 where
    pub graph : R.Graph
    pub subject : R.Node
    pub parsed : R.parse content ≡ ok graph
    pub found : R.subject_of_type graph config.rdf_type ≡ some subject
    pub read : attributes ≡ map (entry_for graph subject) config.fields

  extract-IsRead :
      (content : String) (config : EntityTypeConfig R) {attributes : Attributes}
      → DistinctKeys config.fields
      → extract_mention_attributes R content config ≡ ok attributes
      → IsRead content config attributes
  unfolding extract_mention_attributes
  extract-IsRead content config {attributes} distinct h = by (R.is_blank content) h
    where
      by :
          (blank : Bool)
          → (if blank
              then raise (value_error "ValueError" "RDF content is empty or whitespace-only")
              else (parse_turtle R content >>= λ g. find_subject R g config.rdf_type >>= λ subject.
                  ok (extract_fields R g subject config.fields [])))
            ≡ ok attributes
          → IsRead content config attributes
      by true e = absurd (ground arith)
      by false e =
          let (g, parsed, e₁) = >>=-eq-ok (parse_turtle R content) _ e in
          let (subject, found, e₂) = >>=-eq-ok (find_subject R g config.rdf_type) _ e₁ in
          record {
            graph = g;
            subject = subject;
            parsed = parse_turtle-ok content parsed;
            found = find_subject-ok g config.rdf_type found;
            read =
                sym (ok-injective e₂)
                ∙ extract_fields-eq g subject config.fields [] distinct (
                    All-always (λ e. get String-discrete e.0 [] ≡ none) (λ e. get_nil e.0)
                      config.fields);
          }

  -- A mention that is mapped has the derived id, and exactly the fields that are configured for its
  -- type, in their order, each with the value that its path has from the entity of that type in the
  -- graph.
  pub map-IsRead :
      (mappings : Dict String (EntityTypeConfig R)) (em : EntityMention) {m : Mention}
      (config : EntityTypeConfig R)
      → get String-discrete em.entity_type mappings ≡ some config
      → DistinctKeys config.fields
      → map_entity_mention_to_domain R mappings em ≡ ok m
      → IsRead em.content config m.attributes
        × (m.id.value ≡ derive_mention_id R em.source_id em.request_id em.entity_type)
  unfolding map_entity_mention_to_domain map_with
  map-IsRead mappings em {m} config configured distinct h =
      let h' : map_with R em (some config) ≡ ok m = sym (ap (map_with R em) configured) ∙ h in
      let (attributes, extracted, is) =
        >>=-eq-ok (extract_mention_attributes R em.content config) _ h' in
      subst
        (λ (m : Mention).
          IsRead em.content config m.attributes
          × (m.id.value ≡ derive_mention_id R em.source_id em.request_id em.entity_type))
        (ok-injective is) (extract-IsRead em.content config distinct extracted, refl)
