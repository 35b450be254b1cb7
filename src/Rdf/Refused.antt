-- ===== src/Rdf/Refused.antt =====
-- What refuses a mention, and how: `map_entity_mention_to_domain` (src/ere/adapters/rdf_mapper_impl.py).
use entity_resolution_engine.Base.{
  String, String-discrete, Option, none, some, [], Bool, true, false, ◌≡◌, refl, sym, ◌∙◌, ◌⊎◌, inl,
  inr, arith,
}
use entity_resolution_engine.Base.Dict.{Dict, get}
use entity_resolution_engine.Model.Errors.{Exception, Result, ok, raise, value_error, ◌>>=◌}
use entity_resolution_engine.Model.Mentions.{Mention}
use entity_resolution_engine.Rdf.{
  Rdf, EntityMention, EntityTypeConfig, parse_turtle, find_subject, extract_fields,
  extract_mention_attributes, map_with, map_entity_mention_to_domain,
}

-- It raises a `ValueError`.
abbrev pub RaisesValueError : {A : Type 0} → Result A → Type 0
RaisesValueError r = (message : String) × (r ≡ raise (value_error "ValueError" message))

ok-not-raise : {A : Type 0} {a : A} {e : Exception} → ok a ≡ raise e → ⊥
ok-not-raise h = cc

-- A chain whose rest returns has raised in its first part.
>>=-raise-ok :
    {A B : Type 0} (r : Result A) (f : A → B) {e : Exception}
    → r >>= (λ a. ok (f a)) ≡ raise e
    → r ≡ raise e
>>=-raise-ok (ok a) f h = absurd (ground arith)
>>=-raise-ok (raise x) f h = ground arith

module _ (R : Rdf) where
  -- Why content is refused.
  pub data BadContent (content : String) (config : EntityTypeConfig R) : Type 0 where
    blank : R.is_blank content ≡ true → BadContent content config
    unparsable :
        (e : Exception)
        → R.is_blank content ≡ false
        → R.parse content ≡ raise e
        → BadContent content config
    no_entity :
        (g : R.Graph)
        → R.is_blank content ≡ false
        → R.parse content ≡ ok g
        → R.subject_of_type g config.rdf_type ≡ none
        → BadContent content config

  -- Why a mention is refused.
  pub data Refusal (mappings : Dict String (EntityTypeConfig R)) (em : EntityMention) : Type 0 where
    unknown_type : get String-discrete em.entity_type mappings ≡ none → Refusal mappings em
    bad_content :
        (config : EntityTypeConfig R)
        → get String-discrete em.entity_type mappings ≡ some config
        → BadContent em.content config
        → Refusal mappings em

  -- Each bad content is refused.
  bad-RaisesValueError :
      (content : String) (config : EntityTypeConfig R)
      → BadContent content config
      → RaisesValueError (extract_mention_attributes R content config)
  unfolding extract_mention_attributes parse_turtle find_subject
  bad-RaisesValueError content config (BadContent.blank h) =
      ("RDF content is empty or whitespace-only", rw h refl)
  bad-RaisesValueError content config (BadContent.unparsable e h p) =
      ("Failed to parse RDF Turtle", rw h (rw (p, parse_turtle) refl))
  bad-RaisesValueError content config (BadContent.no_entity g h p s) = (
    "No entity of the type found in RDF content",
    rw h (rw (p, parse_turtle) (rw (s, find_subject) refl)),
  )

  -- Other content is accepted.
  extract-eq-ok :
      (content : String) (config : EntityTypeConfig R) (g : R.Graph) (subject : R.Node)
      → R.is_blank content ≡ false
      → R.parse content ≡ ok g
      → R.subject_of_type g config.rdf_type ≡ some subject
      → extract_mention_attributes R content config
        ≡ ok (extract_fields R g subject config.fields [])
  unfolding extract_mention_attributes parse_turtle find_subject
  extract-eq-ok content config g subject h p s =
      rw h (rw (p, parse_turtle) (rw (s, find_subject) refl))

  module _ (content : String) (config : EntityTypeConfig R) {e : Exception}
      (refused : extract_mention_attributes R content config ≡ raise e) where
    subject-missing :
        (g : R.Graph) (found : Option R.Node)
        → R.is_blank content ≡ false
        → R.parse content ≡ ok g
        → R.subject_of_type g config.rdf_type ≡ found
        → BadContent content config
    subject-missing g none h p s = no_entity g h p s
    subject-missing g (some subject) h p s =
        let accepted = extract-eq-ok content config g subject h p s in absurd (ground arith)

    parse-failed :
        (parsed : Result R.Graph)
        → R.is_blank content ≡ false
        → R.parse content ≡ parsed
        → BadContent content config
    parse-failed (ok g) h p = subject-missing g (R.subject_of_type g config.rdf_type) h p refl
    parse-failed (raise x) h p = unparsable x h p

    content-BadContent : (b : Bool) → R.is_blank content ≡ b → BadContent content config
    content-BadContent true h = blank h
    content-BadContent false h = parse-failed (R.parse content) h refl

  Refusal-RaisesValueError :
      (mappings : Dict String (EntityTypeConfig R)) (em : EntityMention)
      → Refusal mappings em
      → RaisesValueError (map_entity_mention_to_domain R mappings em)
  unfolding map_entity_mention_to_domain map_with
  Refusal-RaisesValueError mappings em (unknown_type h) =
      ("No rdf_mapping configured for the entity type", rw h refl)
  Refusal-RaisesValueError mappings em (bad_content config h bad) =
      let (message, raised) = bad-RaisesValueError em.content config bad in
      (message, rw h (rw raised refl))

  mapping-Refusal :
      (mappings : Dict String (EntityTypeConfig R)) (em : EntityMention) {e : Exception}
      (found : Option (EntityTypeConfig R))
      → get String-discrete em.entity_type mappings ≡ found
      → map_with R em found ≡ raise e
      → Refusal mappings em
  unfolding map_with
  mapping-Refusal mappings em none h raised = unknown_type h
  mapping-Refusal mappings em {e} (some config) h raised = bad_content config h (
      content-BadContent em.content config
        (>>=-raise-ok (extract_mention_attributes R em.content config) _ raised)
        (R.is_blank em.content) refl)

  -- A mention is mapped, and there is no reason to refuse it; or no mapping is configured for its type, or
  -- its content is blank, does not parse, or has no entity of the type, and it is then refused by a
  -- `ValueError`, whatever the parser raised.
  pub map-refused :
      (mappings : Dict String (EntityTypeConfig R)) (em : EntityMention)
      → ((m : Mention) × (map_entity_mention_to_domain R mappings em ≡ ok m)
          × (¬ Refusal mappings em))
        ⊎ (Refusal mappings em × RaisesValueError (map_entity_mention_to_domain R mappings em))
  map-refused mappings em = by (map_entity_mention_to_domain R mappings em) refl
    where
      by :
          (r : Result Mention)
          → map_entity_mention_to_domain R mappings em ≡ r
          → ((m : Mention) × (map_entity_mention_to_domain R mappings em ≡ ok m)
              × (¬ Refusal mappings em))
            ⊎ (Refusal mappings em × RaisesValueError (map_entity_mention_to_domain R mappings em))
      by (ok m) h = inl (
        m,
        h,
        λ why.
            let (message, raised) = Refusal-RaisesValueError mappings em why in
            absurd (ok-not-raise (sym h ∙ raised)),
      )
      by (raise e) h =
          let why : Refusal mappings em =
            mapping-Refusal mappings em {e = e} (get String-discrete em.entity_type mappings) refl
              (unfold map_entity_mention_to_domain in h) in
          inr (why, Refusal-RaisesValueError mappings em why)
