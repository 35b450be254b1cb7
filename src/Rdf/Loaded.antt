-- ===== src/Rdf/Loaded.antt =====
-- Every entity type of the mapping file is loaded, with its fields.
use mathlib.Core.List.{append-nil, append_assoc, head-eq_of_cons-eq, tail-eq_of_cons-eq}
use entity_resolution_engine.Base.{
  String, String-discrete, Option, none, some, List, [], ◌∷◌, ◌++◌, All, All-always, ◌≡◌, ◌≢◌, refl,
  sym, ◌∙◌, ap, subst, arith,
}
use entity_resolution_engine.Base.Dict.{Dict, keys, get, put, get-put_self, get-put_ne}
use entity_resolution_engine.Base.Dict.Distinct.{DistinctKeys, get_nil, put-new, put-All}
use entity_resolution_engine.Model.Errors.{ok, >>=-eq-ok, ok-injective}
use entity_resolution_engine.Rdf.{Rdf, EntityTypeConfig}
use entity_resolution_engine.Rdf.Mappings.{
  TypeMapping, MappingFile, resolve_prefixed_uri, resolve_path, load_fields, load_type, load_types,
  load_entity_mappings,
}

keys-append : {V : Type 0} (d e : Dict String V) → keys (d ++ e) ≡ keys d ++ keys e
keys-append [] e = refl
keys-append (x ∷ d) e = ap (λ ks. x.0 ∷ ks) (keys-append d e)

-- Whether a key comes twice depends on the keys alone.
All-keys :
    {V W : Type 0} (k : String) (d : Dict String V) (e : Dict String W)
    → keys d ≡ keys e
    → All (λ x. k ≢ x.0) e
    → All (λ x. k ≢ x.0) d
All-keys k [] e same h = tt
All-keys k (x ∷ d) [] same h = absurd (ground arith)
All-keys k (x ∷ d) (y ∷ e) same (h, hs) = (
  subst (λ z. k ≢ z) (sym (head-eq_of_cons-eq same)) h,
  All-keys k d e (tail-eq_of_cons-eq same) hs,
)

DistinctKeys-keys :
    {V W : Type 0} (d : Dict String V) (e : Dict String W)
    → keys d ≡ keys e
    → DistinctKeys e
    → DistinctKeys d
DistinctKeys-keys [] e same h = tt
DistinctKeys-keys (x ∷ d) [] same h = absurd (ground arith)
DistinctKeys-keys (x ∷ d) (y ∷ e) same (apart, h) = (
  All-keys x.0 d e (tail-eq_of_cons-eq same)
      (subst (λ z. All (λ f. z ≢ f.0) e) (sym (head-eq_of_cons-eq same)) apart),
  DistinctKeys-keys d e (tail-eq_of_cons-eq same) h,
)

module _ (R : Rdf) (uri_ref : String → R.Node) (term : String → String → R.Node)
    (registry : Dict String String) where
  load_fields-keys :
      (fields : Dict String (Option String)) (acc : Dict String (Option (List R.Node)))
      {r : Dict String (Option (List R.Node))}
      → DistinctKeys fields
      → All (λ e. get String-discrete e.0 acc ≡ none) fields
      → load_fields R uri_ref term registry fields acc ≡ ok r
      → keys r ≡ keys acc ++ keys fields
  unfolding load_fields
  load_fields-keys [] acc d new h = ap keys (sym (ok-injective h)) ∙ sym (append-nil (keys acc))
  load_fields-keys ((field, path) ∷ fields) acc (apart, d) (here, new) h =
      let (steps, resolved, h₁) = >>=-eq-ok (resolve_path R uri_ref term path registry) _ h in
      load_fields-keys fields (put String-discrete field steps acc) d
        (put-All field steps acc fields apart new) h₁
      ∙ ap (λ x. keys x ++ keys fields) (put-new field steps acc here)
      ∙ ap (λ x. x ++ keys fields) (keys-append acc ((field, steps) ∷ []))
      ∙ append_assoc (keys acc) (field ∷ []) (keys fields)

  -- The configuration of a type has the fields of its mapping, in their order.
  abbrev pub Configures : TypeMapping → EntityTypeConfig R → Type 0
  Configures mapping config =
      (keys config.fields ≡ keys mapping.fields) × DistinctKeys config.fields

  load_type-Configures :
      (mapping : TypeMapping) {config : EntityTypeConfig R}
      → DistinctKeys mapping.fields
      → load_type R uri_ref term registry mapping ≡ ok config
      → Configures mapping config
  unfolding load_type
  load_type-Configures mapping {config} d h =
      let (rdf_type, typed, h₁) =
        >>=-eq-ok (resolve_prefixed_uri R uri_ref term mapping.rdf_type registry) _ h in
      let (fields, loaded, h₂) =
        >>=-eq-ok (load_fields R uri_ref term registry mapping.fields []) _ h₁ in
      let same : keys fields ≡ keys mapping.fields =
        load_fields-keys mapping.fields [] d
          (All-always (λ e. get String-discrete e.0 [] ≡ none) (λ e. get_nil e.0) mapping.fields)
          loaded in
      subst (Configures mapping) (ok-injective h₂)
        (same, DistinctKeys-keys fields mapping.fields same d)

  load_types-keeps :
      (types : Dict String TypeMapping) (acc : Dict String (EntityTypeConfig R))
      {r : Dict String (EntityTypeConfig R)} (k : String) {c : EntityTypeConfig R}
      → All (λ e. k ≢ e.0) types
      → get String-discrete k acc ≡ some c
      → load_types R uri_ref term registry types acc ≡ ok r
      → get String-discrete k r ≡ some c
  unfolding load_types
  load_types-keeps [] acc k {c} apart there h =
      subst (λ r. get String-discrete k r ≡ some c) (ok-injective h) there
  load_types-keeps ((t, mapping) ∷ types) acc k (other, apart) there h =
      let (config, loaded, h₁) = >>=-eq-ok (load_type R uri_ref term registry mapping) _ h in
      load_types-keeps types (put String-discrete t config acc) k apart
        (get-put_ne String-discrete t k config acc (λ e. other (sym e)) ∙ there) h₁

  load_types-Configures :
      (types : Dict String TypeMapping) (acc : Dict String (EntityTypeConfig R))
      {r : Dict String (EntityTypeConfig R)}
      → DistinctKeys types
      → All (λ e. DistinctKeys e.1.fields) types
      → load_types R uri_ref term registry types acc ≡ ok r
      → All
          (λ e.
            (config : EntityTypeConfig R) × (get String-discrete e.0 r ≡ some config)
            × Configures e.1 config)
          types
  unfolding load_types
  load_types-Configures [] acc d fields h = tt
  load_types-Configures ((t, mapping) ∷ types) acc (apart, d) (one, fields) h =
      let (config, loaded, h₁) = >>=-eq-ok (load_type R uri_ref term registry mapping) _ h in
      (
        (
          config,
          load_types-keeps types (put String-discrete t config acc) t apart
              (get-put_self String-discrete t config acc) h₁,
          load_type-Configures mapping one loaded,
        ),
        load_types-Configures types (put String-discrete t config acc) d fields h₁,
      )

-- From a file in which no type and no field of a type comes twice, every type is loaded, with exactly
-- the fields of its mapping, in their order, none of them twice.
pub load_entity_mappings-Configures :
    (R : Rdf) (uri_ref : String → R.Node) (term : String → String → R.Node) (file : MappingFile)
    {r : Dict String (EntityTypeConfig R)}
    → DistinctKeys file.entity_types
    → All (λ e. DistinctKeys e.1.fields) file.entity_types
    → load_entity_mappings R uri_ref term file ≡ ok r
    → All
        (λ e.
          (config : EntityTypeConfig R) × (get String-discrete e.0 r ≡ some config)
          × Configures R uri_ref term file.namespaces e.1 config)
        file.entity_types
unfolding load_entity_mappings
load_entity_mappings-Configures R uri_ref term file d fields h =
    load_types-Configures R uri_ref term file.namespaces file.entity_types [] d fields h
