-- ===== src/Schema/Initialised.antt =====
-- What `init_schema` leaves (src/ere/adapters/duckdb_schema.py).
use entity_resolution_engine.Base.{
  String, Option, none, some, List, [], ◌∷◌, ◌++◌, Bool, true, false, not, ◌&&◌, if◌then◌else◌,
  contains, contains_of_OneOf, OneOf, OneOf-of_contains, ◌≡◌, ◌≢◌, ◌⊎◌, refl, sym, ◌∙◌, ap, subst,
  All, All-weaken, inl, inr, arith,
}
use entity_resolution_engine.Model.Errors.{
  Exception, Result, ok, raise, ◌>>=◌, >>=-eq-ok, ok-injective,
}
use entity_resolution_engine.Schema.{
  Schema, normalised_columns, present, missing, is_empty, columns_of, refuse_outdated_mentions,
  create_mentions, create_tables, init_schema,
}

missing_cons-none :
    (c : String) (cs existing : List String) (there : Bool)
    → contains c existing ≡ there
    → (if there then missing cs existing else c ∷ missing cs existing) ≡ []
    → (missing cs existing ≡ [] → All (λ c. OneOf c existing) cs)
    → All (λ c. OneOf c existing) (c ∷ cs)
missing_cons-none c cs existing true e h rest = (OneOf-of_contains c existing e, rest h)
missing_cons-none c cs existing false e h rest = absurd (ground arith)

-- If no column is missing, each is there.
missing-none :
    (cs existing : List String) → missing cs existing ≡ [] → All (λ c. OneOf c existing) cs
unfolding missing
missing-none [] existing h = tt
missing-none (c ∷ cs) existing h =
    missing_cons-none c cs existing (contains c existing) refl h (λ e. missing-none cs existing e)

OneOf-right : (c : String) (xs ys : List String) → OneOf c ys → OneOf c (xs ++ ys)
OneOf-right c [] ys h = h
OneOf-right c (x ∷ xs) ys h = inr (OneOf-right c xs ys h)

OneOf-self : (xs : List String) → All (λ c. OneOf c xs) xs
OneOf-self [] = tt
OneOf-self (x ∷ xs) = (
  inl refl,
  All-weaken (λ c. OneOf c xs) (λ c. OneOf c (x ∷ xs)) (λ c h. inr h) xs (OneOf-self xs),
)

is_empty-nil : (xs : List String) → is_empty xs ≡ true → xs ≡ []
is_empty-nil [] h = refl
is_empty-nil (x ∷ xs) h = absurd (ground arith)

refuse-ok :
    (s : Schema) (normalised : List String) {u : Unit {0}}
    → refuse_outdated_mentions s normalised ≡ ok u
    → (columns_of s.mentions ≡ [])
      ⊎ All (λ c. OneOf c (columns_of s.mentions)) (normalised_columns normalised)
unfolding refuse_outdated_mentions
refuse-ok s normalised h =
    refused-not (is_empty (columns_of s.mentions))
      (is_empty (missing (normalised_columns normalised) (columns_of s.mentions))) refl refl h
  where
    refused-not :
        (a b : Bool) {u : Unit {0}}
        → is_empty (columns_of s.mentions) ≡ a
        → is_empty (missing (normalised_columns normalised) (columns_of s.mentions)) ≡ b
        → (if not a && not b
            then raise (Exception.other "OutdatedSchemaError" "The mentions table lacks columns")
            else ok tt)
          ≡ ok u
        → (columns_of s.mentions ≡ [])
          ⊎ All (λ c. OneOf c (columns_of s.mentions)) (normalised_columns normalised)
    refused-not true b e e' h = inl (is_empty-nil (columns_of s.mentions) e)
    refused-not false true e e' h = inr (
        missing-none (normalised_columns normalised) (columns_of s.mentions)
          (is_empty-nil (missing (normalised_columns normalised) (columns_of s.mentions)) e'))
    refused-not false false e e' h = absurd (ground arith)

missing-of_All :
    (cs existing : List String) → All (λ c. OneOf c existing) cs → missing cs existing ≡ []
unfolding missing
missing-of_All [] existing h = refl
missing-of_All (c ∷ cs) existing h =
    ap (λ b. if b then missing cs existing else c ∷ missing cs existing)
      (contains_of_OneOf c existing h.0)
    ∙ missing-of_All cs existing h.1

refuse-passes :
    (s : Schema) (normalised : List String)
    → All (λ c. OneOf c (columns_of s.mentions)) (normalised_columns normalised)
    → refuse_outdated_mentions s normalised ≡ ok tt
unfolding refuse_outdated_mentions
refuse-passes s normalised h =
    ap
      (λ m.
        if not (is_empty (columns_of s.mentions)) && not (is_empty m)
        then raise (Exception.other "OutdatedSchemaError" "The mentions table lacks columns")
        else ok tt)
      (missing-of_All (normalised_columns normalised) (columns_of s.mentions) h)
    ∙ last (is_empty (columns_of s.mentions))
  where
    last :
        (b : Bool)
        → ◌≡◌ {A = Result (Unit {0})}
            (if not b && false
              then raise (Exception.other "OutdatedSchemaError" "The mentions table lacks columns")
              else ok tt)
            (ok tt)
    last true = refl
    last false = refl

module _ (s : Schema) (entity_fields normalised_fields : List String) where
  -- the normalised columns that are to be stored
  abbrev stored : List String
  stored = normalised_columns (present normalised_fields entity_fields)

  created-All :
      (m : Option (List String))
      → m ≢ some []
      → (columns_of m ≡ []) ⊎ All (λ c. OneOf c (columns_of m)) stored
      → (cs : List String) × (create_mentions ("mention_id" ∷ entity_fields ++ stored) m ≡ some cs)
        × All (λ c. OneOf c cs) stored
  unfolding create_mentions
  created-All none full h = (
    _,
    refl,
    All-weaken (λ c. OneOf c stored) (λ c. OneOf c ("mention_id" ∷ entity_fields ++ stored))
        (λ c i. inr (OneOf-right c entity_fields stored i)) stored (OneOf-self stored),
  )
  created-All (some cs) full (inl empty) = absurd (full (ap some empty))
  created-All (some cs) full (inr all) = (cs, refl, all)

  created_keeps :
      (m : Option (List String)) {cs : List String}
      → m ≡ some cs
      → create_mentions ("mention_id" ∷ entity_fields ++ stored) m ≡ m
  unfolding create_mentions
  created_keeps none h = absurd (ground arith)
  created_keeps (some cs) h = refl

  -- A database that is accepted has a table of mentions with a normalised column for each normalised
  -- field that is an entity field, and a table that was there is left as it was. When it is
  -- opened again with the same fields it is accepted again, and its table of mentions stays the same.
  pub init_schema-columns :
      {s' : Schema}
      → s.mentions ≢ some []
      → init_schema s entity_fields normalised_fields ≡ ok s'
      → ((cs : List String) × (s'.mentions ≡ some cs) × All (λ c. OneOf c cs) stored)
        × ((cs : List String) → s.mentions ≡ some cs → s'.mentions ≡ s.mentions)
        × ((s'' : Schema) × (init_schema s' entity_fields normalised_fields ≡ ok s'')
            × (s''.mentions ≡ s'.mentions))
  unfolding init_schema create_tables
  init_schema-columns {s'} full h =
      let (u, passed, h₁) =
        >>=-eq-ok (refuse_outdated_mentions s (present normalised_fields entity_fields)) _ h in
      let is : s'.mentions ≡ create_mentions ("mention_id" ∷ entity_fields ++ stored) s.mentions =
        ap (λ x. x.mentions) (sym (ok-injective h₁)) in
      let (cs, made, all) =
        created-All s.mentions full
          (refuse-ok s (present normalised_fields entity_fields) passed) in
      let columns : s'.mentions ≡ some cs = is ∙ made in
      let passes =
        refuse-passes s' (present normalised_fields entity_fields)
          (subst (λ m. All (λ c. OneOf c (columns_of m)) stored) (sym columns) all) in
      (
        (cs, columns, all),
        λ cs' was. is ∙ created_keeps s.mentions was,
        (
          create_tables s' (entity_fields ++ stored),
          ap (λ r. r >>= λ u. ok (create_tables s' (entity_fields ++ stored))) passes,
          created_keeps s'.mentions columns,
        ),
      )
