-- ===== src/Repositories/Reading.antt =====
-- What is saved is read back: `save` and `find_by_id` of DuckDBMentionRepository
-- (src/ere/adapters/duckdb_repositories.py).
use mathlib.Core.List.{append-nil, append_assoc}
use mathlib.Core.Logic.{if_pos, if_neg}
use entity_resolution_engine.Base.{
  ◌+◌, String, String-discrete, Option, none, some, List, [], ◌∷◌, ◌++◌, map, zip, not_same, All,
  All-weaken, ◌≡◌, ◌≢◌, refl, sym, ◌∙◌, ap, arith,
}
use entity_resolution_engine.Base.Dict.{keys, get, put}
use entity_resolution_engine.Base.Dict.Distinct.{
  DistinctKeys, DistinctKeys-entries, put-new, put-All,
}
use entity_resolution_engine.Model.Errors.{Attributes, ok, ◌>>=◌}
use entity_resolution_engine.Model.Mentions.{
  MentionId, Mention, Value-discrete, update, to_flat_dict, without, with_id, flat_unless_id,
  from_flat_dict,
}
use entity_resolution_engine.World.{World, Platform, MentionRow, ◌>>◌, select, insert, lift, tick}
use entity_resolution_engine.World.Steps.{>>=-of_ok, call-of_sound}
use entity_resolution_engine.Repositories.Rows.{
  column, mention_row, row_dict, mention_of, rows_of, first_mention,
}
use entity_resolution_engine.Repositories.Mentions.{save, find_by_id}

update-append :
    (d e : Attributes)
    → DistinctKeys e
    → All (λ x. get String-discrete x.0 d ≡ none) e
    → update d e ≡ d ++ e
unfolding update
update-append d [] h new = sym (append-nil d)
update-append d ((k, v) ∷ e) (apart, h) (here, new) =
    update-append (put String-discrete k v d) e h (put-All k v d e apart new)
    ∙ ap (λ x. x ++ e) (put-new k v d here)
    ∙ append_assoc d ((k, v) ∷ []) e

-- the attributes behind the id, when no attribute is called as the id is
get_only :
    (k : String) (v : Option String) (e : Attributes)
    → All (λ x. k ≢ x.0) e
    → All (λ x. get String-discrete x.0 ((k, v) ∷ []) ≡ none) e
unfolding get
get_only k v e apart =
    All-weaken (λ x. k ≢ x.0) (λ x. get String-discrete x.0 ((k, v) ∷ []) ≡ none)
      (λ x d. if_neg (String-discrete k x.0) d (some v) none) e apart

column_at :
    (k : String) (d : Attributes) {v : Option String}
    → get String-discrete k d ≡ some v
    → column k d ≡ v
unfolding column
column_at k d h = ap (λ (g : Option (Option String)). elim g [ none ↦ none | some w ↦ w ]) h

columns-eq :
    (d e : Attributes)
    → All (λ x. get String-discrete x.0 d ≡ some x.1) e
    → map (λ f. column f d) (keys e) ≡ map (λ x. x.1) e
columns-eq d [] h = refl
columns-eq d ((k, v) ∷ e) (h, hs) =
    ap (λ c. c ∷ map (λ f. column f d) (keys e)) (column_at k d h)
    ∙ ap (λ l. v ∷ l) (columns-eq d e hs)

zip-keys : (d : Attributes) → zip (keys d) (map (λ x. x.1) d) ≡ d
zip-keys [] = refl
zip-keys ((k, v) ∷ d) = ap (λ e. (k, v) ∷ e) (zip-keys d)

rows_of-last :
    (m : MentionId) (rows : List MentionRow) (r : MentionRow)
    → rows_of m rows ≡ []
    → r.mention_id ≡ some m.value
    → rows_of m (rows ++ r ∷ []) ≡ r ∷ []
unfolding rows_of
rows_of-last m [] r none_yet same =
    if_pos (Value-discrete r.mention_id (some m.value)) same (r ∷ []) []
rows_of-last m (x ∷ rows) r none_yet same = elim (Value-discrete x.mention_id (some m.value)) [
  | yes p ↦ absurd (kept_one (if_pos (Value-discrete x.mention_id (some m.value)) p _ _) none_yet)
  | no d ↦
      if_neg (Value-discrete x.mention_id (some m.value)) d _ _
      ∙ rows_of-last m rows r
          (sym (if_neg (Value-discrete x.mention_id (some m.value)) d _ _) ∙ none_yet) same
]
  where
    kept_one : {y : MentionRow} {ys zs : List MentionRow} → zs ≡ y ∷ ys → zs ≡ [] → ⊥
    kept_one e f = ground arith

-- The attributes of a mention that has the configured fields and no other, none of them called
-- "mention_id" or "id".
pub record HasFields (fields : List String) (m : Mention) : Type 0 where
  pub named : keys m.attributes ≡ fields
  pub no_id : All (λ x. "id" ≢ x.0) m.attributes
  pub distinct : DistinctKeys (("mention_id", some m.id.value) ∷ m.attributes)

to_flat_dict-eq :
    (fields : List String) (m : Mention)
    → HasFields fields m
    → to_flat_dict m ≡ ("mention_id", some m.id.value) ∷ m.attributes
unfolding to_flat_dict
to_flat_dict-eq fields m h =
    update-append (("mention_id", some m.id.value) ∷ []) m.attributes h.distinct.1
      (get_only "mention_id" (some m.id.value) m.attributes h.distinct.0)

-- no entry is called as the key is
get-absent : (k : String) (e : Attributes) → All (λ x. k ≢ x.0) e → get String-discrete k e ≡ none
unfolding get
get-absent k [] h = refl
get-absent k ((j, v) ∷ e) (d, h) =
    if_neg (String-discrete j k) (λ p. d (sym p)) (some v) (get String-discrete k e)
    ∙ get-absent k e h

without-absent : (k : String) (e : Attributes) → All (λ x. k ≢ x.0) e → without k e ≡ e
unfolding without
without-absent k [] h = refl
without-absent k ((j, v) ∷ e) (d, h) =
    if_neg (String-discrete j k) (λ p. d (sym p)) (without k e) ((j, v) ∷ without k e)
    ∙ ap (λ l. (j, v) ∷ l) (without-absent k e h)

-- a flat dict of an id and attributes is read as the mention with these
from_flat_dict-eq :
    (id : String) (e : Attributes)
    → All (λ x. "id" ≢ x.0) (("mention_id", some id) ∷ e)
    → All (λ x. "mention_id" ≢ x.0) e
    → from_flat_dict (("mention_id", some id) ∷ e)
      ≡ ok (record { id = record { value = id }; attributes = e })
unfolding from_flat_dict flat_unless_id with_id get without
from_flat_dict-eq id e no_id apart =
    let d : Attributes = ("mention_id", some id) ∷ e in
    ap (λ g. flat_unless_id g d) (get-absent "id" d no_id)
    ∙ ap (λ g. with_id g (without "mention_id" d))
        (if_pos (String-discrete "mention_id" "mention_id") refl (some (some id))
          (get String-discrete "mention_id" e))
    ∙ ap (λ a. ok (record { id = record { value = id }; attributes = a }))
        (if_pos (String-discrete "mention_id" "mention_id") refl (without "mention_id" e)
            (("mention_id", some id) ∷ without "mention_id" e)
          ∙ without-absent "mention_id" e apart)

mention_row-read :
    (fields : List String) (m : Mention)
    → HasFields fields m
    → mention_of fields (mention_row fields m) ≡ ok m
unfolding mention_of row_dict mention_row String-discrete
mention_row-read fields m h =
    let d : Attributes = ("mention_id", some m.id.value) ∷ m.attributes in
    let flat : to_flat_dict m ≡ d = to_flat_dict-eq fields m h in
    let entries = DistinctKeys-entries d h.distinct in
    let columns : zip fields (map (λ f. column f (to_flat_dict m)) fields) ≡ m.attributes =
      ap (zip fields) (
        ap (λ x. map (λ f. column f x) fields) flat
        ∙ ap (λ fs. map (λ f. column f d) fs) (sym h.named)
        ∙ columns-eq d m.attributes entries.1)
      ∙ ap (λ fs. zip fs (map (λ x. x.1) m.attributes)) (sym h.named)
      ∙ zip-keys m.attributes in
    ap
      (λ i. from_flat_dict (
        update (("mention_id", i) ∷ []) (zip fields (map (λ f. column f (to_flat_dict m)) fields))))
      (ap (column "mention_id") flat ∙ column_at "mention_id" d entries.0)
    ∙ ap (λ e. from_flat_dict (update (("mention_id", some m.id.value) ∷ []) e)) columns
    ∙ ap from_flat_dict (unfold to_flat_dict in flat)
    ∙ from_flat_dict-eq m.id.value m.attributes (not_same "id" "mention_id" refl, h.no_id)
        h.distinct.0

mention_row-id :
    (fields : List String) (m : Mention)
    → HasFields fields m
    → (mention_row fields m).mention_id ≡ some m.id.value
unfolding mention_row
mention_row-id fields m h =
    ap (column "mention_id") (to_flat_dict-eq fields m h)
    ∙ column_at "mention_id" (("mention_id", some m.id.value) ∷ m.attributes)
        (DistinctKeys-entries (("mention_id", some m.id.value) ∷ m.attributes) h.distinct).0

first_mention-read :
    (fields : List String) (m : Mention)
    → HasFields fields m
    → first_mention fields (mention_row fields m ∷ []) ≡ ok (some m)
unfolding first_mention
first_mention-read fields m h = ap (λ r. r >>= λ x. ok (some x)) (mention_row-read fields m h)

-- A mention that has exactly the configured fields, none of them called "mention_id" or "id", and that is not
-- stored yet, is found by its id as it was, once it is saved, if the database does not fail.
pub save-find_by_id :
    (P : Platform) (fields : List String) (m : Mention) (w : World)
    → HasFields fields m
    → rows_of m.id w.tables.mentions ≡ []
    → P.fault w.calls ≡ none
    → P.fault (w.calls + 1) ≡ none
    → ((save P fields m >> find_by_id P fields m.id) w).0 ≡ ok (some m)
unfolding save find_by_id insert select lift
save-find_by_id P fields m w h new sound sound' =
    let row = mention_row fields m in
    let saved =
      call-of_sound P (λ w. tt) (λ w. record w.tables { mentions = w.tables.mentions ++ row ∷ [] })
        w sound in
    let w' : World = record (tick w) {
      tables = record w.tables { mentions = w.tables.mentions ++ row ∷ [] };
    } in
    let read = call-of_sound P (λ w. rows_of m.id w.tables.mentions) (λ w. w.tables) w' sound' in
    ap (λ r. r.0) (>>=-of_ok (save P fields m) (λ u. find_by_id P fields m.id) w saved)
    ∙ ap (λ r. r.0)
        (>>=-of_ok (select P (λ t. rows_of m.id t.mentions))
          (λ found. lift (first_mention fields found)) w' read)
    ∙ ap (first_mention fields)
        (rows_of-last m.id w.tables.mentions row new (mention_row-id fields m h))
    ∙ first_mention-read fields m h
