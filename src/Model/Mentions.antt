-- ===== src/Model/Mentions.antt =====
-- Identifiers and mentions (src/ere/models/resolver/ids.py and mention.py).
use entity_resolution_engine.Base.{
  String, String-discrete, Option, none, some, [], ◌∷◌, refl, ap, Bool, true, false, ◌&&◌, length,
  ◌==◌, ite,
}
use entity_resolution_engine.Base.Dict.{get, put}
use entity_resolution_engine.Model.Errors.{Attributes, Result, ok, raise, value_error}

pub record MentionId : Type 0 where
  pub value : String

pub record ClusterId : Type 0 where
  pub value : String

unfoldable pub MentionId-discrete : Discrete MentionId
unfolding String-discrete
MentionId-discrete m n = elim (String-discrete m.value n.value) [
  | yes p ↦ yes (λ i. record { value = p i })
  | no q ↦ no (λ e. q (ap (λ (x : MentionId). x.value) e))
]

unfoldable pub ClusterId-discrete : Discrete ClusterId
unfolding String-discrete
ClusterId-discrete m n = elim (String-discrete m.value n.value) [
  | yes p ↦ yes (λ i. record { value = p i })
  | no q ↦ no (λ e. q (ap (λ (x : ClusterId). x.value) e))
]

unfoldable pub Value-discrete : Discrete (Option String)
unfolding String-discrete
Value-discrete none none = yes refl
Value-discrete none (some t) = no (λ e. cc)
Value-discrete (some s) none = no (λ e. cc)
Value-discrete (some s) (some t) = elim (String-discrete s t) [
  | yes p ↦ yes (ap some p)
  | no q ↦ no (λ e. q (cc))
]

pub record Mention : Type 0 where
  pub id : MentionId
  pub attributes : Attributes

-- {**d, **e}
unfoldable pub update : Attributes → Attributes → Attributes
update d [] = d
update d ((k, v) ∷ e) = update (put String-discrete k v d) e

-- {"mention_id": self.id.value, **self.attributes}
unfoldable pub to_flat_dict : Mention → Attributes
unfolding update
to_flat_dict m = update (("mention_id", some m.id.value) ∷ []) m.attributes

-- {k: v for k, v in raw_input.items() if k != key}
unfoldable pub without : String → Attributes → Attributes
without key [] = []
without key ((k, v) ∷ d) = ite (String-discrete k key) (without key d) ((k, v) ∷ without key d)

-- id=MentionId(value=raw_input["mention_id"])
unfoldable pub with_id : Option (Option String) → Attributes → Result Mention
with_id (some (some id)) attributes =
    ok (record { id = record { value = id }; attributes = attributes })
with_id _ attributes = raise (value_error "ValidationError" "mention id is not a string")

-- `_from_flat_dict`, by whether there is a key "id": such a dict is taken as it is, and refused, since a
-- text is no `MentionId`
unfoldable pub flat_unless_id : Option (Option String) → Attributes → Result Mention
unfolding without with_id
flat_unless_id (some v) d = raise (value_error "ValidationError" "id is not a MentionId")
flat_unless_id none d = with_id (get String-discrete "mention_id" d) (without "mention_id" d)

-- Mention(**raw_input), on a flat dict
unfoldable pub from_flat_dict : Attributes → Result Mention
unfolding flat_unless_id
from_flat_dict d = flat_unless_id (get String-discrete "id" d) d

-- every entry of `a` is an entry of `b`
unfoldable pub is_subset : Attributes → Attributes → Bool
is_subset [] b = true
is_subset ((k, v) ∷ a) b = elim (get String-discrete k b) [
  | none ↦ false
  | some w ↦ ite (Value-discrete v w) true false && is_subset a b
]

-- `==` of two dicts, which does not look at the order of their entries
unfoldable pub same_attributes : Attributes → Attributes → Bool
unfolding is_subset
same_attributes a b = length a == length b && is_subset a b
