-- ===== src/Model/Links.antt =====
-- Scored links between mentions (src/ere/models/resolver/similarity.py).
use entity_resolution_engine.Base.{
  ℕ, String, List, [], ◌∷◌, ◌&&◌, length, ◌==◌, if◌then◌else◌, ite, leb, Bool,
}
use entity_resolution_engine.Model.Errors.{Result, ok, raise, value_error, ◌>>=◌}
use entity_resolution_engine.Model.Mentions.{MentionId, MentionId-discrete}

abbrev pub Score : Type 0
Score = ℕ

-- A value of the class is built by `mention_link`, which checks its invariant.
pub record MentionLink : Type 0 where
  pub left_id : MentionId
  pub right_id : MentionId
  pub score : Score

-- MentionLink(left_id=..., right_id=..., score=...) with `_validate_ids_differ`
unfoldable pub mention_link : MentionId → MentionId → Score → Result MentionLink
mention_link l r s =
    ite (MentionId-discrete l r)
      (raise (value_error "ValidationError" "left_id and right_id must differ"))
      (ok (record { left_id = l; right_id = r; score = s }))

-- MentionLink.other
unfoldable pub other : MentionLink → MentionId → Result MentionId
other link from_id = ite (MentionId-discrete from_id link.left_id) (ok link.right_id) (
    ite (MentionId-discrete from_id link.right_id) (ok link.left_id)
      (raise (value_error "ValueError" "from_id is not part of this link")))

-- MentionLink.meets_threshold
unfoldable pub meets_threshold : MentionLink → Score → Bool
meets_threshold link threshold = leb threshold link.score

pub record LinkTable : Type 0 where
  pub left_ids : List String
  pub right_ids : List String
  pub scores : List Score

-- LinkTable(...) with `__post_init__`
unfoldable pub link_table : List String → List String → List Score → Result LinkTable
link_table ls rs ss =
    if length ls == length rs && length rs == length ss
    then ok (record { left_ids = ls; right_ids = rs; scores = ss })
    else raise (value_error "ValueError" "LinkTable columns must have equal length")

pub record Row : Type 0 where
  pub left : String
  pub right : String
  pub score : Score

-- zip(self.left_ids, self.right_ids, self.scores)
unfoldable pub zip_rows : List String → List String → List Score → List Row
zip_rows (l ∷ ls) (r ∷ rs) (s ∷ ss) = record { left = l; right = r; score = s } ∷ zip_rows ls rs ss
zip_rows _ _ _ = []

unfoldable pub rows : LinkTable → List Row
unfolding zip_rows
rows t = zip_rows t.left_ids t.right_ids t.scores

links_for_rows : MentionId → List Row → Result (List MentionLink)
links_for_rows m [] = ok []
links_for_rows m (r ∷ rs) =
    let rest = links_for_rows m rs in
    ite (MentionId-discrete (record { value = r.left }) m)
      (do
        link ← mention_link m (record { value = r.right }) r.score
        links ← rest
        ok (link ∷ links))
      rest

-- LinkTable.links_for
unfoldable pub links_for : LinkTable → MentionId → Result (List MentionLink)
unfolding links_for_rows rows mention_link
links_for t m = links_for_rows m (rows t)
