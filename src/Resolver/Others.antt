-- ===== src/Resolver/Others.antt =====
-- {link.other(mention_id) for link in links} in `EntityResolver._gen_cand`
-- (src/ere/services/entity_resolution_service.py).
use entity_resolution_engine.Base.{List, [], ◌∷◌}
use entity_resolution_engine.Model.Errors.{Result, ok, ◌>>=◌}
use entity_resolution_engine.Model.Mentions.{MentionId}
use entity_resolution_engine.Model.Links.{MentionLink, other}

unfoldable pub others : MentionId → List MentionLink → Result (List MentionId)
unfolding other
others m [] = ok []
others m (l ∷ ls) = do o ← other l m; os ← others m ls; ok (o ∷ os)
