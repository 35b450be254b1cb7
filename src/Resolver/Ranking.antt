-- ===== src/Resolver/Ranking.antt =====
-- Ranking of candidate clusters and choice of links: `_find_best_match`, `_rank_candidates` and
-- `_best_links` of `EntityResolver` (src/ere/services/entity_resolution_service.py).
pub mod Scores
pub mod Results
pub mod Attained
pub mod Choice
use entity_resolution_engine.Base.{ℕ, Option, none, some, List, [], ◌∷◌, map, take, max}
use entity_resolution_engine.Base.Dict.{Dict, get, put}
use entity_resolution_engine.Base.Ranked.{sort_desc, nlargest, max_by}
use entity_resolution_engine.Model.Errors.{Result, ok, ◌>>=◌}
use entity_resolution_engine.Model.Mentions.{
  MentionId, ClusterId, MentionId-discrete, ClusterId-discrete,
}
use entity_resolution_engine.Model.Links.{Score, MentionLink, other}
use entity_resolution_engine.Model.Clusters.{CandidateCluster, ResolutionResult, resolution_result}

abbrev pub score_of : MentionLink → Score
score_of l = l.score

-- EntityResolver._find_best_match
unfoldable pub find_best_match : List MentionLink → MentionId → Result (Option MentionId × Score)
unfolding max_by other
find_best_match [] m = ok (none, 0)
find_best_match (l ∷ ls) m =
    let best = max_by score_of l ls in do best_id ← other best m; ok (some best_id, best.score)

-- cluster_scores[cid] = max(cluster_scores.get(cid, 0.0), score), if the cluster is known
unfoldable pub raise_score : Option ClusterId → Score → Dict ClusterId Score → Dict ClusterId Score
unfolding get put
raise_score none s d = d
raise_score (some c) s d =
    put ClusterId-discrete c
      (max (elim (get ClusterId-discrete c d) [ none ↦ 0 | some old ↦ old ]) s) d

-- the loop over the links
unfoldable pub score_clusters :
    MentionId
    → Dict MentionId ClusterId
    → List MentionLink
    → Dict ClusterId Score
    → Result (Dict ClusterId Score)
unfolding other raise_score
score_clusters m linked [] d = ok d
score_clusters m linked (l ∷ ls) d = do
  other_id ← other l m
  score_clusters m linked ls (raise_score (get MentionId-discrete other_id linked) l.score d)

-- cluster_scores.setdefault(own_cluster_id, 0.0)
unfoldable pub set_default : ClusterId → Dict ClusterId Score → Dict ClusterId Score
unfolding get put
set_default c d = elim (get ClusterId-discrete c d) [
  | none ↦ put ClusterId-discrete c 0 d
  | some s ↦ d
]

abbrev pub candidate : ClusterId × Score → CandidateCluster
candidate e = record { cluster_id = e.0; score = e.1 }

abbrev pub entry_score : ClusterId × Score → Score
entry_score e = e.1

-- EntityResolver._rank_candidates
unfoldable pub rank_candidates :
    ℕ
    → MentionId
    → ClusterId
    → List MentionLink
    → Dict MentionId ClusterId
    → Result ResolutionResult
unfolding score_clusters set_default sort_desc resolution_result
rank_candidates top_n m own links linked = do
  scores ← score_clusters m linked links []
  resolution_result (map candidate (take top_n (sort_desc entry_score (set_default own scores))))

-- EntityResolver._best_links
unfoldable pub best_links : ℕ → List MentionLink → List MentionLink
unfolding nlargest
best_links top_n links = nlargest score_of top_n links
