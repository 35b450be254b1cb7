-- ===== src/Tests/Ranks.antt =====
-- A ranking of three links of a mention that lead to two clusters, and the results on rankings
-- applied to it.
use mathlib.Core.HLevel.{⊥_prop}
use mathlib.Core.Logic.Or
use mathlib.Core.List.{Nodup, Mem, mem-cons, not-mem-nil}
use entity_resolution_engine.Base.{
  String-discrete, some, List, [], ◌∷◌, length, ◌≡◌, refl, inl, arith, All, ◌≤◌,
}
use entity_resolution_engine.Base.Dict.{Dict, get, put}
use entity_resolution_engine.Base.Ranked.{IsDescending, IsFirstMax}
use entity_resolution_engine.Model.Errors.{ok}
use entity_resolution_engine.Model.Mentions.{
  MentionId, ClusterId, MentionId-discrete, ClusterId-discrete,
}
use entity_resolution_engine.Model.Links.{MentionLink, Score}
use entity_resolution_engine.Model.Clusters.{ResolutionResult, candidates}
use entity_resolution_engine.Resolver.Ranking.{rank_candidates, score_of, find_best_match}
use entity_resolution_engine.Resolver.Ranking.Scores.{Touches, other_end, score_into, best_score}
use entity_resolution_engine.Resolver.Ranking.Results.{
  ranked_score, cluster_ids, candidate_score, rank_candidates-total, rank_candidates-IsDescending,
  rank_candidates-bounds, rank_candidates-scores, rank_candidates_complete,
}
use entity_resolution_engine.Resolver.Ranking.Choice.{
  find_best_match-IsFirstMax, top-score, top-cluster,
}
use entity_resolution_engine.Tests.Data.{different_cluster, mention_id, cluster_id}

abbrev link : MentionId → Score → MentionLink
link r s = record { left_id = mention_id "m4"; right_id = r; score = s }

abbrev best : MentionLink
best = link (mention_id "m2") 90

abbrev links : List MentionLink
links = link (mention_id "m1") 70 ∷ best ∷ link (mention_id "m3") 60 ∷ []

abbrev linked : Dict MentionId ClusterId
linked =
    (mention_id "m1", cluster_id "m1")
    ∷ (mention_id "m2", cluster_id "m1")
    ∷ (mention_id "m3", cluster_id "m3")
    ∷ []

abbrev own : ClusterId
own = cluster_id "m4"

abbrev ranked_result : ResolutionResult
ranked_result = record {
  top = record { cluster_id = cluster_id "m1"; score = 90 };
  others = record { cluster_id = cluster_id "m3"; score = 60 } ∷ [];
}

touches : All (Touches (mention_id "m4")) links
touches = (inl refl, (inl refl, (inl refl, tt)))

first : IsFirstMax score_of best links
first = record {
  before = link (mention_id "m1") 70 ∷ [];
  after = link (mention_id "m3") 60 ∷ [];
  splits = refl;
  smaller = (omega arith, tt);
  no_larger = (omega arith, tt);
}

-- Two of the three clusters are listed: the own one, which no link leads to, is left out.
ranks :
    (rank_candidates 2 (mention_id "m4") own links linked ≡ ok ranked_result)
    × (ranked_score (mention_id "m4") linked own links own ≡ some 0)
    × (get MentionId-discrete (other_end (mention_id "m4") best) linked ≡ some (cluster_id "m1"))
unfolding rank_candidates String-discrete MentionId-discrete ClusterId-discrete get put other_end
    best_score score_into
ranks = (refl, refl, refl)

unlisted : ¬ Mem own (cluster_ids ranked_result)
unfolding ClusterId-discrete String-discrete
unlisted h = Or.elim ⊥_prop (mem-cons.0 h) (different_cluster own (cluster_id "m1") refl) (λ h'.
    Or.elim ⊥_prop (mem-cons.0 h') (different_cluster own (cluster_id "m3") refl) not-mem-nil)

only_one :
    All
      (λ l.
        l.score ≡ best.score
        → get MentionId-discrete (other_end (mention_id "m4") l) linked ≡ some (cluster_id "m1"))
      links
only_one = (λ e. absurd (omega arith), (λ e. ranks.2, (λ e. absurd (omega arith), tt)))

rank_candidates-total_example :
    (r : ResolutionResult) × (rank_candidates 2 (mention_id "m4") own links linked ≡ ok r)
rank_candidates-total_example =
    rank_candidates-total 2 (mention_id "m4") own links linked touches (omega arith)

rank_candidates-IsDescending_example : IsDescending candidate_score (candidates ranked_result)
rank_candidates-IsDescending_example =
    rank_candidates-IsDescending 2 (mention_id "m4") own links linked touches ranks.0

rank_candidates-bounds_example :
    (length (candidates ranked_result) ≤ 2) × Nodup (cluster_ids ranked_result)
rank_candidates-bounds_example =
    rank_candidates-bounds 2 (mention_id "m4") own links linked touches ranks.0

rank_candidates-scores_example :
    All
      (λ c. ranked_score (mention_id "m4") linked own links c.cluster_id ≡ some c.score)
      (candidates ranked_result)
rank_candidates-scores_example =
    rank_candidates-scores 2 (mention_id "m4") own links linked touches ranks.0

rank_candidates_complete_example : All (λ x. 0 ≤ x.score) (candidates ranked_result)
rank_candidates_complete_example =
    rank_candidates_complete 2 (mention_id "m4") own links linked touches ranks.0 own ranks.1
      unlisted

find_best_match-IsFirstMax_example :
    (m : MentionLink) × IsFirstMax score_of m links
    × Touches (mention_id "m4") m
    × (find_best_match links (mention_id "m4") ≡ ok (some (other_end (mention_id "m4") m), m.score))
find_best_match-IsFirstMax_example =
    find_best_match-IsFirstMax (mention_id "m4") (link (mention_id "m1") 70)
      (best ∷ link (mention_id "m3") 60 ∷ []) touches

top-score_example : ranked_result.top.score ≡ best.score
top-score_example =
    top-score 2 (mention_id "m4") own links linked touches first (cluster_id "m1") ranks.2 ranks.0

top-cluster_example : ranked_result.top.cluster_id ≡ cluster_id "m1"
top-cluster_example =
    top-cluster 2 (mention_id "m4") own links linked touches first (cluster_id "m1") ranks.2 ranks.0
      (omega arith) only_one
