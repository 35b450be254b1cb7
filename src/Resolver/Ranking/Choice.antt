-- ===== src/Resolver/Ranking/Choice.antt =====
-- The best link of a mention, against its ranking: `_find_best_match`, `_best_links` and the first
-- candidate.
use mathlib.Core.HLevel.{Π_prop}
use mathlib.Core.List.{dec_mem, exists_of_mem-map}
use mathlib.Core.Logic.{∥∥₁_elim}
use mathlib.Core.Option.{some-injective}
use native.Mathlib.Bridge.{le_prop}
use entity_resolution_engine.Base.{
  ℕ, ◌≤◌, ◌<◌, Option, none, some, List, ◌∷◌, ◌≡◌, refl, ap, sym, ◌∙◌, subst, arith, All, All-right,
  All-append, All-weaken, All-both, All-mem,
}
use entity_resolution_engine.Base.Dict.{Dict, get}
use entity_resolution_engine.Base.Ranked.{max_by, IsFirstMax, max_by-IsFirstMax}
use entity_resolution_engine.Model.Errors.{ok}
use entity_resolution_engine.Model.Mentions.{
  MentionId, ClusterId, MentionId-discrete, ClusterId-discrete,
}
use entity_resolution_engine.Model.Links.{Score, MentionLink}
use entity_resolution_engine.Model.Clusters.{CandidateCluster, ResolutionResult, candidates}
use entity_resolution_engine.Resolver.Ranking.{score_of, find_best_match, rank_candidates}
use entity_resolution_engine.Resolver.Ranking.Scores.{
  Touches, other_end, other-eq-other_end, best_score, with_own,
}
use entity_resolution_engine.Resolver.Ranking.Results.{
  ranked_score, cluster_ids, rank_candidates-scores, rank_candidates_complete,
  rank_candidates-IsDescending,
}
use entity_resolution_engine.Resolver.Ranking.Attained.{
  attained, reaches, into-score, into-cluster, into_of_cluster,
}

-- The best match is the first of the links with the largest score, seen from the mention.
pub find_best_match-IsFirstMax :
    (m : MentionId) (l : MentionLink) (ls : List MentionLink)
    → All (Touches m) (l ∷ ls)
    → (best : MentionLink) × IsFirstMax score_of best (l ∷ ls)
      × Touches m best
      × (find_best_match (l ∷ ls) m ≡ ok (some (other_end m best), best.score))
unfolding find_best_match
find_best_match-IsFirstMax m l ls touches =
    let best = max_by score_of l ls in
    let first = max_by-IsFirstMax score_of l ls in
    let touched =
      (All-right (Touches m) first.before (best ∷ first.after)
        (subst (All (Touches m)) first.splits touches)).0 in
    (best, first, touched, rw (other-eq-other_end m best touched))

module _ (top_n : ℕ) (m : MentionId) (own : ClusterId) where
  module _ (links : List MentionLink) (linked : Dict MentionId ClusterId)
      (touches : All (Touches m) links) {best : MentionLink}
      (first : IsFirstMax score_of best links) (c : ClusterId)
      (leads : get MentionId-discrete (other_end m best) linked ≡ some c) {r : ResolutionResult}
      (ranked : rank_candidates top_n m own links linked ≡ ok r) where
    no_better : All (λ l. l.score ≤ best.score) links
    no_better = subst (All (λ l. l.score ≤ best.score)) (sym first.splits) (
        All-append (λ l. l.score ≤ best.score) first.before (best ∷ first.after)
          (All-weaken (λ l. l.score < best.score) (λ l. l.score ≤ best.score) (λ l h. omega arith)
            first.before first.smaller)
          (omega arith, first.no_larger))

    ranked-le :
        (d : ClusterId) {s : Score} → ranked_score m linked own links d ≡ some s → s ≤ best.score
    ranked-le d {s} e = bound (best_score m linked d links) refl e
      where
        bound :
            (o : Option Score)
            → best_score m linked d links ≡ o
            → with_own own d o ≡ some s
            → s ≤ best.score
        bound none p q = ground arith
        bound (some t) p q =
            let (l, le, into) = attained m linked d (λ l. l.score ≤ best.score) links no_better p in
            ground (arith, into-score m linked d l into)

    best-ranked : ranked_score m linked own links c ≡ some best.score
    best-ranked =
        let (t, le, reached) =
          reaches m linked c first.before best first.after
            (into_of_cluster m linked c best leads) in
        let found : best_score m linked c links ≡ some t =
          ap (best_score m linked c) first.splits ∙ reached in
        let ranks : ranked_score m linked own links c ≡ some t = ap (with_own own c) found in
        let eq : t ≡ best.score = omega (arith, ranked-le c ranks) in rw (← eq) ranks

    -- A candidate for the cluster of the best link has the score of the best link.
    listed-le-top : All (λ x. x.cluster_id ≡ c → best.score ≤ r.top.score) (candidates r)
    listed-le-top =
        let descending = rank_candidates-IsDescending top_n m own links linked touches ranked in
        let scores = rank_candidates-scores top_n m own links linked touches ranked in
        All-weaken
          (λ x.
            (x.score ≤ r.top.score) × (ranked_score m linked own links x.cluster_id ≡ some x.score))
          (λ x. x.cluster_id ≡ c → best.score ≤ r.top.score) (λ x h e. same_score x h.0 h.1 e)
          (candidates r)
          (All-both (λ x. x.score ≤ r.top.score)
            (λ x. ranked_score m linked own links x.cluster_id ≡ some x.score) (candidates r)
            (omega arith, descending.0) scores)
      where
        same_score :
            (x : CandidateCluster)
            → x.score ≤ r.top.score
            → ranked_score m linked own links x.cluster_id ≡ some x.score
            → x.cluster_id ≡ c
            → best.score ≤ r.top.score
        same_score x le scores e =
            let ranks : ranked_score m linked own links c ≡ some x.score = rw (← e) scores in
            let eq : some best.score ≡ some x.score = sym best-ranked ∙ ranks in ground arith

    best-le-top : best.score ≤ r.top.score
    best-le-top = elim (dec_mem ClusterId-discrete c (cluster_ids r)) [
      | yes found ↦ ∥∥₁_elim (exists_of_mem-map found) le_prop λ (x, stored, e).
          All-mem (λ x. x.cluster_id ≡ c → best.score ≤ r.top.score) (λ x. Π_prop (λ _. le_prop))
            (candidates r) listed-le-top stored e
      | no absent ↦
          (rank_candidates_complete top_n m own links linked touches ranked c best-ranked absent).0
    ]

    -- Where the best link leads to a cluster that is known, the first candidate has the score of the
    -- best link.
    pub top-score : r.top.score ≡ best.score
    top-score =
        let scores = rank_candidates-scores top_n m own links linked touches ranked in
        omega (arith, ranked-le r.top.cluster_id scores.0, best-le-top)

    -- Where, moreover, the best link's score is positive and every link with that score leads to the
    -- same cluster, the first candidate is this cluster.
    pub top-cluster :
        0 < best.score
        → All
            (λ l. l.score ≡ best.score → get MentionId-discrete (other_end m l) linked ≡ some c)
            links
        → r.top.cluster_id ≡ c
    top-cluster positive only = from (best_score m linked r.top.cluster_id links) refl scores.0
      where
        scores :
            All (λ x. ranked_score m linked own links x.cluster_id ≡ some x.score) (candidates r)
        scores = rank_candidates-scores top_n m own links linked touches ranked

        from :
            (o : Option Score)
            → best_score m linked r.top.cluster_id links ≡ o
            → with_own own r.top.cluster_id o ≡ some r.top.score
            → r.top.cluster_id ≡ c
        from none p q = absurd (ground (arith, top-score))
        from (some t) p q =
            let (l, leads_there, into) =
              attained m linked r.top.cluster_id
                (λ l. l.score ≡ best.score → get MentionId-discrete (other_end m l) linked ≡ some c)
                links only p in
            let tie : l.score ≡ best.score =
              into-score m linked r.top.cluster_id l into ∙ some-injective _ _ q ∙ top-score in
            some-injective _ _
              (sym (into-cluster m linked r.top.cluster_id l into) ∙ leads_there tie)
