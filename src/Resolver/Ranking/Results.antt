-- ===== src/Resolver/Ranking/Results.antt =====
-- What `_rank_candidates` returns.
use mathlib.Core.Logic.Or
use mathlib.Core.List.Nodup
use mathlib.Core.List.Perm
use mathlib.Core.List.{Mem, Nodup, Nodup-nil, Mem-prop, mem-append, mem-map_of_mem}
use native.Mathlib.Bridge.{le_prop}
use entity_resolution_engine.Base.{
  ℕ, ◌≤◌, ◌<◌, Option, none, some, List, [], ◌∷◌, ◌++◌, map, take, drop, length, ◌≡◌, ◌≢◌, refl, ap,
  if_pos, sym, ◌∙◌, subst, arith, All, All-weaken, All-take, All-mem, take-append-drop,
  take-sublist, take-map, length-take, length-map,
}
use entity_resolution_engine.Base.Dict.{Dict, keys, get}
use entity_resolution_engine.Base.Dict.Keys.{get-entries, mem-of_get}
use entity_resolution_engine.Base.Ranked.{
  sort_desc, sort_desc-perm, sort_desc-IsDescending, All-sort_desc, length-sort_desc, IsDescending,
  IsDescending-take, drop-le-take,
}
use entity_resolution_engine.Model.Errors.{ok}
use entity_resolution_engine.Model.Mentions.{MentionId, ClusterId, ClusterId-discrete}
use entity_resolution_engine.Model.Links.{Score, MentionLink}
use entity_resolution_engine.Model.Clusters.{
  CandidateCluster, ResolutionResult, candidates, resolution_result,
}
use entity_resolution_engine.Resolver.Ranking.{rank_candidates, set_default, candidate, entry_score}
use entity_resolution_engine.Resolver.Ranking.Scores.{
  Touches, best_score, score_clusters_lem, with_own, get-set_default, set_default-Nodup,
}

-- The score of a cluster in a ranking: its best link, or 0.0 for the own cluster without one.
abbrev pub ranked_score :
    MentionId → Dict MentionId ClusterId → ClusterId → List MentionLink → ClusterId → Option Score
ranked_score m linked own links c = with_own own c (best_score m linked c links)

abbrev pub cluster_ids : ResolutionResult → List ClusterId
cluster_ids r = map (λ c. c.cluster_id) (candidates r)

abbrev pub candidate_score : CandidateCluster → Score
candidate_score c = c.score

candidates-resolution_result :
    (cs : List CandidateCluster) {r : ResolutionResult}
    → resolution_result cs ≡ ok r
    → candidates r ≡ cs
unfolding resolution_result
candidates-resolution_result [] h = cc
candidates-resolution_result (c ∷ cs) h = ground arith

module _ (top_n : ℕ) (m : MentionId) (own : ClusterId) (links : List MentionLink)
    (linked : Dict MentionId ClusterId) (touches : All (Touches m) links) where
  -- the dict that is sorted
  record Scored : Type 0 where
    scores : Dict ClusterId Score
    ranks :
        rank_candidates top_n m own links linked
        ≡ resolution_result (map candidate (take top_n (sort_desc entry_score scores)))
    distinct : Nodup (keys scores)
    best : (c : ClusterId) → get ClusterId-discrete c scores ≡ ranked_score m linked own links c

  scored : Scored
  unfolding rank_candidates
  scored =
      let (d, done, distinct, best) = score_clusters_lem m linked links [] touches Nodup-nil in
      record {
        scores = set_default own d;
        ranks = rw done;
        distinct = set_default-Nodup own d distinct;
        best = λ c. get-set_default own c d ∙ ap (with_own own c) (best c);
      }

  abbrev ranking : Scored → List (ClusterId × Score)
  ranking s = take top_n (sort_desc entry_score s.scores)

  map-IsDescending :
      (l : List (ClusterId × Score))
      → IsDescending entry_score l
      → IsDescending candidate_score (map candidate l)
  map-IsDescending [] h = tt
  map-IsDescending (e ∷ l) h = (entries_below l h.0, map-IsDescending l h.1)
    where
      entries_below :
          (k : List (ClusterId × Score))
          → All (λ y. y.1 ≤ e.1) k
          → All (λ c. c.score ≤ e.1) (map candidate k)
      entries_below [] p = tt
      entries_below (f ∷ k) p = (p.0, entries_below k p.1)

  map-All :
      (P : CandidateCluster → Type 0) (l : List (ClusterId × Score))
      → All (λ e. P (candidate e)) l
      → All P (map candidate l)
  map-All P [] h = tt
  map-All P (e ∷ l) h = (h.0, map-All P l h.1)

  map-cluster_id :
      (l : List (ClusterId × Score)) → map (λ c. c.cluster_id) (map candidate l) ≡ keys l
  map-cluster_id [] = refl
  map-cluster_id (e ∷ l) = ap (◌∷◌ e.0) (map-cluster_id l)

  nonempty :
      (d : Dict ClusterId Score) {n : ℕ} {s : Score}
      → 0 < n
      → get ClusterId-discrete own d ≡ some s
      → take n (sort_desc entry_score d) ≢ []
  unfolding get
  nonempty [] {n} p h e = cc
  nonempty (x ∷ d) {n} p h e =
      let size = length-sort_desc entry_score (x ∷ d) in
      let none_left : length (take n (sort_desc entry_score (x ∷ d))) ≡ 0 = ap length e in
      absurd (omega (arith, length-take n (sort_desc entry_score (x ∷ d))))

  own_score : (s : Score) × (get ClusterId-discrete own scored.scores ≡ some s)
  own_score = own_from (best_score m linked own links) (scored.best own)
    where
      own_from :
          (o : Option Score)
          → get ClusterId-discrete own scored.scores ≡ with_own own own o
          → (s : Score) × (get ClusterId-discrete own scored.scores ≡ some s)
      own_from none e = (0, e ∙ if_pos (ClusterId-discrete own own) refl (some 0) none)
      own_from (some s) e = (s, e)

  -- Unless `top_n` is 0, the ranking of a mention by links that touch it does not raise.
  pub rank_candidates-total :
      0 < top_n → (r : ResolutionResult) × (rank_candidates top_n m own links linked ≡ ok r)
  unfolding resolution_result
  rank_candidates-total pos = from (ranking scored) refl
    where
      from :
          (l : List (ClusterId × Score))
          → ranking scored ≡ l
          → (r : ResolutionResult) × (rank_candidates top_n m own links linked ≡ ok r)
      from [] e = absurd (nonempty scored.scores pos own_score.1 e)
      from (e ∷ l) q = (
        record { top = candidate e; others = map candidate l },
        scored.ranks ∙ ap (λ k. resolution_result (map candidate k)) q,
      )

  module _ {r : ResolutionResult} (ranked : rank_candidates top_n m own links linked ≡ ok r) where
    by_ranking :
        (Q : List CandidateCluster → Type 0) → Q (map candidate (ranking scored)) → Q (candidates r)
    by_ranking Q = subst Q (
        sym (
          candidates-resolution_result (map candidate (ranking scored))
            (sym scored.ranks ∙ ranked)))

    -- The candidates come in descending order of their scores.
    pub rank_candidates-IsDescending : IsDescending candidate_score (candidates r)
    rank_candidates-IsDescending = by_ranking (IsDescending candidate_score) (
        map-IsDescending (ranking scored) (
          IsDescending-take entry_score top_n (sort_desc entry_score scored.scores)
            (sort_desc-IsDescending entry_score scored.scores)))

    -- There are at most `top_n` candidates, and no cluster is among them twice.
    pub rank_candidates-bounds : (length (candidates r) ≤ top_n) × Nodup (cluster_ids r)
    rank_candidates-bounds =
        let sorted = sort_desc entry_score scored.scores in
        let distinct : Nodup (keys sorted) =
          Perm.nodup (Perm.symm (Perm.map (λ e. e.0) (sort_desc-perm entry_score scored.scores)))
            scored.distinct in
        (
          by_ranking (λ l. length l ≤ top_n)
              (rw length-map (omega (arith, length-take top_n sorted))),
          by_ranking (λ l. Nodup (map (λ c. c.cluster_id) l))
              (rw (map-cluster_id, ← take-map)
                (Nodup.sublist (take-sublist top_n (keys sorted)) distinct)),
        )

    -- The score of each candidate is that of the best link that leads to its cluster, or 0.0 for the
    -- mention's own cluster where no link leads to it.
    pub rank_candidates-scores :
        All (λ c. ranked_score m linked own links c.cluster_id ≡ some c.score) (candidates r)
    rank_candidates-scores =
        let HasScore = λ (e : ClusterId × Score). ranked_score m linked own links e.0 ≡ some e.1 in
        let entries : All HasScore scored.scores =
          All-weaken (λ e. get ClusterId-discrete e.0 scored.scores ≡ some e.1) HasScore
            (λ e h. sym (scored.best e.0) ∙ h) scored.scores
            (get-entries ClusterId-discrete scored.scores scored.distinct) in
        by_ranking (All (λ c. ranked_score m linked own links c.cluster_id ≡ some c.score)) (
          map-All (λ c. ranked_score m linked own links c.cluster_id ≡ some c.score)
            (ranking scored)
            (All-take HasScore top_n (sort_desc entry_score scored.scores)
              (All-sort_desc entry_score HasScore scored.scores entries)))

    not_listed :
        (c : ClusterId) (s : Score) → ¬ Mem c (cluster_ids r) → ¬ Mem (c, s) (ranking scored)
    not_listed c s absent found = absent (
        by_ranking (λ l. Mem c (map (λ x. x.cluster_id) l))
          (rw map-cluster_id (mem-map_of_mem (λ (e : ClusterId × Score). e.0) found)))

    -- Pruning drops the worst: no cluster that is left out scores more than one that is listed.
    pub rank_candidates_complete :
        (c : ClusterId) {s : Score}
        → ranked_score m linked own links c ≡ some s
        → ¬ Mem c (cluster_ids r)
        → All (λ x. s ≤ x.score) (candidates r)
    rank_candidates_complete c {s} scores absent =
        let sorted = sort_desc entry_score scored.scores in
        let stored : Mem (c, s) (take top_n sorted ++ drop top_n sorted) = rw take-append-drop (
          (Perm.mem_iff (sort_desc-perm entry_score scored.scores)).1
            (mem-of_get ClusterId-discrete c scored.scores (scored.best c ∙ scores))) in
        let dropped : Mem (c, s) (drop top_n sorted) =
          Or.elim Mem-prop (mem-append.0 stored) (λ f. absurd (not_listed c s absent f)) (λ f. f) in
        by_ranking (All (λ x. s ≤ x.score)) (
          map-All (λ x. s ≤ x.score) (ranking scored)
            (All-weaken {A = ClusterId × Score} (λ x. All (λ y. y.1 ≤ x.1) (drop top_n sorted))
              (λ x. s ≤ x.1)
              (λ x h. All-mem (λ y. y.1 ≤ x.1) (λ y. le_prop) (drop top_n sorted) h dropped)
              (ranking scored)
              (drop-le-take entry_score top_n sorted
                (sort_desc-IsDescending entry_score scored.scores))))
