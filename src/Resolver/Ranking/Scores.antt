-- ===== src/Resolver/Ranking/Scores.antt =====
-- The scores that `_rank_candidates` collects, against the best link of each cluster.
use mathlib.Core.List.{Nodup}
use entity_resolution_engine.Base.{
  Option, Option-cases, none, some, List, [], ◌∷◌, max, ◌≡◌, refl, ◌⊎◌, inl, inr, ite, arith, All,
}
use entity_resolution_engine.Base.Dict.{Dict, keys, get, get-put}
use entity_resolution_engine.Base.Dict.Keys.{put-Nodup}
use entity_resolution_engine.Model.Errors.{ok}
use entity_resolution_engine.Model.Mentions.{
  MentionId, ClusterId, MentionId-discrete, ClusterId-discrete,
}
use entity_resolution_engine.Model.Links.{Score, MentionLink, other}
use entity_resolution_engine.Resolver.Ranking.{raise_score, score_clusters, set_default}

-- The mention is an end of the link.
abbrev pub Touches : MentionId → MentionLink → Type 0
Touches m l = (l.left_id ≡ m) ⊎ (l.right_id ≡ m)

-- The end of the link that is not the mention.
unfoldable pub other_end : MentionId → MentionLink → MentionId
other_end m l = ite (MentionId-discrete m l.left_id) l.right_id l.left_id

pub other-eq-other_end :
    (m : MentionId) (l : MentionLink) → Touches m l → other l m ≡ ok (other_end m l)
unfolding other other_end
other-eq-other_end m l h = ground arith

-- The better of two scores, where either may be missing.
abbrev pub better : Option Score → Option Score → Option Score
better none t = t
better (some s) none = some s
better (some s) (some t) = some (max s t)

-- The score of a link, if it leads to the cluster.
unfoldable pub score_into :
    MentionId → Dict MentionId ClusterId → ClusterId → MentionLink → Option Score
score_into m linked c l = elim (get MentionId-discrete (other_end m l) linked) [
  | none ↦ none
  | some d ↦ ite (ClusterId-discrete d c) (some l.score) none
]

-- The best score of the links that lead to the cluster, if there is one.
unfoldable pub best_score :
    MentionId → Dict MentionId ClusterId → ClusterId → List MentionLink → Option Score
best_score m linked c [] = none
best_score m linked c (l ∷ ls) = better (score_into m linked c l) (best_score m linked c ls)

better_assoc : (a b c : Option Score) → better (better a b) c ≡ better a (better b c)
better_assoc a b c = ground arith

better-none : (a : Option Score) → better a none ≡ a
better-none none = refl
better-none (some s) = refl

get-raise_score :
    (m : MentionId) (linked : Dict MentionId ClusterId) (l : MentionLink) (c : ClusterId)
    (d : Dict ClusterId Score)
    → get ClusterId-discrete c
        (raise_score (get MentionId-discrete (other_end m l) linked) l.score d)
      ≡ better (get ClusterId-discrete c d) (score_into m linked c l)
unfolding raise_score score_into
get-raise_score m linked l c d =
    elim (Option-cases (get MentionId-discrete (other_end m l) linked)) [
      | inl e ↦ rw (e, score_into) (ground arith)
      | inr (x, e) ↦ rw (e, get-put, score_into) (ground arith)
    ]

raise_score-Nodup :
    (o : Option ClusterId) (s : Score) (d : Dict ClusterId Score)
    → Nodup (keys d)
    → Nodup (keys (raise_score o s d))
unfolding raise_score
raise_score-Nodup none s d h = h
raise_score-Nodup (some c) s d h = put-Nodup ClusterId-discrete c _ d h

-- The loop over links of a mention does not raise, keeps each cluster once, and ends with the best
-- score of each cluster.
pub score_clusters_lem :
    (m : MentionId) (linked : Dict MentionId ClusterId) (links : List MentionLink)
    (d : Dict ClusterId Score)
    → All (Touches m) links
    → Nodup (keys d)
    → (d' : Dict ClusterId Score) × (score_clusters m linked links d ≡ ok d')
      × Nodup (keys d')
      × ((c : ClusterId)
          → get ClusterId-discrete c d'
            ≡ better (get ClusterId-discrete c d) (best_score m linked c links))
unfolding score_clusters best_score
score_clusters_lem m linked [] d t h = (d, refl, h, λ c. rw better-none)
score_clusters_lem m linked (l ∷ ls) d t h =
    let o = get MentionId-discrete (other_end m l) linked in
    let next = raise_score o l.score d in
    let (d', done, distinct, best) =
      score_clusters_lem m linked ls next t.1 (raise_score-Nodup o l.score d h) in
    (
      d',
      rw (other-eq-other_end m l t.0) done,
      distinct,
      λ c. rw (best c, get-raise_score m linked l c d, better_assoc),
    )

-- The entry that `setdefault` adds.
abbrev pub with_own : ClusterId → ClusterId → Option Score → Option Score
with_own own c (some s) = some s
with_own own c none = ite (ClusterId-discrete own c) (some 0) none

pub get-set_default :
    (own c : ClusterId) (d : Dict ClusterId Score)
    → get ClusterId-discrete c (set_default own d) ≡ with_own own c (get ClusterId-discrete c d)
unfolding set_default
get-set_default own c d = ground (arith, get-put ClusterId-discrete own c 0 d)

pub set_default-Nodup :
    (own : ClusterId) (d : Dict ClusterId Score) → Nodup (keys d) → Nodup (keys (set_default own d))
unfolding set_default
set_default-Nodup own d h = elim (Option-cases (get ClusterId-discrete own d)) [
  | inl e ↦ rw (e, set_default) (put-Nodup ClusterId-discrete own 0 d h)
  | inr (s, e) ↦ rw (e, set_default) h
]
