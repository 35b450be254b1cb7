-- ===== src/Resolver/Ranking/Attained.antt =====
-- Which links the score of a cluster comes from.
use entity_resolution_engine.Base.{
  ℕ, ◌≤◌, Option, none, some, List, [], ◌∷◌, ◌++◌, ◌≡◌, arith, All, max, leb, leb→le, not-leb→lt,
  Bool-cases, ◌⊎◌, inl, inr,
}
use entity_resolution_engine.Base.Dict.{Dict, get}
use entity_resolution_engine.Model.Mentions.{MentionId, ClusterId, MentionId-discrete}
use entity_resolution_engine.Model.Links.{Score, MentionLink}
use entity_resolution_engine.Resolver.Ranking.Scores.{other_end, score_into, best_score, better}

max-cases : (x y : ℕ) → (max x y ≡ x) ⊎ (max x y ≡ y)
max-cases x y = elim (Bool-cases (leb x y)) [
  | inl e ↦ inr (omega (arith, leb→le x y e))
  | inr e ↦ inl (omega (arith, not-leb→lt x y e))
]

better-cases : (a b : Option Score) {s : Score} → better a b ≡ some s → (a ≡ some s) ⊎ (b ≡ some s)
better-cases none b e = inr e
better-cases (some x) none e = inl e
better-cases (some x) (some y) e = elim (max-cases x y) [ inl h ↦ inl (cc) | inr h ↦ inr (cc) ]

module _ (m : MentionId) (linked : Dict MentionId ClusterId) (c : ClusterId) where
  -- The best score of a cluster is the score of one of the links.
  pub attained :
      (P : MentionLink → Type 0) (links : List MentionLink) {s : Score}
      → All P links
      → best_score m linked c links ≡ some s
      → (l : MentionLink) × P l × (score_into m linked c l ≡ some s)
  unfolding best_score
  attained P [] h e = absurd (ground arith)
  attained P (l ∷ ls) {s} h e =
      elim (better-cases (score_into m linked c l) (best_score m linked c ls) e) [
        | inl here ↦ (l, h.0, here)
        | inr later ↦ attained P ls h.1 later
      ]

  -- A link that leads to the cluster bounds the cluster's best score from below.
  pub reaches :
      (before : List MentionLink) (l : MentionLink) (after : List MentionLink) {s : Score}
      → score_into m linked c l ≡ some s
      → (t : Score) × (s ≤ t) × (best_score m linked c (before ++ l ∷ after) ≡ some t)
  unfolding best_score
  reaches [] l after {s} e = raise_to (best_score m linked c after)
    where
      raise_to :
          (o : Option Score) → (t : Score) × (s ≤ t) × (better (score_into m linked c l) o ≡ some t)
      raise_to none = (s, omega arith, rw e)
      raise_to (some t) = (max s t, omega arith, rw e)
  reaches (k ∷ before) l after {s} e =
      let (t, le, later) = reaches before l after e in raise_by (score_into m linked c k) t le later
    where
      raise_by :
          (o : Option Score) (t : Score)
          → s ≤ t
          → best_score m linked c (before ++ l ∷ after) ≡ some t
          → (u : Score) × (s ≤ u)
            × (better o (best_score m linked c (before ++ l ∷ after)) ≡ some u)
      raise_by none t le later = (t, le, later)
      raise_by (some x) t le later = (max x t, omega arith, rw later)

  pub into-score : (l : MentionLink) {s : Score} → score_into m linked c l ≡ some s → l.score ≡ s
  unfolding score_into
  into-score l e = ground arith

  pub into-cluster :
      (l : MentionLink) {s : Score}
      → score_into m linked c l ≡ some s
      → get MentionId-discrete (other_end m l) linked ≡ some c
  unfolding score_into
  into-cluster l e = ground arith

  pub into_of_cluster :
      (l : MentionLink)
      → get MentionId-discrete (other_end m l) linked ≡ some c
      → score_into m linked c l ≡ some l.score
  unfolding score_into
  into_of_cluster l e = ground arith
