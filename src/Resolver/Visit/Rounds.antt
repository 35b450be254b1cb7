-- ===== src/Resolver/Visit/Rounds.antt =====
-- What one round of the loop over a bite does.
use entity_resolution_engine.Base.{
  Option, none, some, List, [], ◌∷◌, ◌++◌, ◌≡◌, ◌∙◌, sym, ◌⊎◌, inl, inr, arith,
}
use entity_resolution_engine.Base.Dict.{Dict, get, put, get-put, get-put_ne}
use entity_resolution_engine.Model.Errors.{ok, >>=-eq-ok}
use entity_resolution_engine.Model.Mentions.{MentionId, ClusterId, MentionId-discrete, Mention}
use entity_resolution_engine.Model.Links.{Score, MentionLink}
use entity_resolution_engine.Model.Clusters.{ResolutionResult}
use entity_resolution_engine.Tracing.{MentionTrace, DeferredStage}
use entity_resolution_engine.Config.{ResolverConfig}
use entity_resolution_engine.Resolver.Ranking.{rank_candidates, find_best_match}
use entity_resolution_engine.Resolver.Assignment.{own_cluster, best_cluster, decide, assign_cluster}
use entity_resolution_engine.Resolver.Earlier.{Grouped}
use entity_resolution_engine.Resolver.Visit.{Progress, links_at, visit_links, visit}

pub decide-cases :
    (threshold : Score) (m : MentionId) (o : Option ClusterId) (s : Score) {c : ClusterId}
    → (decide threshold m o s).0 ≡ c
    → (c ≡ own_cluster m) ⊎ (o ≡ some c)
unfolding decide
decide-cases threshold m none s h = inl (sym h)
decide-cases threshold m (some d) s h = ground arith

pub best_cluster-cases :
    (linked : Dict MentionId ClusterId) (o : Option MentionId) {c : ClusterId}
    → best_cluster linked o ≡ some c
    → (k : MentionId) × (get MentionId-discrete k linked ≡ some c)
unfolding best_cluster
best_cluster-cases linked none h = absurd (ground arith)
best_cluster-cases linked (some k) h = (k, h)

-- A mention is assigned to its own cluster or to that of a mention whose cluster is known.
pub assign_cluster-cases :
    (threshold : Score) (m : MentionId) (links : List MentionLink)
    (linked : Dict MentionId ClusterId) (trace : MentionTrace) {c : ClusterId}
    {stages : List DeferredStage}
    → assign_cluster threshold m links linked trace ≡ ok (c, stages)
    → (c ≡ own_cluster m) ⊎ ((k : MentionId) × (get MentionId-discrete k linked ≡ some c))
unfolding assign_cluster
assign_cluster-cases threshold m links linked trace {c} {stages} h =
    let ((best_id, best_sim), found, rest) = >>=-eq-ok (find_best_match links m) _ h in
    let is : (decide threshold m (best_cluster linked best_id) best_sim).0 ≡ c = ground arith in
    elim (decide-cases threshold m (best_cluster linked best_id) best_sim is) [
      | inl own ↦ inl own
      | inr joined ↦ inr (best_cluster-cases linked best_id joined)
    ]

-- One round of the loop, taken apart.
pub record Round (config : ResolverConfig) (m : Mention) (p p' : Progress) : Type 0 where
  pub links : List MentionLink
  pub cluster : ClusterId
  pub result : ResolutionResult
  pub is_known :
      (cluster ≡ own_cluster m.id)
      ⊎ ((k : MentionId) × (get MentionId-discrete k p.linked_clusters ≡ some cluster))
  pub ranked :
      rank_candidates config.top_n m.id cluster links
        (put MentionId-discrete m.id cluster p.linked_clusters)
      ≡ ok result
  pub results : p'.results ≡ p.results ++ result ∷ []
  pub bite_clusters : p'.bite_clusters ≡ put MentionId-discrete m.id cluster p.bite_clusters
  pub linked_clusters : p'.linked_clusters ≡ put MentionId-discrete m.id cluster p.linked_clusters

pub visit-Round :
    (config : ResolverConfig) (grouped : Grouped) (m : Mention) (trace : MentionTrace)
    (p : Progress) {p' : Progress}
    → visit config grouped m trace p ≡ ok p'
    → Round config m p p'
unfolding visit visit_links
visit-Round config grouped m trace p {p'} h =
    let (links, at, h₁) = >>=-eq-ok (links_at m.id (get MentionId-discrete m.id grouped)) _ h in
    let ((c, stages), assigned, h₂) =
      >>=-eq-ok (assign_cluster config.threshold m.id links p.linked_clusters trace) _ h₁ in
    let (result, ranked, h₃) =
      >>=-eq-ok
        (rank_candidates config.top_n m.id c links
          (put MentionId-discrete m.id c p.linked_clusters))
        _ h₂ in
    record {
      links = links;
      cluster = c;
      result = result;
      is_known = assign_cluster-cases config.threshold m.id links p.linked_clusters trace assigned;
      ranked = ranked;
      results = ground arith;
      bite_clusters = ground arith;
      linked_clusters = ground arith;
    }

-- What an entry says after `put`: it is the new one, or it was there.
pub put-cases :
    (k m : MentionId) (c e : ClusterId) (d d' : Dict MentionId ClusterId)
    → d' ≡ put MentionId-discrete m c d
    → get MentionId-discrete k d' ≡ some e
    → ((m ≡ k) × (c ≡ e)) ⊎ (get MentionId-discrete k d ≡ some e)
put-cases k m c e d d' is h =
    let there : get MentionId-discrete k (put MentionId-discrete m c d) ≡ some e = rw is at h in
    elim (MentionId-discrete m k) [
      | yes same ↦ inl (same, ground (arith, get-put MentionId-discrete m k c d))
      | no other ↦ inr (sym (get-put_ne MentionId-discrete m k c d other) ∙ there)
    ]
