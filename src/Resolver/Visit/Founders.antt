-- ===== src/Resolver/Visit/Founders.antt =====
-- Each cluster that the loop over a bite assigns is one whose founder is a member of it.
use entity_resolution_engine.Base.{
  none, some, List, [], ◌∷◌, ◌≡◌, ◌≢◌, ◌∙◌, ap, subst, ◌⊎◌, inl, inr, arith, All, length,
  length-append, ◌+◌,
}
use entity_resolution_engine.Base.Dict.{Dict, get, put, get-put, get-put_ne}
use entity_resolution_engine.Model.Errors.{ok, >>=-eq-ok, ok-injective}
use entity_resolution_engine.Model.Mentions.{MentionId, ClusterId, MentionId-discrete, Mention}
use entity_resolution_engine.Model.Clusters.{ClusterMembership}
use entity_resolution_engine.Tracing.{MentionTrace}
use entity_resolution_engine.Config.{ResolverConfig}
use entity_resolution_engine.Repositories.Rows.{cluster_of}
use entity_resolution_engine.Resolver.Earlier.{Grouped}
use entity_resolution_engine.Resolver.Visit.{Progress, visit, visit_all}
use entity_resolution_engine.Resolver.Visit.Rounds.{Round, visit-Round, put-cases}

-- The mention whose id the cluster has.
abbrev pub founder : ClusterId → MentionId
founder c = record { value = c.value }

-- The id is that of one of the mentions.
abbrev pub Among : MentionId → List Mention → Type 0
Among k [] = ⊥
Among k (m ∷ ms) = (m.id ≡ k) ⊎ Among k ms

-- The mentions have distinct ids.
abbrev pub ApartFrom : MentionId → List (Mention × MentionTrace) → Type 0
ApartFrom m = All (λ e. m ≢ e.0.id)

abbrev pub AllApart : List (Mention × MentionTrace) → Type 0
AllApart [] = Unit
AllApart ((m, t) ∷ es) = ApartFrom m.id es × AllApart es

module _ (stored : List ClusterMembership) (all : List Mention) where
  -- The founder of the cluster is a member of it, stored or in the bite.
  abbrev pub Founded : Dict MentionId ClusterId → ClusterId → Type 0
  Founded bite c =
      (cluster_of (founder c) stored ≡ some c) ⊎ (get MentionId-discrete (founder c) bite ≡ some c)

  -- The mention is one of the bite, and not stored before.
  abbrev pub IsNew : MentionId → Type 0
  IsNew k = (cluster_of k stored ≡ none) × Among k all

  pub record IsFounded (p : Progress) : Type 0 where
    pub linked :
        (k : MentionId) (c : ClusterId)
        → get MentionId-discrete k p.linked_clusters ≡ some c
        → Founded p.bite_clusters c
    pub bite :
        (k : MentionId) (c : ClusterId)
        → get MentionId-discrete k p.bite_clusters ≡ some c
        → Founded p.bite_clusters c × IsNew k

  Founded-put :
      (m : MentionId) (c : ClusterId) (d : Dict MentionId ClusterId) (e : ClusterId)
      → get MentionId-discrete m d ≡ none
      → Founded d e
      → Founded (put MentionId-discrete m c d) e
  Founded-put m c d e fresh (inl stored) = inl stored
  Founded-put m c d e fresh (inr here) =
      inr (ground (arith, get-put MentionId-discrete m (founder e) c d))

  Founded-cluster :
      {config : ResolverConfig} {m : Mention} {p p' : Progress} (r : Round config m p p')
      → IsFounded p
      → get MentionId-discrete m.id p.bite_clusters ≡ none
      → Founded (put MentionId-discrete m.id r.cluster p.bite_clusters) r.cluster
  Founded-cluster {m = m} {p = p} r inv fresh = elim r.is_known [
    | inl own ↦ inr (
        ground
          (arith, get-put MentionId-discrete m.id (founder r.cluster) r.cluster p.bite_clusters))
    | inr (k, known) ↦
        Founded-put m.id r.cluster p.bite_clusters r.cluster fresh (inv.linked k r.cluster known)
  ]

  Round-IsFounded :
      {config : ResolverConfig} {m : Mention} {p p' : Progress} (r : Round config m p p')
      → IsFounded p
      → get MentionId-discrete m.id p.bite_clusters ≡ none
      → IsNew m.id
      → IsFounded p'
  Round-IsFounded {m = m} {p = p} {p' = p'} r inv fresh new =
      let d = p.bite_clusters in
      record {
        linked = λ k c h.
            rw r.bite_clusters
              (elim (put-cases k m.id r.cluster c p.linked_clusters p'.linked_clusters
                r.linked_clusters h) [
                  | inl (same, is) ↦
                      subst (Founded (put MentionId-discrete m.id r.cluster d)) is
                        (Founded-cluster r inv fresh)
                  | inr old ↦ Founded-put m.id r.cluster d c fresh (inv.linked k c old)
                ]);
        bite = λ k c h.
            rw r.bite_clusters
              (elim (put-cases k m.id r.cluster c d p'.bite_clusters r.bite_clusters h) [
                | inl (same, is) ↦ (
                  subst (Founded (put MentionId-discrete m.id r.cluster d)) is
                      (Founded-cluster r inv fresh),
                  subst IsNew same new,
                )
                | inr old ↦ (
                  Founded-put m.id r.cluster d c fresh (inv.bite k c old).0,
                  (inv.bite k c old).1,
                )
              ]);
      }

  -- none of the mentions has been visited
  abbrev Unvisited : Dict MentionId ClusterId → List (Mention × MentionTrace) → Type 0
  Unvisited d = All (λ e. get MentionId-discrete e.0.id d ≡ none)

  Unvisited-put :
      (m : MentionId) (c : ClusterId) (d d' : Dict MentionId ClusterId)
      (es : List (Mention × MentionTrace))
      → d' ≡ put MentionId-discrete m c d
      → All (λ e. m ≢ e.0.id) es
      → Unvisited d es
      → Unvisited d' es
  Unvisited-put m c d d' [] is apart h = tt
  Unvisited-put m c d d' (e ∷ es) is apart h = (
    rw is (get-put_ne MentionId-discrete m e.0.id c d apart.0 ∙ h.0),
    Unvisited-put m c d d' es is apart.1 h.1,
  )

  -- The loop over new mentions with distinct ids keeps every cluster founded, and returns one result
  -- for each mention.
  pub visit_all-IsFounded :
      (config : ResolverConfig) (grouped : Grouped) (es : List (Mention × MentionTrace))
      (p : Progress) {p' : Progress}
      → visit_all config grouped es p ≡ ok p'
      → IsFounded p
      → Unvisited p.bite_clusters es
      → All (λ e. IsNew e.0.id) es
      → AllApart es
      → IsFounded p' × (length p'.results ≡ length p.results + length es)
  unfolding visit_all
  visit_all-IsFounded config grouped [] p h inv unvisited new apart =
      let same : p ≡ _ = ok-injective h in (subst IsFounded same inv, rw (← same) (omega arith))
  visit_all-IsFounded config grouped ((m, trace) ∷ es) p h inv unvisited new apart =
      let (p₁, visited, rest) = >>=-eq-ok (visit config grouped m trace p) _ h in
      let r = visit-Round config grouped m trace p visited in
      let (founded, size) =
        visit_all-IsFounded config grouped es p₁ rest (Round-IsFounded r inv unvisited.0 new.0)
          (Unvisited-put m.id r.cluster p.bite_clusters p₁.bite_clusters es r.bite_clusters apart.0
            unvisited.1)
          new.1 apart.1 in
      (founded, omega (arith, length-append p.results (r.result ∷ []), ap length r.results))

-- The loop returns one result for each mention.
pub visit_all-length :
    (config : ResolverConfig) (grouped : Grouped) (es : List (Mention × MentionTrace))
    (p : Progress) {p' : Progress}
    → visit_all config grouped es p ≡ ok p'
    → length p'.results ≡ length p.results + length es
unfolding visit_all
visit_all-length config grouped [] p h =
    let same : p ≡ _ = ok-injective h in rw (← same) (omega arith)
visit_all-length config grouped ((m, trace) ∷ es) p h =
    let (p₁, visited, rest) = >>=-eq-ok (visit config grouped m trace p) _ h in
    let r = visit-Round config grouped m trace p visited in
    omega (
      arith,
      visit_all-length config grouped es p₁ rest,
      length-append p.results (r.result ∷ []),
      ap length r.results,
    )
