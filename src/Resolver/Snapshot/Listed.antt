-- ===== src/Resolver/Snapshot/Listed.antt =====
-- The snapshot of the resolver's state lists the stored memberships.
use mathlib.Core.List.Perm
use mathlib.Core.List.{Mem, Mem-prop, Perm}
use mathlib.Core.HLevel.{⊥_prop, Π_prop}
use mathlib.Core.Option.{some-injective}
use entity_resolution_engine.Base.{
  length, String, Option, none, some, List, [], ◌∷◌, All, All-mem, All-weaken, All-both, ◌≡◌, refl,
  sym, ◌∙◌, ap, subst, arith, inl, inr, ◌⊎◌,
}
use entity_resolution_engine.Base.Dict.{Dict, get, put, get-put_self, get-put_ne}
use entity_resolution_engine.Model.Errors.{ok, ok-injective}
use entity_resolution_engine.Model.Mentions.{MentionId, ClusterId, ClusterId-discrete}
use entity_resolution_engine.Model.Clusters.{ClusterMembership, ResolverState}
use entity_resolution_engine.World.{World, Tables, Platform, pure, select}
use entity_resolution_engine.World.Steps.{>>=-eq-ok, call-eq-ok}
use entity_resolution_engine.Repositories.Mentions
use entity_resolution_engine.Repositories.Similarities
use entity_resolution_engine.Repositories.Clusters
use entity_resolution_engine.Repositories.Rows.{distinct_clusters}
use entity_resolution_engine.Resolver.Snapshot.{
  members, members_array, gather, get_all_memberships, state,
}
use entity_resolution_engine.Resolver.Snapshot.Grouped.{
  distinct_clusters-All, members-All, members-row,
}

module _ (array : ClusterId → List MentionId) where
  gather-kept :
      (c : ClusterId) (cs : List ClusterId) (d : Dict ClusterId (List MentionId))
      → get ClusterId-discrete c d ≡ some (array c)
      → get ClusterId-discrete c (gather array cs d) ≡ some (array c)
  unfolding gather
  gather-kept c [] d h = h
  gather-kept c (e ∷ cs) d h =
      gather-kept c cs (put ClusterId-discrete e (array e) d) (elim (ClusterId-discrete e c) [
        | yes p ↦
            subst
              (λ x.
                get ClusterId-discrete x (put ClusterId-discrete e (array e) d) ≡ some (array x))
              p (get-put_self ClusterId-discrete e (array e) d)
        | no ne ↦ get-put_ne ClusterId-discrete e c (array e) d ne ∙ h
      ])

  gather-All :
      (cs : List ClusterId) (d : Dict ClusterId (List MentionId))
      → All (λ c. get ClusterId-discrete c (gather array cs d) ≡ some (array c)) cs
  unfolding gather
  gather-All [] d = tt
  gather-All (c ∷ cs) d = (
    gather-kept c cs (put ClusterId-discrete c (array c) d)
        (get-put_self ClusterId-discrete c (array c) d),
    gather-All cs (put ClusterId-discrete c (array c) d),
  )

  -- An entry of the dict is an array, or was there before.
  gather-entry :
      (c : ClusterId) (cs : List ClusterId) (d : Dict ClusterId (List MentionId))
      {ms : List MentionId}
      → get ClusterId-discrete c (gather array cs d) ≡ some ms
      → (ms ≡ array c) ⊎ (get ClusterId-discrete c d ≡ some ms)
  unfolding gather
  gather-entry c [] d h = inr h
  gather-entry c (e ∷ cs) d {ms} h =
      elim (gather-entry c cs (put ClusterId-discrete e (array e) d) h) [
        | inl p ↦ inl p
        | inr q ↦ elim (ClusterId-discrete e c) [
          | yes p ↦ inl (
              some-injective ms (array c) (
                sym q
                ∙ subst
                    (λ x.
                      get ClusterId-discrete x (put ClusterId-discrete e (array e) d)
                      ≡ some (array x))
                    p (get-put_self ClusterId-discrete e (array e) d)))
          | no ne ↦ inr (sym (get-put_ne ClusterId-discrete e c (array e) d ne) ∙ q)
        ]
      ]

-- The mention is in the list that was found, if one was.
abbrev pub Lists : MentionId → Option (List MentionId) → Type 0
Lists m none = ⊥
Lists m (some ms) = Mem m ms

Lists-prop : (m : MentionId) (found : Option (List MentionId)) → IsProp (Lists m found)
Lists-prop m none = ⊥_prop
Lists-prop m (some ms) = Mem-prop

-- What a snapshot lists: each stored membership, and nothing else.
abbrev pub ListsAll : List ClusterMembership → Dict ClusterId (List MentionId) → Type 0
ListsAll rows memberships =
    All (λ r. Lists r.mention_id (get ClusterId-discrete r.cluster_id memberships)) rows
    × ((m : MentionId) (c : ClusterId)
        → Lists m (get ClusterId-discrete c memberships)
        → Mem (record { mention_id = m; cluster_id = c }) rows)

module _ (P : Platform) (order_by : (A : Type 0) → (A → String) → List A → List A)
    (ordered : (A : Type 0) (key : A → String) (xs : List A) → Perm (order_by A key xs) xs) where
  abbrev gathered : List ClusterMembership → Dict ClusterId (List MentionId)
  gathered rows =
      gather (members_array P order_by rows)
        (order_by ClusterId (λ c. c.value) (distinct_clusters rows [])) []

  gathered-found :
      (rows : List ClusterMembership) (c : ClusterId) {m : MentionId}
      → Mem c (distinct_clusters rows [])
      → Mem m (members c rows)
      → Lists m (get ClusterId-discrete c (gathered rows))
  gathered-found rows c {m} found h =
      All-mem (λ x. Mem m (members x rows) → Lists m (get ClusterId-discrete x (gathered rows)))
        (λ x. Π_prop (λ h. Lists-prop m (get ClusterId-discrete x (gathered rows))))
        (order_by ClusterId (λ c. c.value) (distinct_clusters rows []))
        (All-weaken
          (λ x. get ClusterId-discrete x (gathered rows) ≡ some (members_array P order_by rows x))
          (λ x. Mem m (members x rows) → Lists m (get ClusterId-discrete x (gathered rows)))
          (λ x e h.
            subst (Lists m) (sym e)
              (Perm.subset (Perm.symm (ordered MentionId (λ m. m.value) (members x rows))) m h))
          (order_by ClusterId (λ c. c.value) (distinct_clusters rows []))
          (gather-All (members_array P order_by rows)
            (order_by ClusterId (λ c. c.value) (distinct_clusters rows [])) []))
        (Perm.subset (Perm.symm (ordered ClusterId (λ c. c.value) (distinct_clusters rows []))) c
          found)
        h

  gathered-row :
      (rows : List ClusterMembership) (c : ClusterId) (m : MentionId)
      (found : Option (List MentionId))
      → get ClusterId-discrete c (gathered rows) ≡ found
      → Lists m found
      → Mem (record { mention_id = m; cluster_id = c }) rows
  unfolding get
  gathered-row rows c m none e h = elim h [ ]
  gathered-row rows c m (some ms) e h =
      elim (gather-entry (members_array P order_by rows) c
        (order_by ClusterId (λ c. c.value) (distinct_clusters rows [])) [] e) [
          | inl p ↦ members-row rows c (
              Perm.subset (ordered MentionId (λ m. m.value) (members c rows)) m (subst (Mem m) p h))
          | inr q ↦ absurd (ground arith)
        ]

  gathered-ListsAll : (rows : List ClusterMembership) → ListsAll rows (gathered rows)
  gathered-ListsAll rows = (
    All-weaken
        (λ r.
          Mem r.cluster_id (distinct_clusters rows [])
          × Mem r.mention_id (members r.cluster_id rows))
        (λ r. Lists r.mention_id (get ClusterId-discrete r.cluster_id (gathered rows)))
        (λ r both. gathered-found rows r.cluster_id both.0 both.1) rows
        (All-both (λ r. Mem r.cluster_id (distinct_clusters rows []))
          (λ r. Mem r.mention_id (members r.cluster_id rows)) rows (distinct_clusters-All rows [])
          (members-All rows)),
    λ m c h. gathered-row rows c m (get ClusterId-discrete c (gathered rows)) refl h,
  )

  selected :
      {A : Type 0} (f : Tables → A) (w : World) {a : A}
      → (select P f w).0 ≡ ok a
      → (f w.tables ≡ a) × ((select P f w).1.tables ≡ w.tables)
  unfolding select
  selected f w h = call-eq-ok P (λ w. f w.tables) (λ w. w.tables) w h

  -- Where the database orders by permuting, a snapshot that is returned counts the rows of mentions and of
  -- similarities, lists, under the id of its cluster, every mention that has a row of membership, and no
  -- mention under a cluster that no row puts it in; and taking it changes no table.
  pub state-ListsAll :
      (w : World) {s : ResolverState}
      → (state P order_by w).0 ≡ ok s
      → (s.mention_count ≡ length w.tables.mentions)
        × (s.similarity_count ≡ length w.tables.similarities)
        × ListsAll w.tables.clusters s.cluster_membership
        × ((state P order_by w).1.tables ≡ w.tables)
  unfolding state get_all_memberships Mentions.count Similarities.count Clusters.count pure
  state-ListsAll w {s} h =
      let (n, counted, h₁, e₁) = >>=-eq-ok (Mentions.count P) _ w h in
      let (k, compared, h₂, e₂) = >>=-eq-ok (Similarities.count P) _ (Mentions.count P w).1 h₁ in
      let v = (Similarities.count P (Mentions.count P w).1).1 in
      let (l, clustered, h₃, e₃) = >>=-eq-ok (Clusters.count P) _ v h₂ in
      let u = (Clusters.count P v).1 in
      let (d, listed, h₄, e₄) = >>=-eq-ok (get_all_memberships P order_by) _ u h₃ in
      let (mentions, t₁) = selected (λ t. length t.mentions) w counted in
      let (similarities, t₂) =
        selected (λ t. length t.similarities) (Mentions.count P w).1 compared in
      let (clusters, t₃) = selected (λ t. length (distinct_clusters t.clusters [])) v clustered in
      let (memberships, t₄) = selected (λ t. gathered t.clusters) u listed in
      let same : u.tables ≡ w.tables = t₃ ∙ t₂ ∙ t₁ in
      let is = ok-injective h₄ in
      (
        sym (ap (λ (x : ResolverState). x.mention_count) is) ∙ sym mentions,
        sym (ap (λ (x : ResolverState). x.similarity_count) is)
            ∙ sym similarities
            ∙ ap (λ (t : Tables). length t.similarities) t₁,
        subst (ListsAll w.tables.clusters)
            (ap (λ (t : Tables). gathered t.clusters) (sym same)
              ∙ memberships
              ∙ ap (λ (x : ResolverState). x.cluster_membership) is)
            (gathered-ListsAll w.tables.clusters),
        ap (λ (x : World). x.tables) (e₁ ∙ e₂ ∙ e₃ ∙ e₄) ∙ t₄ ∙ same,
      )
