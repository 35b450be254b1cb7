-- ===== src/Resolver/Consistency/Kept.antt =====
-- A bite that is resolved leaves the tables consistent
-- (src/ere/services/entity_resolution_service.py, `EntityResolver._resolve_bite`).
use mathlib.Core.List.{map-append}
use entity_resolution_engine.Base.{
  none, some, List, [], ◌∷◌, ◌++◌, map, zip, length, ◌≡◌, ◌≢◌, refl, ◌∙◌, ap, sym, inl, inr, arith,
  All, All-append, All-weaken, All-both, All-always, Distinct-append, All-swap,
}
use entity_resolution_engine.Base.Dict.{Dict, get}
use entity_resolution_engine.Model.Mentions.{MentionId, ClusterId, MentionId-discrete, Mention}
use entity_resolution_engine.Model.Clusters.{ClusterMembership, ResolutionResult}
use entity_resolution_engine.Tracing.{MentionTrace, DeferredStage}
use entity_resolution_engine.World.{World, Tables, Platform}
use entity_resolution_engine.Config.{ResolverConfig}
use entity_resolution_engine.Repositories.Rows.{cluster_of, clusters_among}
use entity_resolution_engine.Resolver.Bite.{ids, outside_ids}
use entity_resolution_engine.Resolver.Bite.Outcome.{Outcome, Memberships, stored_rows}
use entity_resolution_engine.Resolver.Visit.{start}
use entity_resolution_engine.Resolver.Visit.Founders.{
  founder, Among, IsNew, IsFounded, visit_all-IsFounded,
}
use entity_resolution_engine.Resolver.Consistency

get-nil : (k : MentionId) {c : ClusterId} → get MentionId-discrete k [] ≡ some c → ⊥
unfolding get
get-nil k h = ground arith

get-nothing : (k : MentionId) → get {V = ClusterId} MentionId-discrete k [] ≡ none
unfolding get
get-nothing k = refl

stored_values :
    (d : Dict MentionId ClusterId) (ms : List Mention) (cs : List ClusterMembership)
    → Memberships d ms cs
    → map (λ c. some c.mention_id.value) cs ≡ map (λ m. some m.id.value) ms
stored_values d [] cs h = rw h
stored_values d (m ∷ ms) cs (c, rest, here, is, more) =
    ap (map (λ (x : ClusterMembership). some x.mention_id.value)) is
    ∙ ap (◌∷◌ (some m.id.value)) (stored_values d ms rest more)

-- No mention of the bite is one of the stored ones.
apart :
    (cs : List ClusterMembership) (ms : List Mention)
    → All (λ m. cluster_of m.id cs ≡ none) ms
    → All (λ j. All (λ i. i ≢ j) (map (λ c. c.mention_id) cs)) (ids ms)
apart cs [] h = tt
apart cs (m ∷ ms) h = (Consistency.not_stored m.id cs h.0, apart cs ms h.1)

module _ (P : Platform) (config : ResolverConfig) {ms : List Mention} {ts : List MentionTrace}
    {w : World} {results : List ResolutionResult} {stages : List DeferredStage} {after : Tables}
    (o : Outcome P config ms ts w results stages after) (before : Consistency.IsConsistent w.tables)
    (fresh : Consistency.IsFresh w.tables ms) where
  initial :
      IsFounded w.tables.clusters ms
        (start (clusters_among (outside_ids (ids ms) o.grouped) w.tables.clusters []))
  initial = record {
    linked = λ k c h. inl (
        Consistency.clusters_among-All (λ c. cluster_of (founder c) w.tables.clusters ≡ some c)
          (outside_ids (ids ms) o.grouped) w.tables.clusters [] before.founded
          (λ k c g. absurd (get-nil k g)) k c h);
    bite = λ k c h. absurd (get-nil k h);
  }

  pub loop : IsFounded w.tables.clusters ms o.done × (length o.done.results ≡ length (zip ms ts))
  loop =
      let (founded, size) =
        visit_all-IsFounded w.tables.clusters ms config o.grouped (zip ms ts)
          (start (clusters_among (outside_ids (ids ms) o.grouped) w.tables.clusters [])) o.visited
          initial
          (All-always
            (λ (e : Mention × MentionTrace).
              get {V = ClusterId} MentionId-discrete e.0.id [] ≡ none)
            (λ e. get-nothing e.0.id) (zip ms ts))
          (Consistency.All-zip (IsNew w.tables.clusters ms) ms ts (
            All-both (λ m. cluster_of m.id w.tables.clusters ≡ none) (λ m. Among m.id ms) ms
              fresh.unknown (Consistency.Among-self ms ms (λ k a. a))))
          (Consistency.AllApart-zip ms ts fresh.apart) in
      (founded, ground arith)

  -- the mentions are stored with the clusters that the loop has given them
  stored :
      (k : MentionId) {c : ClusterId}
      → cluster_of k w.tables.clusters ≡ none
      → Among k ms
      → get MentionId-discrete k o.done.bite_clusters ≡ some c
      → cluster_of k (w.tables.clusters ++ o.members) ≡ some c
  stored k unknown among known =
      Consistency.cluster_of-append_none k w.tables.clusters o.members unknown
      ∙ Consistency.cluster_of-members o.done.bite_clusters k ms o.members o.memberships among known

  founded_before :
      (c : ClusterId)
      → cluster_of (founder c) w.tables.clusters ≡ some c
      → cluster_of (founder c) (w.tables.clusters ++ o.members) ≡ some c
  founded_before c h = Consistency.cluster_of-append_some (founder c) w.tables.clusters o.members h

  founded_now :
      (k : MentionId) (c : ClusterId)
      → get MentionId-discrete k o.done.bite_clusters ≡ some c
      → cluster_of (founder c) (w.tables.clusters ++ o.members) ≡ some c
  founded_now k c h = elim (loop.0.bite k c h).0 [
    | inl old ↦ founded_before c old
    | inr here ↦
        let (unknown, among) = (loop.0.bite (founder c) c here).1 in
        stored (founder c) unknown among here
  ]

  founded_members :
      (ns : List Mention) (cs : List ClusterMembership)
      → Memberships o.done.bite_clusters ns cs
      → All
          (λ c.
            cluster_of (founder c.cluster_id) (w.tables.clusters ++ o.members) ≡ some c.cluster_id)
          cs
  founded_members [] cs h = rw h tt
  founded_members (n ∷ ns) cs (c, rest, here, is, more) =
      rw is (founded_now n.id c here, founded_members ns rest more)

  pub Outcome-IsConsistent : Consistency.IsConsistent after
  Outcome-IsConsistent =
      let new_ids = Consistency.ids-members o.done.bite_clusters ms o.members o.memberships in
      record {
        same_ids = rw o.mentions (
            rw o.clusters (
              map-append (λ r. r.mention_id) w.tables.mentions (stored_rows P config ms)
              ∙ ap (λ l. l ++ map (λ r. r.mention_id) (stored_rows P config ms)) before.same_ids
              ∙ ap
                  (λ l.
                    map (λ (c : ClusterMembership). some c.mention_id.value) w.tables.clusters ++ l)
                  (Consistency.stored_ids P config ms fresh.plain
                    ∙ sym (stored_values o.done.bite_clusters ms o.members o.memberships))
              ∙ sym (
                  map-append (λ (c : ClusterMembership). some c.mention_id.value) w.tables.clusters
                    o.members)));
        distinct = rw o.clusters (
            rw map-append (
              rw new_ids (
                Distinct-append (map (λ c. c.mention_id) w.tables.clusters) (ids ms) before.distinct
                  fresh.apart
                  (All-swap (λ i j. i ≢ j) (map (λ c. c.mention_id) w.tables.clusters) (ids ms)
                    (apart w.tables.clusters ms fresh.unknown)))));
        founded = rw o.clusters (
            All-append
              (λ c.
                cluster_of (founder c.cluster_id) (w.tables.clusters ++ o.members)
                ≡ some c.cluster_id)
              w.tables.clusters o.members
              (All-weaken
                (λ c. cluster_of (founder c.cluster_id) w.tables.clusters ≡ some c.cluster_id) _
                (λ c h. founded_before c.cluster_id h) w.tables.clusters before.founded)
              (founded_members ms o.members o.memberships));
      }
