-- ===== src/Resolver/Consistency.antt =====
-- The tables stay consistent: each stored mention has one membership, and each cluster has the id of
-- the mention that founded it, which is a member of it (src/ere/models/resolver/ids.py).
pub mod Kept
use entity_resolution_engine.Base.{
  String, String-discrete, Bool-cases, Option, Option-cases, none, some, List, [], ◌∷◌, ◌++◌, map,
  zip, length, suc, ◌≡◌, ◌≢◌, refl, ◌∙◌, ap, sym, subst, ◌⊎◌, inl, inr, arith, All, All-append,
  All-weaken, Distinct, Distinct-append, if_pos, if_neg, ite,
}
use entity_resolution_engine.Base.Dict.{Dict, get, put, get-put, get-put_ne}
use entity_resolution_engine.Model.Errors.{Attributes}
use entity_resolution_engine.Model.Mentions.{
  MentionId, ClusterId, MentionId-discrete, Mention, update, to_flat_dict,
}
use entity_resolution_engine.Model.Clusters.{ClusterMembership, ResolutionResult}
use entity_resolution_engine.Tracing.{MentionTrace, DeferredStage}
use entity_resolution_engine.World.{World, Tables, MentionRow, Platform}
use entity_resolution_engine.Config.{ResolverConfig}
use entity_resolution_engine.Repositories.Rows.{
  mention_row, column, cluster_of, clusters_among, is_among,
}
use entity_resolution_engine.Resolver.Bite.{ids, outside_ids}
use entity_resolution_engine.Resolver.Bite.Outcome.{Memberships, Outcome, stored_rows}
use entity_resolution_engine.Resolver.Visit.{Progress, start}
use entity_resolution_engine.Resolver.Visit.Rounds.{put-cases}
use entity_resolution_engine.Resolver.Visit.Founders.{
  founder, Among, Founded, IsNew, IsFounded, AllApart, ApartFrom, visit_all-IsFounded,
}

pub record IsConsistent (t : Tables) : Type 0 where
  -- the stored mentions and the memberships are in the same order
  pub same_ids : map (λ r. r.mention_id) t.mentions ≡ map (λ c. some c.mention_id.value) t.clusters
  pub distinct : Distinct (map (λ c. c.mention_id) t.clusters)
  pub founded :
      All (λ c. cluster_of (founder c.cluster_id) t.clusters ≡ some c.cluster_id) t.clusters

-- The mentions can be stored: none of them is, no two have the same id, and no attribute hides it.
pub record IsFresh (t : Tables) (ms : List Mention) : Type 0 where
  pub apart : Distinct (ids ms)
  pub unknown : All (λ m. cluster_of m.id t.clusters ≡ none) ms
  pub plain : All (λ m. get String-discrete "mention_id" m.attributes ≡ none) ms

pub cluster_of-append_some :
    (k : MentionId) (xs ys : List ClusterMembership) {c : ClusterId}
    → cluster_of k xs ≡ some c
    → cluster_of k (xs ++ ys) ≡ some c
unfolding cluster_of
cluster_of-append_some k [] ys h = absurd (ground arith)
cluster_of-append_some k (x ∷ xs) ys {c} h = ground (arith, cluster_of-append_some k xs ys {c = c})

pub cluster_of-append_none :
    (k : MentionId) (xs ys : List ClusterMembership)
    → cluster_of k xs ≡ none
    → cluster_of k (xs ++ ys) ≡ cluster_of k ys
unfolding cluster_of
cluster_of-append_none k [] ys h = refl
cluster_of-append_none k (x ∷ xs) ys h = ground (arith, cluster_of-append_none k xs ys)

pub not_stored :
    (k : MentionId) (xs : List ClusterMembership)
    → cluster_of k xs ≡ none
    → All (λ i. i ≢ k) (map (λ c. c.mention_id) xs)
unfolding cluster_of
not_stored k [] h = tt
not_stored k (x ∷ xs) h = ground (arith, not_stored k xs)

module _ (d : Dict MentionId ClusterId) where
  pub cluster_of-members :
      (k : MentionId) (ms : List Mention) (cs : List ClusterMembership) {c : ClusterId}
      → Memberships d ms cs
      → Among k ms
      → get MentionId-discrete k d ≡ some c
      → cluster_of k cs ≡ some c
  unfolding cluster_of
  cluster_of-members k [] cs h a g = absurd a
  cluster_of-members k (m ∷ ms) cs (c₀, rest, here, is, more) (inl same) g =
      rw is (if_pos (MentionId-discrete m.id k) same _ _ ∙ sym here ∙ rw same g)
  cluster_of-members k (m ∷ ms) cs (c₀, rest, here, is, more) (inr later) g =
      rw is (elim (MentionId-discrete m.id k) [
        | yes same ↦ if_pos (MentionId-discrete m.id k) same _ _ ∙ sym here ∙ rw same g
        | no other ↦
            if_neg (MentionId-discrete m.id k) other _ _ ∙ cluster_of-members k ms rest more later g
      ])

  pub ids-members :
      (ms : List Mention) (cs : List ClusterMembership)
      → Memberships d ms cs
      → map (λ c. c.mention_id) cs ≡ ids ms
  ids-members [] cs h = rw h
  ids-members (m ∷ ms) cs (c, rest, here, is, more) =
      ap (map (λ (x : ClusterMembership). x.mention_id)) is
      ∙ ap (◌∷◌ m.id) (ids-members ms rest more)

get-update :
    (k : String) (d e : Attributes)
    → get String-discrete k e ≡ none
    → get String-discrete k (update d e) ≡ get String-discrete k d
unfolding update get
get-update k d [] h = refl
get-update k d ((j, v) ∷ e) h = elim (String-discrete j k) [
  | yes p ↦ absurd (ground arith)
  | no q ↦
      get-update k (put String-discrete j v d) e (sym (if_neg (String-discrete j k) q _ _) ∙ h)
      ∙ get-put_ne String-discrete j k v d q
]

-- A mention with no attribute of that name is stored under its id.
pub mention_id-mention_row :
    (fields : List String) (m : Mention)
    → get String-discrete "mention_id" m.attributes ≡ none
    → (mention_row fields m).mention_id ≡ some m.id.value
unfolding mention_row column to_flat_dict get
mention_id-mention_row fields m h =
    ground (arith, get-update "mention_id" (("mention_id", some m.id.value) ∷ []) m.attributes h)

module _ (P : Platform) (config : ResolverConfig) where
  pub stored_ids :
      (ms : List Mention)
      → All (λ m. get String-discrete "mention_id" m.attributes ≡ none) ms
      → map (λ r. r.mention_id) (stored_rows P config ms) ≡ map (λ m. some m.id.value) ms
  stored_ids [] h = refl
  stored_ids (m ∷ ms) h =
      rw (mention_id-mention_row config.entity_fields m h.0)
        (ap (◌∷◌ (some m.id.value)) (stored_ids ms h.1))

-- A cluster that a lookup over stored rows finds has what the clusters of the rows have.
pub clusters_among-All :
    (Q : ClusterId → Type 0) (wanted : List MentionId) (rs : List ClusterMembership)
    (d : Dict MentionId ClusterId)
    → All (λ r. Q r.cluster_id) rs
    → ((k : MentionId) (c : ClusterId) → get MentionId-discrete k d ≡ some c → Q c)
    → (k : MentionId) (c : ClusterId)
    → get MentionId-discrete k (clusters_among wanted rs d) ≡ some c
    → Q c
unfolding clusters_among
clusters_among-All Q wanted [] d stored known k c h = known k c h
clusters_among-All Q wanted (r ∷ rs) d stored known k c h =
    elim (Bool-cases (is_among r.mention_id wanted)) [
      | inl e ↦
          clusters_among-All Q wanted rs (put MentionId-discrete r.mention_id r.cluster_id d)
            stored.1
            (λ j b g. elim (put-cases j r.mention_id r.cluster_id b d _ refl g) [
              | inl (same, is) ↦ subst Q is stored.0
              | inr old ↦ known j b old
            ])
            k c (rw e at h)
      | inr e ↦ clusters_among-All Q wanted rs d stored.1 known k c (rw e at h)
    ]

pub AllApart-zip :
    (ms : List Mention) (ts : List MentionTrace) → Distinct (ids ms) → AllApart (zip ms ts)
AllApart-zip [] ts h = tt
AllApart-zip (m ∷ ms) [] h = tt
AllApart-zip (m ∷ ms) (t ∷ ts) h = (apart_zip ms ts h.0, AllApart-zip ms ts h.1)
  where
    apart_zip :
        (ns : List Mention) (us : List MentionTrace)
        → All (λ j. m.id ≢ j) (ids ns)
        → ApartFrom m.id (zip ns us)
    apart_zip [] us p = tt
    apart_zip (n ∷ ns) [] p = tt
    apart_zip (n ∷ ns) (u ∷ us) p = (p.0, apart_zip ns us p.1)

pub All-zip :
    (Q : MentionId → Type 0) (ms : List Mention) (ts : List MentionTrace)
    → All (λ m. Q m.id) ms
    → All (λ e. Q e.0.id) (zip ms ts)
All-zip Q [] ts h = tt
All-zip Q (m ∷ ms) [] h = tt
All-zip Q (m ∷ ms) (t ∷ ts) h = (h.0, All-zip Q ms ts h.1)

pub Among-self :
    (all ms : List Mention)
    → ((k : MentionId) → Among k ms → Among k all)
    → All (λ m. Among m.id all) ms
Among-self all [] f = tt
Among-self all (m ∷ ms) f = (f m.id (inl refl), Among-self all ms (λ k a. f k (inr a)))
