-- ===== src/Resolver/Snapshot/Grouped.antt =====
-- GROUP BY cluster_id over the rows of memberships, which the snapshot of the resolver's state is made of.
use mathlib.Core.List.{Mem, Mem-prop, mem-cons, mem-cons_self, mem-cons_of_mem, not-mem-nil}
use mathlib.Core.Logic.Or
use entity_resolution_engine.Base.{
  List, [], ◌∷◌, All, All-weaken, ◌≡◌, refl, sym, subst, arith, if_pos, if_neg,
}
use entity_resolution_engine.Model.Mentions.{MentionId, ClusterId, ClusterId-discrete}
use entity_resolution_engine.Model.Clusters.{ClusterMembership}
use entity_resolution_engine.Repositories.Rows.{add_new, distinct_clusters}
use entity_resolution_engine.Resolver.Snapshot.{members}

add_new-self : (c : ClusterId) (ds : List ClusterId) → Mem c (add_new c ds)
unfolding add_new
add_new-self c [] = mem-cons_self
add_new-self c (d ∷ ds) = elim (ClusterId-discrete d c) [
  | yes e ↦ rw (if_pos _ e) (subst (λ x. Mem x (d ∷ ds)) e mem-cons_self)
  | no ne ↦ rw (if_neg _ ne) (mem-cons_of_mem d (add_new-self c ds))
]

add_new-kept : (c d : ClusterId) (ds : List ClusterId) → Mem d ds → Mem d (add_new c ds)
unfolding add_new
add_new-kept c d [] m = absurd (not-mem-nil m)
add_new-kept c d (e ∷ ds) m = elim (ClusterId-discrete e c) [
  | yes p ↦ rw (if_pos _ p) m
  | no ne ↦ rw (if_neg _ ne) (
      Or.elim Mem-prop (mem-cons.0 m) (λ p. rw p mem-cons_self)
        (λ n. mem-cons_of_mem e (add_new-kept c d ds n)))
]

distinct_clusters-kept :
    (rs : List ClusterMembership) (seen : List ClusterId) {d : ClusterId}
    → Mem d seen
    → Mem d (distinct_clusters rs seen)
unfolding distinct_clusters
distinct_clusters-kept [] seen m = m
distinct_clusters-kept (r ∷ rs) seen m =
    distinct_clusters-kept rs (add_new r.cluster_id seen) (add_new-kept r.cluster_id _ seen m)

pub distinct_clusters-All :
    (rs : List ClusterMembership) (seen : List ClusterId)
    → All (λ r. Mem r.cluster_id (distinct_clusters rs seen)) rs
unfolding distinct_clusters
distinct_clusters-All [] seen = tt
distinct_clusters-All (r ∷ rs) seen = (
  distinct_clusters-kept rs (add_new r.cluster_id seen) (add_new-self r.cluster_id seen),
  distinct_clusters-All rs (add_new r.cluster_id seen),
)

members-more :
    (r : ClusterMembership) (rs : List ClusterMembership) (c : ClusterId) {m : MentionId}
    → Mem m (members c rs)
    → Mem m (members c (r ∷ rs))
unfolding members
members-more r rs c h = elim (ClusterId-discrete r.cluster_id c) [
  | yes e ↦ rw (if_pos _ e) (mem-cons_of_mem r.mention_id h)
  | no ne ↦ rw (if_neg _ ne) h
]

pub members-All :
    (rs : List ClusterMembership) → All (λ r. Mem r.mention_id (members r.cluster_id rs)) rs
unfolding members
members-All [] = tt
members-All (r ∷ rs) = (
  rw
      (if_pos (ClusterId-discrete r.cluster_id r.cluster_id) refl
        (r.mention_id ∷ members r.cluster_id rs) (members r.cluster_id rs))
      mem-cons_self,
  All-weaken (λ s. Mem s.mention_id (members s.cluster_id rs))
      (λ s. Mem s.mention_id (members s.cluster_id (r ∷ rs)))
      (λ s h. members-more r rs s.cluster_id h) rs (members-All rs),
)

row-eq :
    (r : ClusterMembership) (m : MentionId) (c : ClusterId)
    → r.mention_id ≡ m
    → r.cluster_id ≡ c
    → r ≡ record { mention_id = m; cluster_id = c }
row-eq r m c p q = grind arith

pub members-row :
    (rs : List ClusterMembership) (c : ClusterId) {m : MentionId}
    → Mem m (members c rs)
    → Mem (record { mention_id = m; cluster_id = c }) rs
unfolding members
members-row [] c h = absurd (not-mem-nil h)
members-row (r ∷ rs) c {m} h = elim (ClusterId-discrete r.cluster_id c) [
  | yes e ↦
      Or.elim Mem-prop (mem-cons.0 (rw (if_pos _ e) at h))
        (λ p. subst (λ x. Mem x (r ∷ rs)) (row-eq r m c (sym p) e) mem-cons_self)
        (λ n. mem-cons_of_mem r (members-row rs c n))
  | no ne ↦ mem-cons_of_mem r (members-row rs c (rw (if_neg _ ne) at h))
]
