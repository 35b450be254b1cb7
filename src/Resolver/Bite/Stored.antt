-- ===== src/Resolver/Bite/Stored.antt =====
-- What the saving of links and memberships leaves in the tables.
use mathlib.Core.List.{append-nil}
use entity_resolution_engine.Base.{
  Option, none, some, List, [], ◌∷◌, ◌++◌, map, ◌≡◌, refl, ap, arith,
}
use entity_resolution_engine.Base.Dict.{Dict}
use entity_resolution_engine.Model.Errors.{ok}
use entity_resolution_engine.Model.Mentions.{MentionId, ClusterId, Mention}
use entity_resolution_engine.Model.Links.{LinkTable, Row, rows, zip_rows, MentionLink, link_table}
use entity_resolution_engine.Model.Clusters.{ClusterMembership}
use entity_resolution_engine.World.{World, LinkRow, Platform, pure, insert, select}
use entity_resolution_engine.World.Steps.{call-eq-ok}
use entity_resolution_engine.Repositories.Rows.{link_row, clusters_among, is_among}
use entity_resolution_engine.Repositories.Similarities
use entity_resolution_engine.Repositories.Clusters
use entity_resolution_engine.Resolver.Ranking.{score_of}
use entity_resolution_engine.Resolver.Bite.{assigned, to_link_table}

-- The row that a link is stored as.
abbrev pub stored_link : Platform → MentionLink → LinkRow
stored_link P l = record {
  left_id = l.left_id.value;
  right_id = l.right_id.value;
  match_probability = P.as_real l.score;
}

pub kept_rows :
    (P : Platform) (links : List MentionLink)
    → map (link_row P.as_real) (
        zip_rows
          (map (λ l. l.left_id.value) links)
          (map (λ l. l.right_id.value) links)
          (map score_of links))
      ≡ map (stored_link P) links
unfolding zip_rows link_row
kept_rows P [] = refl
kept_rows P (l ∷ ls) = ap (◌∷◌ (stored_link P l)) (kept_rows P ls)

pub to_link_table-rows :
    (P : Platform) (links : List MentionLink) {t : LinkTable}
    → to_link_table links ≡ ok t
    → map (link_row P.as_real) (rows t) ≡ map (stored_link P) links
unfolding to_link_table link_table rows
to_link_table-rows P links h = ground (arith, kept_rows P links)

pub is_among_nothing :
    (rs : List ClusterMembership) (d : Dict MentionId ClusterId) → clusters_among [] rs d ≡ d
unfolding clusters_among is_among
is_among_nothing [] d = refl
is_among_nothing (r ∷ rs) d = is_among_nothing rs d

pub clusters_for-eq-ok :
    (P : Platform) (wanted : List MentionId) (w : World) {d : Dict MentionId ClusterId}
    → (Clusters.clusters_for P wanted w).0 ≡ ok d
    → (clusters_among wanted w.tables.clusters [] ≡ d)
      × ((Clusters.clusters_for P wanted w).1.tables ≡ w.tables)
unfolding Clusters.clusters_for select pure
clusters_for-eq-ok P [] w h = (ground (arith, is_among_nothing w.tables.clusters []), refl)
clusters_for-eq-ok P (i ∷ is) w h =
    call-eq-ok P (λ w. clusters_among (i ∷ is) w.tables.clusters []) (λ w. w.tables) w h

pub save_rows-eq-ok :
    (P : Platform) (rs : List Row) (w : World)
    → (Similarities.save_rows P rs w).0 ≡ ok tt
    → (Similarities.save_rows P rs w).1.tables
      ≡ record w.tables { similarities = w.tables.similarities ++ map (link_row P.as_real) rs }
unfolding Similarities.save_rows insert pure
save_rows-eq-ok P [] w h = rw append-nil
save_rows-eq-ok P (r ∷ rs) w h =
    (call-eq-ok P (λ w. tt)
      (λ w. record w.tables {
        similarities = w.tables.similarities ++ map (link_row P.as_real) (r ∷ rs);
      })
      w h).1

pub save_table-eq-ok :
    (P : Platform) (t : LinkTable) (w : World)
    → (Similarities.save_table P t w).0 ≡ ok tt
    → (Similarities.save_table P t w).1.tables ≡ record w.tables {
      similarities = w.tables.similarities ++ map (link_row P.as_real) (rows t);
    }
unfolding Similarities.save_table
save_table-eq-ok P t w h = save_rows-eq-ok P (rows t) w h

pub assigned-eq-ok :
    (m : Mention) (o : Option ClusterId) {member : ClusterMembership}
    → assigned m.id o ≡ ok member
    → (c : ClusterId) × (o ≡ some c) × (member ≡ record { mention_id = m.id; cluster_id = c })
unfolding assigned
assigned-eq-ok m none h = absurd (ground arith)
assigned-eq-ok m (some c) h = (c, refl, ground arith)
