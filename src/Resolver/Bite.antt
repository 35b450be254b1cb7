-- ===== src/Resolver/Bite.antt =====
-- `EntityResolver._resolve_bite` (src/ere/services/entity_resolution_service.py).
pub mod Quiet
pub mod Stored
pub mod Outcome
use entity_resolution_engine.Base.{Option, none, some, List, [], ◌∷◌, ◌++◌, map, zip, if◌then◌else◌}
use entity_resolution_engine.Base.Dict.{Dict, get, put}
use entity_resolution_engine.Model.Errors
use entity_resolution_engine.Model.Errors.{Result, ok, raise, key_error}
use entity_resolution_engine.Model.Mentions.{MentionId, ClusterId, MentionId-discrete, Mention}
use entity_resolution_engine.Model.Links.{MentionLink, LinkTable, link_table}
use entity_resolution_engine.Model.Clusters.{ClusterMembership, ResolutionResult}
use entity_resolution_engine.Tracing.{MentionTrace, DeferredStage}
use entity_resolution_engine.World.{World, Platform, Exec, ◌>>=◌, ◌>>◌, pure, lift, call}
use entity_resolution_engine.Config.{ResolverConfig}
use entity_resolution_engine.Repositories.Rows.{is_among}
use entity_resolution_engine.Repositories.Mentions
use entity_resolution_engine.Repositories.Similarities
use entity_resolution_engine.Repositories.Clusters
use entity_resolution_engine.Resolver.Earlier.{Grouped, links_to_earlier}
use entity_resolution_engine.Resolver.Visit.{Progress, start, visit_all}

-- {link.right_id for links in ... for link in links} - bite_ids
unfoldable pub right_ids : List MentionId → List MentionLink → List MentionId
unfolding is_among
right_ids bite [] = []
right_ids bite (l ∷ ls) =
    if is_among l.right_id bite then right_ids bite ls else l.right_id ∷ right_ids bite ls

unfoldable pub outside_ids : List MentionId → Grouped → List MentionId
unfolding right_ids
outside_ids bite [] = []
outside_ids bite ((m, ls) ∷ g) = right_ids bite ls ++ outside_ids bite g

-- _to_link_table
unfoldable pub to_link_table : List MentionLink → Result LinkTable
unfolding link_table
to_link_table links =
    link_table (map (λ l. l.left_id.value) links) (map (λ l. l.right_id.value) links)
      (map (λ l. l.score) links)

abbrev pub ids : List Mention → List MentionId
ids = map (λ m. m.id)

-- bite_clusters[mention.id]
unfoldable pub assigned : MentionId → Option ClusterId → Result ClusterMembership
assigned m none = raise (key_error m.value)
assigned m (some c) = ok (record { mention_id = m; cluster_id = c })

module _ (P : Platform) (config : ResolverConfig) where
  -- save each mention; registering it with a linker on the shared connection does nothing more
  unfoldable pub save_mentions : List Mention → Exec (Unit {0})
  save_mentions [] = pure tt
  save_mentions (m ∷ ms) = do Mentions.save P config.entity_fields m; save_mentions ms

  unfoldable pub save_clusters : List Mention → Dict MentionId ClusterId → Exec (Unit {0})
  save_clusters [] d = pure tt
  save_clusters (m ∷ ms) d = do
    membership ← lift (assigned m.id (get MentionId-discrete m.id d))
    Clusters.save P membership
    save_clusters ms d

  -- linker.find_matches_batch
  unfoldable pub find_matches_batch : List Mention → Exec LinkTable
  find_matches_batch mentions =
      call P (λ w. P.find_matches_batch w.calls w.tables.mentions mentions) (λ w. w.tables)

  -- EntityResolver._resolve_bite: the results, and the stages to emit
  unfoldable pub resolve_bite :
      List Mention → List MentionTrace → Exec (List ResolutionResult × List DeferredStage)
  resolve_bite mentions traces = do
    save_mentions mentions
    table ← find_matches_batch mentions
    grouped ← lift (links_to_earlier mentions table)
    linked ← Clusters.clusters_for P (outside_ids (ids mentions) grouped)
    done ← lift (visit_all config grouped (zip mentions traces) (start linked))
    kept ← lift (to_link_table done.kept_links)
    Similarities.save_table P kept
    save_clusters mentions done.bite_clusters
    pure (done.results, done.stages)
