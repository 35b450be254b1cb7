-- ===== src/Resolver/Bite/Quiet.antt =====
-- A bite records no stage and starts no training: both wait until its transaction is committed.
use entity_resolution_engine.Base.{List, [], ◌∷◌}
use entity_resolution_engine.Base.Dict.{Dict}
use entity_resolution_engine.Model.Mentions.{MentionId, ClusterId, Mention}
use entity_resolution_engine.Model.Links.{Row, LinkTable, rows}
use entity_resolution_engine.Tracing.{MentionTrace}
use entity_resolution_engine.World.{Platform, insert, select}
use entity_resolution_engine.World.Keeps.{
  Keeps, outside, keeps_rules, Keeps-bind, Keeps-outside-call,
}
use entity_resolution_engine.Config.{ResolverConfig}
use entity_resolution_engine.Repositories.Mentions
use entity_resolution_engine.Repositories.Similarities
use entity_resolution_engine.Repositories.Clusters
use entity_resolution_engine.Resolver.Bite.{
  save_mentions, save_clusters, find_matches_batch, resolve_bite,
}

module _ (P : Platform) (config : ResolverConfig) where
  ruleset rules = (keeps_rules, Keeps-outside-call)

  save_mentions-Keeps : (ms : List Mention) → Keeps outside (save_mentions P config ms)
  unfolding save_mentions Mentions.save insert
  save_mentions-Keeps [] = search rules
  save_mentions-Keeps (m ∷ ms) = Keeps-bind _ _ (search rules) (λ _. save_mentions-Keeps ms)

  save_clusters-Keeps :
      (ms : List Mention) (d : Dict MentionId ClusterId)
      → Keeps outside (save_clusters P config ms d)
  unfolding save_clusters Clusters.save insert
  save_clusters-Keeps [] d = search rules
  save_clusters-Keeps (m ∷ ms) d =
      Keeps-bind _ _ (search rules)
        (λ _. Keeps-bind _ _ (search rules) (λ _. save_clusters-Keeps ms d))

  find_matches_batch-Keeps : (ms : List Mention) → Keeps outside (find_matches_batch P config ms)
  unfolding find_matches_batch
  find_matches_batch-Keeps ms = search rules

  clusters_for-Keeps : (ids : List MentionId) → Keeps outside (Clusters.clusters_for P ids)
  unfolding Clusters.clusters_for select
  clusters_for-Keeps [] = search rules
  clusters_for-Keeps (i ∷ ids) = search rules

  save_rows-Keeps : (rows : List Row) → Keeps outside (Similarities.save_rows P rows)
  unfolding Similarities.save_rows insert
  save_rows-Keeps [] = search rules
  save_rows-Keeps (r ∷ rs) = search rules

  save_table-Keeps : (table : LinkTable) → Keeps outside (Similarities.save_table P table)
  unfolding Similarities.save_table
  save_table-Keeps table = save_rows-Keeps (rows table)

  pub resolve_bite-Keeps :
      (ms : List Mention) (ts : List MentionTrace) → Keeps outside (resolve_bite P config ms ts)
  unfolding resolve_bite
  resolve_bite-Keeps ms ts =
      search
        (
          keeps_rules, save_mentions-Keeps, save_clusters-Keeps, find_matches_batch-Keeps,
          clusters_for-Keeps, save_table-Keeps,
        )
        depth 12
