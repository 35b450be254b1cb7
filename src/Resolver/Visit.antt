-- ===== src/Resolver/Visit.antt =====
-- The loop of `EntityResolver._resolve_bite` over the mentions of a bite, in order of arrival
-- (src/ere/services/entity_resolution_service.py).
pub mod Rounds
pub mod Founders
use entity_resolution_engine.Base.{Option, none, some, List, [], ◌∷◌, ◌++◌}
use entity_resolution_engine.Base.Dict.{Dict, get, put}
use entity_resolution_engine.Model.Errors.{Result, ok, raise, key_error, ◌>>=◌}
use entity_resolution_engine.Model.Mentions.{MentionId, ClusterId, MentionId-discrete, Mention}
use entity_resolution_engine.Model.Links.{MentionLink}
use entity_resolution_engine.Model.Clusters.{ResolutionResult}
use entity_resolution_engine.Tracing.{MentionTrace, DeferredStage}
use entity_resolution_engine.Config.{ResolverConfig}
use entity_resolution_engine.Resolver.Ranking.{rank_candidates, best_links}
use entity_resolution_engine.Resolver.Assignment.{assign_cluster}
use entity_resolution_engine.Resolver.Earlier.{Grouped}

-- the variables of the loop
pub record Progress : Type 0 where
  pub results : List ResolutionResult
  pub kept_links : List MentionLink
  pub bite_clusters : Dict MentionId ClusterId
  pub linked_clusters : Dict MentionId ClusterId
  pub stages : List DeferredStage

abbrev pub start : Dict MentionId ClusterId → Progress
start linked = record {
  results = [];
  kept_links = [];
  bite_clusters = [];
  linked_clusters = linked;
  stages = [];
}

-- links_by_mention[mention.id]
unfoldable pub links_at : MentionId → Option (List MentionLink) → Result (List MentionLink)
links_at m none = raise (key_error m.value)
links_at m (some ls) = ok ls

-- one round, for a mention with its links
unfoldable pub visit_links :
    ResolverConfig → Mention → MentionTrace → List MentionLink → Progress → Result Progress
unfolding put
visit_links config m trace links p = do
  (cluster_id, stages) ← assign_cluster config.threshold m.id links p.linked_clusters trace
  let linked = put MentionId-discrete m.id cluster_id p.linked_clusters
  result ← rank_candidates config.top_n m.id cluster_id links linked
  ok (record {
    results = p.results ++ result ∷ [];
    kept_links = p.kept_links ++ best_links config.top_n links;
    bite_clusters = put MentionId-discrete m.id cluster_id p.bite_clusters;
    linked_clusters = linked;
    stages = p.stages ++ stages;
  })

unfoldable pub visit :
    ResolverConfig → Grouped → Mention → MentionTrace → Progress → Result Progress
unfolding get
visit config grouped m trace p = do
  links ← links_at m.id (get MentionId-discrete m.id grouped)
  visit_links config m trace links p

unfoldable pub visit_all :
    ResolverConfig → Grouped → List (Mention × MentionTrace) → Progress → Result Progress
visit_all config grouped [] p = ok p
visit_all config grouped ((m, trace) ∷ rest) p = do
  p' ← visit config grouped m trace p
  visit_all config grouped rest p'
