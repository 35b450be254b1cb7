-- ===== src/Resolver/Assignment.antt =====
-- Greedy online assignment: `EntityResolver._assign_cluster`
-- (src/ere/services/entity_resolution_service.py).
use entity_resolution_engine.Base.{Option, none, some, List, [], ◌∷◌, leb, if◌then◌else◌, length}
use entity_resolution_engine.Base.Dict.{Dict, get}
use entity_resolution_engine.Model.Errors.{Result, ok, ◌>>=◌}
use entity_resolution_engine.Model.Mentions.{MentionId, ClusterId, MentionId-discrete}
use entity_resolution_engine.Model.Links.{Score, MentionLink}
use entity_resolution_engine.Tracing.{
  MentionTrace, DeferredStage, ClusterDecision, TraceEvent, TraceField, FieldValue,
}
use entity_resolution_engine.Resolver.Ranking.{find_best_match}

-- ClusterId(value=mention.id.value)
abbrev pub own_cluster : MentionId → ClusterId
own_cluster m = record { value = m.value }

-- linked_clusters.get(best_id) if best_id is not None else None
unfoldable pub best_cluster : Dict MentionId ClusterId → Option MentionId → Option ClusterId
unfolding get
best_cluster linked none = none
best_cluster linked (some m) = get MentionId-discrete m linked

-- the test of the threshold, and both its outcomes
unfoldable pub decide : Score → MentionId → Option ClusterId → Score → ClusterId × ClusterDecision
decide threshold m none score = (own_cluster m, ClusterDecision.new)
decide threshold m (some c) score =
    if leb threshold score then (c, ClusterDecision.join) else (own_cluster m, ClusterDecision.new)

-- `best_sim if links else None`
unfoldable pub best_score_field : List MentionLink → Score → FieldValue
best_score_field [] s = FieldValue.absent
best_score_field (l ∷ ls) s = FieldValue.number s

-- the two stages that are recorded, to be emitted after the commit
unfoldable pub assignment_stages :
    MentionTrace → List MentionLink → Score → ClusterId × ClusterDecision → List DeferredStage
unfolding best_score_field
assignment_stages trace links best_sim (c, decision) =
    record {
      trace = trace;
      event = TraceEvent.scored;
      fields =
          (TraceField.links, FieldValue.number (length links))
          ∷ (TraceField.best_score, best_score_field links best_sim)
          ∷ [];
    }
    ∷ record {
      trace = trace;
      event = TraceEvent.clustered;
      fields =
          (TraceField.decision, FieldValue.decided decision)
          ∷ (TraceField.cluster_id, FieldValue.text c.value)
          ∷ [];
    }
    ∷ []

-- EntityResolver._assign_cluster: the cluster, and the stages to append
unfoldable pub assign_cluster :
    Score
    → MentionId
    → List MentionLink
    → Dict MentionId ClusterId
    → MentionTrace
    → Result (ClusterId × List DeferredStage)
unfolding find_best_match best_cluster decide assignment_stages
assign_cluster threshold m links linked trace = do
  (best_id, best_sim) ← find_best_match links m
  let decided = decide threshold m (best_cluster linked best_id) best_sim
  ok (decided.0, assignment_stages trace links best_sim decided)
