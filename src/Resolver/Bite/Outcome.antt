-- ===== src/Resolver/Bite/Outcome.antt =====
-- What a bite that is resolved has written, and from what.
use mathlib.Core.List.{append_assoc, append-nil}
use entity_resolution_engine.Base.{
  ℕ, some, List, [], ◌∷◌, ◌++◌, map, zip, ◌≡◌, refl, ◌∙◌, ap, arith,
}
use entity_resolution_engine.Base.Dict.{Dict, get}
use entity_resolution_engine.Model.Errors.{Result, ok}
use entity_resolution_engine.Model.Mentions.{MentionId, ClusterId, MentionId-discrete, Mention}
use entity_resolution_engine.Model.Links.{LinkTable, rows}
use entity_resolution_engine.Model.Clusters.{ClusterMembership, ResolutionResult}
use entity_resolution_engine.Tracing.{MentionTrace, DeferredStage}
use entity_resolution_engine.World.{World, Tables, MentionRow, Platform, pure, lift, insert}
use entity_resolution_engine.World.Steps.{>>=-eq-ok, call-eq-ok}
use entity_resolution_engine.Config.{ResolverConfig}
use entity_resolution_engine.Repositories.Rows.{mention_row, link_row, clusters_among}
use entity_resolution_engine.Repositories.Mentions
use entity_resolution_engine.Repositories.Similarities
use entity_resolution_engine.Repositories.Clusters
use entity_resolution_engine.Resolver.Earlier.{Grouped, links_to_earlier}
use entity_resolution_engine.Resolver.Visit.{Progress, start, visit_all}
use entity_resolution_engine.Resolver.Bite.{
  ids, assigned, outside_ids, to_link_table, save_mentions, save_clusters, find_matches_batch,
  resolve_bite,
}
use entity_resolution_engine.Resolver.Bite.Stored.{
  stored_link, to_link_table-rows, clusters_for-eq-ok, save_table-eq-ok, assigned-eq-ok,
}

-- The memberships that are saved: that of each mention, in order.
abbrev pub Memberships : Dict MentionId ClusterId → List Mention → List ClusterMembership → Type 0
Memberships d [] cs = cs ≡ []
Memberships d (m ∷ ms) cs =
    (c : ClusterId) × (rest : List ClusterMembership) × (get MentionId-discrete m.id d ≡ some c)
    × (cs ≡ record { mention_id = m.id; cluster_id = c } ∷ rest)
    × Memberships d ms rest

module _ (P : Platform) (config : ResolverConfig) where
  abbrev pub stored_rows : List Mention → List MentionRow
  stored_rows ms = map (mention_row config.entity_fields) ms

  save_mentions-eq-ok :
      (ms : List Mention) (w : World)
      → (save_mentions P config ms w).0 ≡ ok tt
      → (save_mentions P config ms w).1.tables
        ≡ record w.tables { mentions = w.tables.mentions ++ stored_rows ms }
  unfolding save_mentions
  save_mentions-eq-ok [] w h = unfold pure in rw append-nil
  save_mentions-eq-ok (m ∷ ms) w h =
      let (_, saved, rest, same) = >>=-eq-ok (Mentions.save P config.entity_fields m) _ w h in
      let v = (Mentions.save P config.entity_fields m w).1 in
      let first : v.tables
          ≡ record w.tables { mentions = w.tables.mentions ++ stored_rows (m ∷ []) } =
        unfold Mentions.save insert in (call-eq-ok P (λ w. tt) _ w saved).1 in
      ap (λ (x : World). x.tables) same
      ∙ save_mentions-eq-ok ms v rest
      ∙ ap (λ (t : Tables). record t { mentions = t.mentions ++ stored_rows ms }) first
      ∙ ap (λ (l : List MentionRow). record w.tables { mentions = l })
          (append_assoc w.tables.mentions (stored_rows (m ∷ [])) (stored_rows ms))

  save_clusters-eq-ok :
      (ms : List Mention) (d : Dict MentionId ClusterId) (w : World)
      → (save_clusters P config ms d w).0 ≡ ok tt
      → (cs : List ClusterMembership) × Memberships d ms cs
        × ((save_clusters P config ms d w).1.tables
            ≡ record w.tables { clusters = w.tables.clusters ++ cs })
  unfolding save_clusters lift
  save_clusters-eq-ok [] d w h = ([], refl, unfold pure in rw append-nil)
  save_clusters-eq-ok (m ∷ ms) d w h =
      let (member, found, next, same) =
        >>=-eq-ok (lift (assigned m.id (get MentionId-discrete m.id d))) _ w h in
      let (_, saved, rest, same') = >>=-eq-ok (Clusters.save P member) _ w next in
      let v = (Clusters.save P member w).1 in
      let (cs, members, tables) = save_clusters-eq-ok ms d v rest in
      let (c, here, is) = assigned-eq-ok m (get MentionId-discrete m.id d) found in
      let first : v.tables ≡ record w.tables { clusters = w.tables.clusters ++ member ∷ [] } =
        unfold Clusters.save insert in (call-eq-ok P (λ w. tt) _ w saved).1 in
      (
        member ∷ cs,
        (c, cs, here, ap (λ x. x ∷ cs) is, members),
        ap (λ (x : World). x.tables) same
            ∙ ap (λ (x : World). x.tables) same'
            ∙ tables
            ∙ ap (λ (t : Tables). record t { clusters = t.clusters ++ cs }) first
            ∙ ap (λ (l : List ClusterMembership). record w.tables { clusters = l })
                (append_assoc w.tables.clusters (member ∷ []) cs),
      )

  -- What is known of a bite that was resolved from `w`.
  pub record Outcome (ms : List Mention) (ts : List MentionTrace) (w : World)
      (results : List ResolutionResult) (stages : List DeferredStage) (after : Tables)
      : Type 0 where
    -- the number of the call that scored the bite
    pub turn : ℕ
    pub grouped : Grouped
    pub done : Progress
    pub members : List ClusterMembership
    pub groups :
        links_to_earlier ms (P.find_matches_batch turn (w.tables.mentions ++ stored_rows ms) ms)
        ≡ ok grouped
    pub visited :
        visit_all config grouped
          (zip ms ts)
          (start (clusters_among (outside_ids (ids ms) grouped) w.tables.clusters []))
        ≡ ok done
    pub memberships : Memberships done.bite_clusters ms members
    pub is_results : results ≡ done.results
    pub is_stages : stages ≡ done.stages
    pub mentions : after.mentions ≡ w.tables.mentions ++ stored_rows ms
    pub similarities :
        after.similarities ≡ w.tables.similarities ++ map (stored_link P) done.kept_links
    pub clusters : after.clusters ≡ w.tables.clusters ++ members

  find_matches_batch-eq-ok :
      (ms : List Mention) (w : World) {table : LinkTable}
      → (find_matches_batch P config ms w).0 ≡ ok table
      → (P.find_matches_batch w.calls w.tables.mentions ms ≡ table)
        × ((find_matches_batch P config ms w).1.tables ≡ w.tables)
  unfolding find_matches_batch
  find_matches_batch-eq-ok ms w h =
      call-eq-ok P (λ w. P.find_matches_batch w.calls w.tables.mentions ms) (λ w. w.tables) w h

  -- The outcome, from what each step of the block is known to have done.
  conclude :
      (ms : List Mention) (ts : List MentionTrace) (w : World) (results : List ResolutionResult)
      (stages : List DeferredStage) (turn : ℕ) (table kept : LinkTable) (grouped : Grouped)
      (linked : Dict MentionId ClusterId) (done : Progress) (members : List ClusterMembership)
      (t₁ t₂ t₃ t₄ after : Tables)
      → t₁ ≡ record w.tables { mentions = w.tables.mentions ++ stored_rows ms }
      → P.find_matches_batch turn t₁.mentions ms ≡ table
      → t₂ ≡ t₁
      → links_to_earlier ms table ≡ ok grouped
      → clusters_among (outside_ids (ids ms) grouped) t₂.clusters [] ≡ linked
      → t₃ ≡ t₂
      → visit_all config grouped (zip ms ts) (start linked) ≡ ok done
      → to_link_table done.kept_links ≡ ok kept
      → t₄ ≡ record t₃ { similarities = t₃.similarities ++ map (link_row P.as_real) (rows kept) }
      → Memberships done.bite_clusters ms members
      → after ≡ record t₄ { clusters = t₄.clusters ++ members }
      → ◌≡◌ {A = Result (List ResolutionResult × List DeferredStage)}
          (ok (done.results, done.stages))
          (ok (results, stages))
      → Outcome ms ts w results stages after
  conclude ms ts w results stages turn table kept grouped linked done members t₁ t₂ t₃ t₄ after e₁ m
        e₂ g l e₃ v k e₄ c e₅ r =
      record {
        turn = turn;
        grouped = grouped;
        done = done;
        members = members;
        groups = cc;
        visited = cc;
        memberships = c;
        is_results = cc;
        is_stages = cc;
        mentions = ground arith;
        similarities = ground (arith, to_link_table-rows P done.kept_links k);
        clusters = ground arith;
      }

  pub resolve_bite-Outcome :
      (ms : List Mention) (ts : List MentionTrace) (w : World) {results : List ResolutionResult}
      {stages : List DeferredStage}
      → (resolve_bite P config ms ts w).0 ≡ ok (results, stages)
      → Outcome ms ts w results stages (resolve_bite P config ms ts w).1.tables
  unfolding resolve_bite lift pure
  resolve_bite-Outcome ms ts w {results} {stages} h =
      let (_, saved, h₁, same₁) = >>=-eq-ok (save_mentions P config ms) _ w h in
      let w₁ = (save_mentions P config ms w).1 in
      let (table, matched, h₂, same₂) = >>=-eq-ok (find_matches_batch P config ms) _ w₁ h₁ in
      let w₂ = (find_matches_batch P config ms w₁).1 in
      let (grouped, groups, h₃, same₃) = >>=-eq-ok (lift (links_to_earlier ms table)) _ w₂ h₂ in
      let wanted = outside_ids (ids ms) grouped in
      let (linked, looked_up, h₄, same₄) = >>=-eq-ok (Clusters.clusters_for P wanted) _ w₂ h₃ in
      let w₃ = (Clusters.clusters_for P wanted w₂).1 in
      let (done, visited, h₅, same₅) =
        >>=-eq-ok (lift (visit_all config grouped (zip ms ts) (start linked))) _ w₃ h₄ in
      let (kept, columns, h₆, same₆) = >>=-eq-ok (lift (to_link_table done.kept_links)) _ w₃ h₅ in
      let (_, linked_rows, h₇, same₇) = >>=-eq-ok (Similarities.save_table P kept) _ w₃ h₆ in
      let w₄ = (Similarities.save_table P kept w₃).1 in
      let (_, stored, h₈, same₈) =
        >>=-eq-ok (save_clusters P config ms done.bite_clusters) _ w₄ h₇ in
      let (members, is_members, last) = save_clusters-eq-ok ms done.bite_clusters w₄ stored in
      let (found, unread) = find_matches_batch-eq-ok ms w₁ matched in
      let (clusters, unread') = clusters_for-eq-ok P wanted w₂ looked_up in
      conclude ms ts w results stages w₁.calls table kept grouped linked done members w₁.tables
        w₂.tables w₃.tables w₄.tables (resolve_bite P config ms ts w).1.tables
        (save_mentions-eq-ok ms w saved) found unread groups clusters unread' visited columns
        (save_table-eq-ok P kept w₃ linked_rows) is_members
        (ap (λ (x : World). x.tables)
            (same₁ ∙ same₂ ∙ same₃ ∙ same₄ ∙ same₅ ∙ same₆ ∙ same₇ ∙ same₈)
          ∙ last)
        h₈
