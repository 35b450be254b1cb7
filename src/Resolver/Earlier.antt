-- ===== src/Resolver/Earlier.antt =====
-- `EntityResolver._links_to_earlier` (src/ere/services/entity_resolution_service.py): the links of a
-- bite, grouped by new mention; only those to stored mentions or to earlier members of the bite.
use entity_resolution_engine.Base.{
  ℕ, ◌+◌, String, String-discrete, Option, none, some, List, [], ◌∷◌, ◌++◌, Bool, false, ltb,
  if◌then◌else◌, ite,
}
use entity_resolution_engine.Base.Dict.{Dict, get, put}
use entity_resolution_engine.Model.Errors.{Result, ok, raise, key_error, ◌>>=◌}
use entity_resolution_engine.Model.Mentions.{MentionId, MentionId-discrete, Mention}
use entity_resolution_engine.Model.Links.{MentionLink, mention_link, LinkTable, Row, rows}

-- {mention.id.value: position for position, mention in enumerate(mentions)}
unfoldable pub arrival_from : ℕ → List Mention → Dict String ℕ → Dict String ℕ
unfolding put
arrival_from i [] d = d
arrival_from i (m ∷ ms) d = arrival_from (i + 1) ms (put String-discrete m.id.value i d)

abbrev pub arrival : List Mention → Dict String ℕ
arrival ms = arrival_from 0 ms []

abbrev pub Grouped : Type 0
Grouped = Dict MentionId (List MentionLink)

-- {mention.id: [] for mention in mentions}
unfoldable pub no_links : List Mention → Grouped → Grouped
unfolding put
no_links [] g = g
no_links (m ∷ ms) g = no_links ms (put MentionId-discrete m.id [] g)

-- grouped[left_id].append(link)
unfoldable pub append_link :
    MentionId → MentionLink → Option (List MentionLink) → Grouped → Result Grouped
unfolding put
append_link m link none g = raise (key_error m.value)
append_link m link (some ls) g = ok (put MentionId-discrete m (ls ++ link ∷ []) g)

-- arrival.get(right, -1) > position
unfoldable pub arrives_after : Option ℕ → ℕ → Bool
arrives_after none position = false
arrives_after (some p) position = ltb position p

-- the rest of the loop's body, where the two ids differ; `arrival[left]` may raise
unfoldable pub group_link : Dict String ℕ → Row → Option ℕ → Grouped → Result Grouped
unfolding get append_link mention_link arrives_after
group_link arrived r none g = raise (key_error r.left)
group_link arrived r (some position) g =
    if arrives_after (get String-discrete r.right arrived) position then ok g else do
      link ← mention_link (record { value = r.left }) (record { value = r.right }) r.score
      append_link link.left_id link (get MentionId-discrete link.left_id g) g

unfoldable pub group_row : Dict String ℕ → Row → Grouped → Result Grouped
unfolding get group_link
group_row arrived r g =
    ite (String-discrete r.left r.right) (ok g)
      (group_link arrived r (get String-discrete r.left arrived) g)

unfoldable pub group_rows : Dict String ℕ → List Row → Grouped → Result Grouped
unfolding group_row
group_rows arrived [] g = ok g
group_rows arrived (r ∷ rs) g = do g' ← group_row arrived r g; group_rows arrived rs g'

-- EntityResolver._links_to_earlier
unfoldable pub links_to_earlier : List Mention → LinkTable → Result Grouped
unfolding arrival_from no_links group_rows rows
links_to_earlier mentions table = group_rows (arrival mentions) (rows table) (no_links mentions [])
