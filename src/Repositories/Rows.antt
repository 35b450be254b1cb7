-- ===== src/Repositories/Rows.antt =====
-- Rows of the tables against domain values: the reading and writing parts of the repositories
-- (src/ere/adapters/duckdb_repositories.py).
use entity_resolution_engine.Base.{
  String, String-discrete, Option, none, some, List, [], ◌∷◌, map, zip, ite, if◌then◌else◌, Bool,
  true, false,
}
use entity_resolution_engine.Base.Dict.{Dict, get, put}
use entity_resolution_engine.Model.Errors.{Attributes, Result, ok, ◌>>=◌}
use entity_resolution_engine.Model.Mentions.{
  MentionId, ClusterId, MentionId-discrete, ClusterId-discrete, Value-discrete, Mention,
  to_flat_dict, update, from_flat_dict,
}
use entity_resolution_engine.Model.Links.{MentionLink, mention_link, Row, Score}
use entity_resolution_engine.Model.Clusters.{ClusterMembership}
use entity_resolution_engine.World.{MentionRow, LinkRow}

-- flat_dict.get(key): an absent key and a `None` are not told apart
unfoldable pub column : String → Attributes → Option String
column k d = elim (get String-discrete k d) [ none ↦ none | some v ↦ v ]

-- the row that `save` inserts
unfoldable pub mention_row : List String → Mention → MentionRow
unfolding column to_flat_dict
mention_row fields m = record {
  mention_id = column "mention_id" (to_flat_dict m);
  values = map (λ f. column f (to_flat_dict m)) fields;
}

-- {"mention_id": row[0], fields[0]: row[1], ...}
unfoldable pub row_dict : List String → MentionRow → Attributes
unfolding update
row_dict fields row = update (("mention_id", row.mention_id) ∷ []) (zip fields row.values)

-- Mention(**flat_dict), for the id and the columns of a row
unfoldable pub mention_of : List String → MentionRow → Result Mention
unfolding row_dict from_flat_dict
mention_of fields row = from_flat_dict (row_dict fields row)

-- the rows WHERE mention_id = ?
unfoldable pub rows_of : MentionId → List MentionRow → List MentionRow
rows_of m [] = []
rows_of m (r ∷ rs) =
    ite (Value-discrete r.mention_id (some m.value)) (r ∷ rows_of m rs) (rows_of m rs)

unfoldable pub mentions_of : List String → List MentionRow → Result (List Mention)
unfolding mention_of
mentions_of fields [] = ok []
mentions_of fields (r ∷ rs) = do m ← mention_of fields r; ms ← mentions_of fields rs; ok (m ∷ ms)

-- rows[0], if there is one
unfoldable pub first_mention : List String → List MentionRow → Result (Option Mention)
unfolding mention_of
first_mention fields [] = ok none
first_mention fields (r ∷ rs) = do m ← mention_of fields r; ok (some m)

-- the rows that `save_table` and `save_all` insert, through a cast to REAL
unfoldable pub link_row : (Score → Score) → Row → LinkRow
link_row as_real r = record {
  left_id = r.left;
  right_id = r.right;
  match_probability = as_real r.score;
}

-- the rows WHERE mention_id_l = ? OR mention_id_r = ?
unfoldable pub links_about : MentionId → List LinkRow → List LinkRow
links_about m [] = []
links_about m (r ∷ rs) =
    ite (String-discrete r.left_id m.value) (r ∷ links_about m rs)
      (ite (String-discrete r.right_id m.value) (r ∷ links_about m rs) (links_about m rs))

unfoldable pub links_of : List LinkRow → Result (List MentionLink)
unfolding mention_link
links_of [] = ok []
links_of (r ∷ rs) = do
  link ←
      mention_link (record { value = r.left_id }) (record { value = r.right_id })
        r.match_probability
  links ← links_of rs
  ok (link ∷ links)

-- the cluster of the first row WHERE mention_id = ?
unfoldable pub cluster_of : MentionId → List ClusterMembership → Option ClusterId
cluster_of m [] = none
cluster_of m (r ∷ rs) =
    ite (MentionId-discrete r.mention_id m) (some r.cluster_id) (cluster_of m rs)

unfoldable pub is_among : MentionId → List MentionId → Bool
is_among m [] = false
is_among m (i ∷ ids) = ite (MentionId-discrete i m) true (is_among m ids)

-- the dict of the rows WHERE mention_id IN ids
unfoldable pub clusters_among :
    List MentionId → List ClusterMembership → Dict MentionId ClusterId → Dict MentionId ClusterId
unfolding is_among
clusters_among ids [] d = d
clusters_among ids (r ∷ rs) d =
    clusters_among ids rs
      (if is_among r.mention_id ids then put MentionId-discrete r.mention_id r.cluster_id d else d)

unfoldable pub add_new : ClusterId → List ClusterId → List ClusterId
add_new c [] = c ∷ []
add_new c (d ∷ ds) = ite (ClusterId-discrete d c) (d ∷ ds) (d ∷ add_new c ds)

-- the distinct clusters of the rows, in the order of their first row
unfoldable pub distinct_clusters : List ClusterMembership → List ClusterId → List ClusterId
unfolding add_new
distinct_clusters [] seen = seen
distinct_clusters (r ∷ rs) seen = distinct_clusters rs (add_new r.cluster_id seen)
