-- ===== src/Completion/Ancestors.antt =====
-- src/db/watermarks.rs: `populate_node_ancestor_sources_in_tx`, the tracked sources above each node.
use dbtx.Prelude.{
  ℕ, String, Bool, ◌&&◌, not, some, List, [], ◌∷◌, ◌++◌, ◌==◌, nat_eq, string_eq, option_eq,
  if◌then◌else◌, any, map, where_rows, delete_rows,
}
use dbtx.Planning.Closure.{set_of}
use dbtx.Source.{ManifestNode, ManifestEdge, NodeAncestorSource, SourceStateEvent, SourceDb}
use dbtx.Source.Downstream.{edges_of, reachable}

-- An edge from child to parent.
abbrev pub upward : ManifestEdge → ManifestEdge
upward e = record e { parent_unique_id = e.child_unique_id; child_unique_id = e.parent_unique_id }

abbrev pub is_tracked_source : ℕ → ℕ → List SourceStateEvent → String → Bool
is_tracked_source p e events u =
    any
      (λ (ev : SourceStateEvent).
        ev.project_id == p && ev.environment_id == some e && ev.source_key == u)
      events

-- `ancestors`, at one node: what is above its parents, and they.
abbrev pub ancestors_of : List ManifestEdge → String → List String
ancestors_of edges u = set_of (
    reachable (map upward edges) (
      map (λ (e : ManifestEdge). e.parent_unique_id)
        (where_rows (λ (e : ManifestEdge). e.child_unique_id == u) edges)))

abbrev pub ancestor_row : ℕ → String → String → NodeAncestorSource
ancestor_row run u k = record { run_id = run; unique_id = u; source_key = k }

unfoldable pub ancestor_rows :
    ℕ → (String → Bool) → List ManifestEdge → List String → List NodeAncestorSource
unfolding reachable
ancestor_rows run tracked edges [] = []
ancestor_rows run tracked edges (u ∷ rest) =
    map (ancestor_row run u) (where_rows tracked (ancestors_of edges u))
    ++ ancestor_rows run tracked edges rest

abbrev pub is_ancestor_row : NodeAncestorSource → NodeAncestorSource → Bool
is_ancestor_row a b =
    a.run_id == b.run_id && a.unique_id == b.unique_id && a.source_key == b.source_key

-- The self-references of tracked sources, `ON CONFLICT DO NOTHING`.
unfoldable pub add_sources :
    ℕ → (String → Bool) → List ManifestNode → List NodeAncestorSource → List NodeAncestorSource
add_sources run tracked [] rows = rows
add_sources run tracked (n ∷ rest) rows =
    let row = ancestor_row run n.unique_id n.unique_id in
    add_sources run tracked rest (
      if n.run_id == run
        && n.resource_type == some "source"
        && tracked n.unique_id
        && not (any (is_ancestor_row row) rows)
      then rows ++ row ∷ []
      else rows)

unfoldable pub populate_node_ancestor_sources : ℕ → ℕ → ℕ → SourceDb → SourceDb
unfolding ancestor_rows add_sources
populate_node_ancestor_sources run p e db =
    let tracked = is_tracked_source p e db.events in
    let edges = edges_of run db.manifest_edges in
    let children = set_of (map (λ (d : ManifestEdge). d.child_unique_id) edges) in
    let others = delete_rows (λ (a : NodeAncestorSource). a.run_id == run) db.ancestor_sources in
    record db {
      ancestor_sources =
          add_sources run tracked db.manifest_nodes
            (others ++ ancestor_rows run tracked edges children);
    }
