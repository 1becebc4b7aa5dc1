-- ===== src/Source/Downstream.antt =====
-- src/db/reconciliation.rs: `list_downstream_manifest_node_unique_ids`. The recursive query adds the
-- children that it has not yet seen, round by round, until a round adds nothing. Every round but the
-- last covers one more edge, so that the number of edges bounds the rounds.
use dbtx.Prelude.{
  ℕ, zero, suc, String, Bool, ◌&&◌, not, List, [], ◌∷◌, ◌++◌, ◌==◌, nat_eq, string_eq, some_and,
  contains, map, any, length, where_rows, sort_by,
}
use dbtx.Planning.Closure.{text_le, set_of}
use dbtx.Source.{ManifestNode, ManifestEdge, SourceDb}

abbrev pub edges_of : ℕ → List ManifestEdge → List ManifestEdge
edges_of run edges = where_rows (λ (e : ManifestEdge). e.run_id == run) edges

abbrev pub leads_on : List String → ManifestEdge → Bool
leads_on seen e = contains e.parent_unique_id seen && not (contains e.child_unique_id seen)

abbrev pub new_children : List ManifestEdge → List String → List String
new_children edges seen =
    map (λ (e : ManifestEdge). e.child_unique_id) (where_rows (leads_on seen) edges)

abbrev pub then_round : List String → List String → (List String → List String) → List String
then_round [] seen next = seen
then_round (u ∷ us) seen next = next (u ∷ us ++ seen)

unfoldable pub rounds : List ManifestEdge → ℕ → List String → List String
rounds edges zero seen = seen
rounds edges (suc n) seen = then_round (new_children edges seen) seen (rounds edges n)

unfoldable pub reachable : List ManifestEdge → List String → List String
unfolding rounds
reachable edges keys = rounds edges (length edges) keys

-- The join with `manifest_nodes`; `resource_type <> 'source'` is not true of `NULL`.
abbrev pub is_node_not_source : List ManifestNode → ℕ → String → Bool
is_node_not_source nodes run u =
    any
      (λ (n : ManifestNode).
        n.run_id == run && n.unique_id == u && some_and (λ t. not (t == "source")) n.resource_type)
      nodes

unfoldable pub list_downstream_manifest_node_unique_ids : ℕ → List String → SourceDb → List String
unfolding reachable sort_by
list_downstream_manifest_node_unique_ids run [] db = []
list_downstream_manifest_node_unique_ids run (k ∷ keys) db = sort_by text_le (
    set_of (
      where_rows (is_node_not_source db.manifest_nodes run)
        (reachable (edges_of run db.manifest_edges) (k ∷ keys))))
