-- ===== src/Completion/Manifests.antt =====
-- src/db/runs.rs: `persist_manifest_in_tx`.
use dbtx.Prelude.{
  ℕ, Bool, ◌&&◌, some, List, [], ◌∷◌, ◌++◌, ◌==◌, nat_eq, string_eq, option_eq, if◌then◌else◌, any,
  map, update_rows, delete_rows,
}
use dbtx.Error.{AppResult, ok, err, sqlx, ◌>>=◌}
use dbtx.Source.{ManifestNode, ManifestEdge, SourceDb}
use dbtx.Reconcile.{Run, ManifestSnapshotRow, ReconcileDb}
use dbtx.Completion.{SnapshotNode, SnapshotEdge, ManifestSnapshot, Documents}
use dbtx.Completion.Ancestors.{populate_node_ancestor_sources}

abbrev pub node_row : ℕ → SnapshotNode → ManifestNode
node_row run n = record {
  run_id = run;
  unique_id = n.unique_id;
  resource_type = n.resource_type;
  name = n.name;
  original_file_path = n.original_file_path;
  checksum = n.checksum;
  database_name = n.database_name;
  schema_name = n.schema_name;
  alias = n.alias;
  relation_name = n.relation_name;
}

abbrev pub edge_row : ℕ → SnapshotEdge → ManifestEdge
edge_row run e = record {
  run_id = run;
  parent_unique_id = e.parent_unique_id;
  child_unique_id = e.child_unique_id;
}

-- The primary keys of `manifest_nodes` and `manifest_edges`.
abbrev pub is_same_node : ManifestNode → ManifestNode → Bool
is_same_node a b = a.run_id == b.run_id && a.unique_id == b.unique_id

abbrev pub is_same_edge : ManifestEdge → ManifestEdge → Bool
is_same_edge a b =
    a.run_id == b.run_id
    && a.parent_unique_id == b.parent_unique_id
    && a.child_unique_id == b.child_unique_id

-- `INSERT` of each row in turn, which a second row of a key ends.
unfoldable pub insert_each : {A : Type 0} → (A → A → Bool) → List A → List A → AppResult (List A)
insert_each same [] rows = ok rows
insert_each same (a ∷ rest) rows =
    let inserted = insert_each same rest (rows ++ a ∷ []) in
    if any (same a) rows then err sqlx else inserted

abbrev pub is_snapshot_of : ℕ → ManifestSnapshotRow → Bool
is_snapshot_of run s = s.run_id == run

abbrev pub snapshot_row : Documents → ℕ → ℕ → ManifestSnapshot → ManifestSnapshotRow
snapshot_row documents now run manifest = record {
  run_id = run;
  manifest = manifest.raw;
  manifest_size_bytes = documents.byte_length manifest.raw;
  checksum = some (documents.md5_hex manifest.raw);
  created_at = now;
}

-- The update leaves `created_at` as it is.
abbrev pub replaced_snapshot :
    Documents → ManifestSnapshot → ManifestSnapshotRow → ManifestSnapshotRow
replaced_snapshot documents manifest s = record s {
  manifest = manifest.raw;
  manifest_size_bytes = documents.byte_length manifest.raw;
  checksum = some (documents.md5_hex manifest.raw);
}

abbrev pub put_snapshot :
    Documents → ℕ → ℕ → ManifestSnapshot → List ManifestSnapshotRow → List ManifestSnapshotRow
put_snapshot documents now run manifest rows =
    if any (is_snapshot_of run) rows
    then update_rows (is_snapshot_of run) (replaced_snapshot documents manifest) rows
    else rows ++ snapshot_row documents now run manifest ∷ []

abbrev pub with_manifest : ℕ → ℕ → ℕ → List ManifestNode → List ManifestEdge → SourceDb → SourceDb
with_manifest run p e nodes edges db =
    populate_node_ancestor_sources run p e
      (record db { manifest_nodes = nodes; manifest_edges = edges })

-- A snapshot belongs to a run that exists.
abbrev pub run_exists : ℕ → List Run → AppResult (Unit {0})
run_exists run runs = if any (λ (r : Run). r.run_id == run) runs then ok tt else err sqlx

unfoldable pub persist_manifest :
    Documents → ℕ → ℕ → ℕ → ℕ → ManifestSnapshot → ReconcileDb → AppResult ReconcileDb
unfolding insert_each populate_node_ancestor_sources
persist_manifest documents now run p e manifest db = do
  _ ← run_exists run db.runs
  nodes ←
      insert_each is_same_node (map (node_row run) manifest.nodes)
        (delete_rows (λ (n : ManifestNode). n.run_id == run) db.source_db.manifest_nodes)
  edges ←
      insert_each is_same_edge (map (edge_row run) manifest.edges)
        (delete_rows (λ (d : ManifestEdge). d.run_id == run) db.source_db.manifest_edges)
  ok (record db {
    manifest_snapshots = put_snapshot documents now run manifest db.manifest_snapshots;
    source_db = with_manifest run p e nodes edges db.source_db;
  })
