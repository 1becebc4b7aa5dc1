-- ===== src/Completion/Promote.antt =====
-- src/db/runs.rs: `promote_manifest_state_in_tx`.
use dbtx.Prelude.{
  ℕ, String, Bool, ◌&&◌, Option, none, some, List, [], ◌∷◌, ◌++◌, ◌==◌, nat_eq, string_eq,
  option_eq, if◌then◌else◌, any, find, where_rows, update_rows,
}
use dbtx.Reconcile.{ManifestSnapshotRow}
use dbtx.Completion.{
  NodeExecution, PromotedManifestMeta, PromotedManifestNode, Documents, CompletionDb,
}
use dbtx.Completion.NodeStates.{has_promotable_status}
use dbtx.Completion.Manifests.{is_snapshot_of}

abbrev pub is_meta_of : ℕ → ℕ → PromotedManifestMeta → Bool
is_meta_of p e m = m.project_id == p && m.environment_id == e

abbrev pub meta_row : ℕ → ℕ → ℕ → ManifestSnapshotRow → PromotedManifestMeta
meta_row now p e s = record {
  project_id = p;
  environment_id = e;
  source_run_id = s.run_id;
  base_manifest = s.manifest;
  promoted_at = now;
}

abbrev pub put_meta :
    ℕ → ℕ → ℕ → Option ManifestSnapshotRow → List PromotedManifestMeta → List PromotedManifestMeta
put_meta now p e none rows = rows
put_meta now p e (some s) rows =
    if any (is_meta_of p e) rows
    then update_rows (is_meta_of p e) (λ _. meta_row now p e s) rows
    else rows ++ meta_row now p e s ∷ []

abbrev pub promoted_row : ℕ → ℕ → ℕ → NodeExecution → String → PromotedManifestNode
promoted_row now p e x raw = record {
  project_id = p;
  environment_id = e;
  unique_id = x.unique_id;
  source_run_id = x.run_id;
  checksum = x.checksum;
  raw_node = raw;
  promoted_at = now;
}

abbrev pub is_promoted : ℕ → ℕ → String → PromotedManifestNode → Bool
is_promoted p e u n = n.project_id == p && n.environment_id == e && n.unique_id == u

abbrev pub promote_raw :
    ℕ
    → ℕ
    → ℕ
    → NodeExecution
    → Option String
    → List PromotedManifestNode
    → List PromotedManifestNode
promote_raw now p e x none rows = rows
promote_raw now p e x (some raw) rows =
    if any (is_promoted p e x.unique_id) rows
    then update_rows (is_promoted p e x.unique_id) (λ _. promoted_row now p e x raw) rows
    else rows ++ promoted_row now p e x raw ∷ []

-- Executions that the manifest has a node for.
unfoldable pub promote_each :
    Documents
    → ℕ
    → ℕ
    → ℕ
    → String
    → List NodeExecution
    → List PromotedManifestNode
    → List PromotedManifestNode
promote_each documents now p e manifest [] rows = rows
promote_each documents now p e manifest (x ∷ rest) rows =
    promote_each documents now p e manifest rest
      (promote_raw now p e x (documents.manifest_node manifest x.unique_id) rows)

abbrev pub is_promotable_in : ℕ → NodeExecution → Bool
is_promotable_in run x = x.run_id == run && has_promotable_status x

abbrev pub promote_nodes :
    Documents
    → ℕ
    → ℕ
    → ℕ
    → ℕ
    → Option ManifestSnapshotRow
    → List NodeExecution
    → List PromotedManifestNode
    → List PromotedManifestNode
promote_nodes documents now run p e none executions rows = rows
promote_nodes documents now run p e (some s) executions rows =
    promote_each documents now p e s.manifest (where_rows (is_promotable_in run) executions) rows

unfoldable pub promote_manifest_state :
    Documents → ℕ → ℕ → ℕ → ℕ → Bool → CompletionDb → CompletionDb
unfolding promote_each
promote_manifest_state documents now run p e promote_base db =
    let snapshot = find (is_snapshot_of run) db.reconcile.manifest_snapshots in
    record db {
      promoted_meta =
          if promote_base then put_meta now p e snapshot db.promoted_meta else db.promoted_meta;
      promoted_nodes =
          promote_nodes documents now run p e snapshot db.node_executions db.promoted_nodes;
    }
