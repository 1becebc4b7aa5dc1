-- ===== src/Reconcile/Queries.antt =====
-- The queries of the services: src/db/projects.rs, src/db/environments.rs, src/db/runs.rs and
-- src/db/reconciliation.rs.
use dbtx.Prelude.{
  ℕ, String, Bool, ◌&&◌, Option, none, some, List, [], ◌∷◌, ◌++◌, ◌==◌, nat_eq, string_eq,
  option_eq, if◌then◌else◌, ltb, unwrap_or, map, any, find, where_rows, update_rows, sort_by,
}
use dbtx.Error.{AppResult, ok, err, sqlx, project_id_not_found, environment_not_found}
use dbtx.Planning.{PlanningManifestNode, CurrentNodeState}
use dbtx.Planning.Closure.{text_le}
use dbtx.Plan.{ActualState}
use dbtx.Plan.Outcome.{is_scope, blank_state}
use dbtx.Source.{ManifestNode, ManifestEdge}
use dbtx.Reconcile.Identity.{decimal}
use dbtx.Reconcile.{Project, Environment, Run, ManifestSnapshotRow, NodeState, ReconcileDb}

abbrev pub is_project : String → Project → Bool
is_project ref p = p.project_id == ref

abbrev pub project_found : String → Option Project → AppResult Project
project_found ref none = err (project_id_not_found ref)
project_found ref (some p) = ok p

abbrev pub get_project_by_project_id : String → ReconcileDb → AppResult Project
get_project_by_project_id ref db = project_found ref (find (is_project ref) db.projects)

abbrev pub get_project_by_id : ℕ → ReconcileDb → AppResult Project
get_project_by_id i db = project_found (decimal i) (find (λ (p : Project). p.id == i) db.projects)

abbrev pub is_environment : ℕ → String → Environment → Bool
is_environment p slug e = e.project_id == p && e.slug == slug

abbrev pub environment_found : String → String → Option Environment → AppResult Environment
environment_found ref slug none = err (environment_not_found ref slug)
environment_found ref slug (some e) = ok e

abbrev pub environment_of : String → AppResult Project → ReconcileDb → AppResult Environment
environment_of slug (err e) db = err e
environment_of slug (ok p) db =
    environment_found p.project_id slug (find (is_environment p.id slug) db.environments)

abbrev pub get_environment : String → String → ReconcileDb → AppResult Environment
get_environment project slug db = environment_of slug (get_project_by_project_id project db) db

-- `fetch_one`.
abbrev pub one_environment : Option Environment → AppResult Environment
one_environment none = err sqlx
one_environment (some e) = ok e

abbrev pub get_environment_by_id : ℕ → ReconcileDb → AppResult Environment
get_environment_by_id i db = one_environment (find (λ (e : Environment). e.id == i) db.environments)

abbrev pub state_or_blank : ℕ → AppResult Environment → ReconcileDb → AppResult ActualState
state_or_blank now (err e) db = err e
state_or_blank now (ok env) db = ok (
    unwrap_or (find (is_scope env.project_id env.id) db.plan_db.actual_states)
      (blank_state now env.project_id env.id))

abbrev pub get_environment_actual_state : ℕ → String → String → ReconcileDb → AppResult ActualState
get_environment_actual_state now project slug db =
    state_or_blank now (get_environment project slug db) db

abbrev pub node_le : ManifestNode → ManifestNode → Bool
node_le a b = text_le a.unique_id b.unique_id

abbrev pub nodes_of_run : ℕ → ReconcileDb → List ManifestNode
nodes_of_run run db =
    sort_by node_le (where_rows (λ (n : ManifestNode). n.run_id == run) db.source_db.manifest_nodes)

unfoldable pub list_manifest_node_unique_ids : ℕ → ReconcileDb → List String
unfolding sort_by
list_manifest_node_unique_ids run db = map (λ (n : ManifestNode). n.unique_id) (nodes_of_run run db)

abbrev pub planning_node : ManifestNode → PlanningManifestNode
planning_node n = record {
  unique_id = n.unique_id;
  resource_type = n.resource_type;
  checksum = n.checksum;
}

unfoldable pub load_planning_manifest_nodes : ℕ → ReconcileDb → List PlanningManifestNode
unfolding sort_by
load_planning_manifest_nodes run db = map planning_node (nodes_of_run run db)

abbrev pub edge_le : ManifestEdge → ManifestEdge → Bool
edge_le a b =
    if a.parent_unique_id == b.parent_unique_id
    then text_le a.child_unique_id b.child_unique_id
    else text_le a.parent_unique_id b.parent_unique_id

unfoldable pub load_manifest_edges : ℕ → ReconcileDb → List (String × String)
unfolding sort_by
load_manifest_edges run db =
    map (λ (e : ManifestEdge). (e.parent_unique_id, e.child_unique_id))
      (sort_by edge_le
        (where_rows (λ (e : ManifestEdge). e.run_id == run) db.source_db.manifest_edges))

abbrev pub is_state_of : ℕ → ℕ → NodeState → Bool
is_state_of p e s = s.project_id == p && s.environment_id == e

abbrev pub state_le : NodeState → NodeState → Bool
state_le a b = text_le a.unique_id b.unique_id

abbrev pub planning_state : NodeState → CurrentNodeState
planning_state s = record {
  unique_id = s.unique_id;
  checksum = s.checksum;
  last_success_at = s.last_success_at;
}

unfoldable pub load_current_node_state_for_planning : ℕ → ℕ → ReconcileDb → List CurrentNodeState
unfolding sort_by
load_current_node_state_for_planning p e db =
    map planning_state (sort_by state_le (where_rows (is_state_of p e) db.node_states))

-- `ORDER BY id DESC LIMIT 1`.
abbrev pub last_run : List Run → Option Run
last_run [] = none
last_run (r ∷ rest) = some (later_run r (last_run rest))
  where
    later_run : Run → Option Run → Run
    later_run r none = r
    later_run r (some s) = if ltb r.id s.id then s else r

abbrev pub run_id_of : Option Run → Option ℕ
run_id_of none = none
run_id_of (some r) = some r.run_id

-- The join with `manifest_snapshots`.
abbrev pub has_snapshot : List ManifestSnapshotRow → ℕ → ℕ → Run → Bool
has_snapshot snapshots p e r =
    r.project_id == p
    && r.environment_id == e
    && any (λ (s : ManifestSnapshotRow). s.run_id == r.run_id) snapshots

unfoldable pub latest_manifest_run_id : ℕ → ℕ → ReconcileDb → Option ℕ
latest_manifest_run_id p e db =
    run_id_of (last_run (where_rows (has_snapshot db.manifest_snapshots p e) db.runs))

abbrev pub is_run_of_commit : List ManifestSnapshotRow → ℕ → ℕ → String → Run → Bool
is_run_of_commit snapshots p e sha r = has_snapshot snapshots p e r && r.git_commit_sha == some sha

unfoldable pub latest_manifest_run_id_for_commit : ℕ → ℕ → String → ReconcileDb → Option ℕ
latest_manifest_run_id_for_commit p e sha db =
    run_id_of (last_run (where_rows (is_run_of_commit db.manifest_snapshots p e sha) db.runs))

-- `INSERT … ON CONFLICT DO UPDATE` of the commit alone.
abbrev pub with_commit : ℕ → String → ActualState → ActualState
with_commit now sha s = record s { last_successful_commit_sha = some sha; updated_at = now }

abbrev pub advance_environment_actual_state_commit : ℕ → ℕ → ℕ → String → ReconcileDb → ReconcileDb
advance_environment_actual_state_commit now p e sha db = record db {
  plan_db = record (db.plan_db) {
    actual_states =
        if any (is_scope p e) db.plan_db.actual_states
        then update_rows (is_scope p e) (with_commit now sha) db.plan_db.actual_states
        else db.plan_db.actual_states ++ with_commit now sha (blank_state now p e) ∷ [];
  };
}
