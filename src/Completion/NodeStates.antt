-- ===== src/Completion/NodeStates.antt =====
-- src/db/runs.rs: `rebuild_current_state_up_to_in_tx`, which makes the rows of `current_node_state`
-- of one environment anew. The count of rows that it returns is left out, since its caller drops it.
use dbtx.Prelude.{
  ℕ, String, Bool, true, ◌&&◌, Option, none, some, List, [], ◌∷◌, ◌++◌, ◌==◌, nat_eq, string_eq,
  if◌then◌else◌, ltb, leb, is_none, none_or, some_and, any, map, where_rows, update_rows,
  delete_rows,
}
use dbtx.Planning.Closure.{set_of}
use dbtx.Source.{ManifestNode}
use dbtx.Reconcile.{Run, ManifestSnapshotRow, NodeState, ReconcileDb}
use dbtx.Reconcile.Queries.{is_state_of, has_snapshot, last_run, run_id_of}
use dbtx.Completion.{NodeExecution}

-- `NodeExecutionStatus::PROMOTABLE_SQL`: `IN` is not true of `NULL`.
abbrev pub has_promotable_status : NodeExecution → Bool
has_promotable_status x = some_and is_promotable_text x.status
  where
    is_promotable_text : String → Bool
    is_promotable_text s =
        if s == "success" then true else if s == "pass" then true else s == "created"

-- `r.id <= $3`, where there is a bound.
abbrev pub is_run_up_to : ℕ → ℕ → Option ℕ → Run → Bool
is_run_up_to p e max_run r =
    r.project_id == p && r.environment_id == e && none_or (λ m. leb r.id m) max_run

-- An execution with the id of its run's row, which orders the runs.
abbrev pub RanAt : Type 0
RanAt = ℕ × NodeExecution

abbrev pub ran_in : Run → List NodeExecution → List RanAt
ran_in r rows =
    map (λ (x : NodeExecution). (r.id, x))
      (where_rows (λ (x : NodeExecution). x.run_id == r.run_id) rows)

-- The join of `node_executions` with the runs of the environment.
unfoldable pub joined : List Run → List NodeExecution → List RanAt
joined [] rows = []
joined (r ∷ rest) rows = ran_in r rows ++ joined rest rows

abbrev pub executions_of : ℕ → ℕ → Option ℕ → List Run → List NodeExecution → List RanAt
executions_of p e max_run runs rows = joined (where_rows (is_run_up_to p e max_run) runs) rows

abbrev pub later_ran : RanAt → Option RanAt → RanAt
later_ran a none = a
later_ran a (some b) = if ltb a.0 b.0 then b else a

-- `DISTINCT ON (unique_id) … ORDER BY unique_id, r.id DESC`, at one `unique_id`.
unfoldable pub latest : (NodeExecution → Bool) → String → List RanAt → Option RanAt
latest test u [] = none
latest test u (a ∷ rest) =
    let found = latest test u rest in
    if a.1.unique_id == u && test a.1 then some (later_ran a found) else found

abbrev pub any_execution : NodeExecution → Bool
any_execution x = true

abbrev pub promoted_field : {A : Type 0} → (NodeExecution → Option A) → Option RanAt → Option A
promoted_field f none = none
promoted_field f (some a) = f a.1

abbrev pub executed_state : ℕ → ℕ → ℕ → NodeExecution → Option RanAt → NodeState
executed_state marker p e x good = record {
  project_id = p;
  environment_id = e;
  unique_id = x.unique_id;
  last_run_id = x.run_id;
  status = x.status;
  resource_type = x.resource_type;
  node_name = x.node_name;
  node_path = x.node_path;
  materialized = promoted_field (λ y. y.materialized) good;
  relation_database = promoted_field (λ y. y.relation_database) good;
  relation_schema = promoted_field (λ y. y.relation_schema) good;
  relation_alias = promoted_field (λ y. y.relation_alias) good;
  relation_name = promoted_field (λ y. y.relation_name) good;
  checksum = promoted_field (λ y. y.checksum) good;
  started_at = x.started_at;
  finished_at = x.finished_at;
  execution_time_seconds = x.execution_time_seconds;
  last_success_at = promoted_field (λ y. y.finished_at) good;
  updated_at = marker;
}

abbrev pub is_state : ℕ → ℕ → String → NodeState → Bool
is_state p e u s = s.project_id == p && s.environment_id == e && s.unique_id == u

-- `INSERT … ON CONFLICT (project_id, environment_id, unique_id) DO UPDATE` of every other column.
abbrev pub put_at : ℕ → ℕ → String → NodeState → List NodeState → List NodeState
put_at p e u row rows =
    if any (is_state p e u) rows
    then update_rows (is_state p e u) (λ _. row) rows
    else rows ++ row ∷ []

abbrev pub put_state : ℕ → ℕ → NodeState → List NodeState → List NodeState
put_state p e row rows = put_at p e row.unique_id row rows

module _ (marker p e : ℕ) (ran : List RanAt) where
  abbrev pub upsert_latest : Option RanAt → String → List NodeState → List NodeState
  upsert_latest none u rows = rows
  upsert_latest (some a) u rows =
      put_state p e (executed_state marker p e a.1 (latest has_promotable_status u ran)) rows

  -- One row for each `unique_id` of an execution.
  unfoldable pub upsert_executed : List String → List NodeState → List NodeState
  unfolding latest
  upsert_executed [] rows = rows
  upsert_executed (u ∷ rest) rows =
      upsert_executed rest (upsert_latest (latest any_execution u ran) u rows)

abbrev pub executed_ids : List RanAt → List String
executed_ids ran = set_of (map (λ (a : RanAt). a.1.unique_id) ran)

abbrev pub manifest_state : ℕ → ℕ → ℕ → ManifestNode → NodeState
manifest_state marker p e n = record {
  project_id = p;
  environment_id = e;
  unique_id = n.unique_id;
  last_run_id = n.run_id;
  status = none;
  resource_type = n.resource_type;
  node_name = n.name;
  node_path = n.original_file_path;
  materialized = none;
  relation_database = n.database_name;
  relation_schema = n.schema_name;
  relation_alias = n.alias;
  relation_name = n.relation_name;
  checksum = n.checksum;
  started_at = none;
  finished_at = none;
  execution_time_seconds = none;
  last_success_at = none;
  updated_at = marker;
}

abbrev pub touched : ℕ → NodeState → NodeState
touched marker s = record s { updated_at = marker }

-- The `WHERE` of the second statement's `DO UPDATE`.
abbrev pub is_unexecuted : ℕ → ℕ → String → NodeState → Bool
is_unexecuted p e u s = is_state p e u s && is_none s.status

abbrev pub backfill_at : ℕ → ℕ → ℕ → String → ManifestNode → List NodeState → List NodeState
backfill_at marker p e u n rows =
    if any (is_state p e u) rows
    then update_rows (is_unexecuted p e u) (touched marker) rows
    else rows ++ manifest_state marker p e n ∷ []

abbrev pub backfill_one : ℕ → ℕ → ℕ → ManifestNode → List NodeState → List NodeState
backfill_one marker p e n rows = backfill_at marker p e n.unique_id n rows

unfoldable pub backfill : ℕ → ℕ → ℕ → List ManifestNode → List NodeState → List NodeState
backfill marker p e [] rows = rows
backfill marker p e (n ∷ rest) rows = backfill marker p e rest (backfill_one marker p e n rows)

abbrev pub manifest_of : Option ℕ → List ManifestNode → List ManifestNode
manifest_of none nodes = []
manifest_of (some run) nodes = where_rows (λ (n : ManifestNode). n.run_id == run) nodes

-- The nodes of the last manifest of the environment.
abbrev pub latest_manifest :
    ℕ → ℕ → Option ℕ → List ManifestSnapshotRow → List Run → List ManifestNode → List ManifestNode
latest_manifest p e max_run snapshots runs nodes =
    manifest_of
      (run_id_of (
        last_run
          (where_rows (has_snapshot snapshots p e) (where_rows (is_run_up_to p e max_run) runs))))
      nodes

abbrev pub is_stale_state : ℕ → ℕ → ℕ → NodeState → Bool
is_stale_state marker p e s = is_state_of p e s && ltb s.updated_at marker

abbrev pub rebuilt : ℕ → ℕ → ℕ → List RanAt → List ManifestNode → List NodeState → List NodeState
rebuilt marker p e ran nodes rows =
    delete_rows (is_stale_state marker p e)
      (backfill marker p e nodes (upsert_executed marker p e ran (executed_ids ran) rows))

-- `marker` is the transaction's `NOW()`.
unfoldable pub rebuild_current_state_up_to :
    ℕ → ℕ → ℕ → Option ℕ → List NodeExecution → ReconcileDb → ReconcileDb
unfolding joined latest upsert_executed backfill
rebuild_current_state_up_to marker p e max_run executions db = record db {
  node_states =
      rebuilt marker p e (executions_of p e max_run db.runs executions)
        (latest_manifest p e max_run db.manifest_snapshots db.runs db.source_db.manifest_nodes)
        db.node_states;
}
