-- ===== src/Completion/Examples.antt =====
-- A run of the project of Reconcile.Examples that its worker completes, and the theorems there.
use dbtx.Prelude.{ℕ, String, true, ◌≡◌, refl, inl, inr, none, some, [], ◌∷◌, find, Elem, ltb}
use dbtx.Error.{ok, err, invocation_ownership_mismatch, ◌>>=◌}
use dbtx.Status.LifecycleStatus.{succeeded}
use dbtx.Invocation.{Invocation, pos}
use dbtx.Invocation.Examples.{row_5, row_6}
use dbtx.Invocation.Lease.{get_invocation_persistence_for_completion}
use dbtx.Invocation.Queue.{has_id}
use dbtx.Plan.{SelectedResource}
use dbtx.Plan.Conflict.{list_active_conflicting_invocations}
use dbtx.Reconcile.{NodeState, ReconcileDb}
use dbtx.Reconcile.Queries.{is_state_of}
use dbtx.Reconcile.Examples.{formats, shop_db, busy}
use dbtx.Completion.{NodeExecution, ExecutionCompletion, Documents, CompletionDb}
use dbtx.Completion.NodeStates.{
  is_state, executions_of, latest_manifest, rebuild_current_state_up_to,
}
use dbtx.Completion.Complete.{complete_invocation}
use dbtx.Completion.Keeps.{Commits}
use dbtx.Completion.Rebuilt.{described, rebuild_by_key}
use dbtx.Completion.Ended.{IsCompletedBy, completion_effects}
use dbtx.Completion.Total.{completion_commits}
use dbtx.Completion.Freed.{IsOneRow, completion_frees, completion_once}

abbrev documents : Documents
documents = record {
  byte_length = λ document. 2;
  md5_hex = λ document. "99914b932bd37a50b983c5e7c90ae93b";
  manifest_node = λ manifest u. none;
  text_at = λ document key. none;
  member_at = λ document key. none;
}

abbrev execution : String → String → NodeExecution
execution u status = record {
  run_id = 7;
  unique_id = u;
  resource_type = some "model";
  node_name = none;
  node_path = none;
  materialized = some "table";
  status = some status;
  relation_database = none;
  relation_schema = none;
  relation_alias = none;
  relation_name = none;
  checksum = some "new";
  started_at = some 40;
  finished_at = some 41;
  execution_time_seconds = none;
  updated_at = 41;
}

abbrev seeded : String → NodeState
seeded u = record {
  project_id = 1;
  environment_id = 2;
  unique_id = u;
  last_run_id = 6;
  status = some "success";
  resource_type = some "model";
  node_name = none;
  node_path = none;
  materialized = none;
  relation_database = none;
  relation_schema = none;
  relation_alias = none;
  relation_name = none;
  checksum = some "old";
  started_at = none;
  finished_at = some 5;
  execution_time_seconds = none;
  last_success_at = some 5;
  updated_at = 5;
}

-- The worker `w1` holds invocation 6, which runs for plan 32.
abbrev held_row : Invocation
held_row = record row_6 {
  plan_id = some 32;
  run_id = some 7;
  project_id = some 1;
  environment_id = some 2;
  command = "build";
  updates_actual_state = true;
  claimed_by = some "w1";
  lease_token = some 900;
}

abbrev open_resource : SelectedResource
open_resource = record busy { invocation_id = 6; unique_id = "model.a"; run_id = some 7 }

abbrev seeded_db : ReconcileDb
seeded_db = record shop_db {
  plan_db = record (shop_db.plan_db) {
    invocations = row_5 ∷ held_row ∷ [];
    selected_resources = busy ∷ open_resource ∷ [];
  };
  node_states = seeded "model.a" ∷ seeded "model.b" ∷ [];
}

abbrev running_db : CompletionDb
running_db = record {
  reconcile = seeded_db;
  node_executions = execution "model.a" "success" ∷ [];
  promoted_meta = [];
  promoted_nodes = [];
  environment_versions = [];
  project_drafts = [];
  environment_drafts = [];
}

abbrev success : ExecutionCompletion
success = record {
  status = succeeded;
  exit_code = pos 0;
  error = none;
  dbt_version = some "1.9.0";
  manifest = none;
  result = none;
}

older_rows :
    (r : NodeState)
    → Elem r seeded_db.node_states
    → is_state_of 1 2 r ≡ true
    → ltb r.updated_at 50 ≡ true
older_rows r (inl e) h = rw e refl
older_rows r (inr (inl e)) h = rw e refl
older_rows r (inr (inr none')) h = absurd none'

rebuild_by_key_example :
    find
      (is_state 1 2 "model.b")
      (rebuild_current_state_up_to 50 1 2 none running_db.node_executions seeded_db).node_states
    ≡ described 50 1 2 "model.b"
        (executions_of 1 2 none seeded_db.runs running_db.node_executions)
        (latest_manifest 1 2 none seeded_db.manifest_snapshots seeded_db.runs
          seeded_db.source_db.manifest_nodes)
        seeded_db.node_states
rebuild_by_key_example =
    rebuild_by_key 50 1 2 none running_db.node_executions seeded_db "model.b" older_rows

-- The node is in the last manifest, but no run of the environment executed it.
seeded_is_lost :
    find
      (is_state 1 2 "model.b")
      (rebuild_current_state_up_to 50 1 2 none running_db.node_executions seeded_db).node_states
    ≡ none
unfolding rebuild_current_state_up_to
seeded_is_lost = refl

completion_commits_example :
    (db' : CompletionDb) × (complete_invocation formats documents 50 6 "w1" 900 success running_db
      ≡ ok db')
    × IsCompletedBy formats documents 50 6 "w1" 900 success seeded_db.plan_db db'.reconcile.plan_db
completion_commits_example =
    completion_commits formats documents 50 6 "w1" 900 success running_db held_row refl refl refl
      (inr (1, 2, refl, refl, refl))

completion_effects_example :
    Commits
      (λ db'.
        IsCompletedBy formats documents 50 6 "w1" 900 success seeded_db.plan_db
          db'.reconcile.plan_db)
      (complete_invocation formats documents 50 6 "w1" 900 success running_db)
completion_effects_example = completion_effects formats documents 50 6 "w1" 900 success running_db

IsOneRow-6 : IsOneRow 6 seeded_db.plan_db
IsOneRow-6 r r' (inl e) m h h' = absurd (cc (rw e at h))
IsOneRow-6 r r' (inr (inl e)) (inl e') h h' = absurd (cc (rw e' at h'))
IsOneRow-6 r r' (inr (inl e)) (inr (inl e')) h h' = cc
IsOneRow-6 r r' (inr (inl e)) (inr (inr none')) h h' = absurd none'
IsOneRow-6 r r' (inr (inr none')) m h h' = absurd none'

completion_frees_example :
    Commits
      (λ db'.
        (plan : ℕ) → Elem 6 (list_active_conflicting_invocations plan db'.reconcile.plan_db) → ⊥)
      (complete_invocation formats documents 50 6 "w1" 900 success running_db)
completion_frees_example =
    completion_frees formats documents 50 6 "w1" 900 success running_db IsOneRow-6

completion_once_example :
    Commits
      (λ db'.
        (later : ℕ) (again : ExecutionCompletion)
        → complete_invocation formats documents later 6 "w1" 900 again db'
          ≡ err invocation_ownership_mismatch)
      (complete_invocation formats documents 50 6 "w1" 900 success running_db)
completion_once_example = completion_once formats documents 50 6 "w1" 900 success running_db

-- The completion is committed, and the run with it.
run_is_finished :
    (complete_invocation formats documents 50 6 "w1" 900 success running_db >>= λ db'.
    ok (find (has_id 6) db'.reconcile.plan_db.invocations))
    ≡ ok (
        some (record held_row {
          status = succeeded;
          exit_code = some (pos 0);
          completed_at = some 50;
          lease_token = none;
        }))
unfolding complete_invocation get_invocation_persistence_for_completion ◌>>=◌
run_is_finished = refl
