-- ===== src/Completion/Finalize.antt =====
-- src/db/runs.rs: the end of a run, `finalize_run_in_tx`, with the actual state of its environment
-- and the resources that its invocation selected.
use dbtx.Prelude.{
  ℕ, String, Bool, ◌&&◌, ◌||◌, Option, none, some, List, [], ◌∷◌, ◌++◌, ◌==◌, nat_eq, string_eq,
  if◌then◌else◌, coalesce, is_none, any, find, update_rows,
}
use dbtx.Error.{AppResult, ok, ◌>>=◌}
use dbtx.Invocation.{ℤ}
use dbtx.Plan.{SelectedResource, ActualState, PlanDb}
use dbtx.Plan.Outcome.{is_scope}
use dbtx.Reconcile.{Run, ReconcileDb}
use dbtx.Completion.{ManifestSnapshot, Documents, CompletionDb}
use dbtx.Completion.NodeStates.{rebuild_current_state_up_to}
use dbtx.Completion.Manifests.{persist_manifest}
use dbtx.Completion.Promote.{promote_manifest_state}

pub record RunFinalization : Type 0 where
  pub run_id : ℕ
  pub project_id : ℕ
  pub environment_id : ℕ
  pub subcommand : String
  pub dbt_version : Option String
  pub exit_code : ℤ
  pub terminal_status : String
  pub manifest : Option ManifestSnapshot
  pub promote_base_manifest : Bool

abbrev pub should_promote_manifest : String → Bool
should_promote_manifest s = s == "run" || s == "build" || s == "seed" || s == "snapshot"

abbrev pub finished_run : ℕ → Option String → ℤ → String → Run → Run
finished_run now version exit_code status r = record r {
  dbt_version = coalesce version r.dbt_version;
  finished_at = some now;
  exit_code = some exit_code;
  terminal_status = some status;
}

abbrev pub is_run : ℕ → Run → Bool
is_run run r = r.run_id == run

abbrev pub mark_run_finished : ℕ → RunFinalization → ReconcileDb → ReconcileDb
mark_run_finished now f db = record db {
  runs =
      update_rows (is_run f.run_id) (finished_run now f.dbt_version f.exit_code f.terminal_status)
        db.runs;
}

module _ (documents : Documents) (now : ℕ) (f : RunFinalization) where
  abbrev pub promoted : CompletionDb → CompletionDb
  promoted db =
      if should_promote_manifest f.subcommand
      then promote_manifest_state documents now f.run_id f.project_id f.environment_id
          f.promote_base_manifest db
      else db

  abbrev pub with_snapshot : Option ManifestSnapshot → CompletionDb → AppResult CompletionDb
  with_snapshot none db = ok db
  with_snapshot (some manifest) db = do
    reconcile ←
        persist_manifest documents now f.run_id f.project_id f.environment_id manifest db.reconcile
    ok (promoted (record db { reconcile = reconcile }))

  abbrev pub with_states : CompletionDb → CompletionDb
  with_states db = record db {
    reconcile =
        rebuild_current_state_up_to now f.project_id f.environment_id none db.node_executions
          db.reconcile;
  }

  unfoldable pub finalize_run : CompletionDb → AppResult CompletionDb
  unfolding persist_manifest promote_manifest_state rebuild_current_state_up_to
  finalize_run db = do
    persisted ←
        with_snapshot f.manifest (record db { reconcile = mark_run_finished now f db.reconcile })
    ok (with_states persisted)

-- The update keeps the last success when the run did not succeed.
abbrev pub attempted : ℕ → Run → Bool → ActualState → ActualState
attempted now r succeeded s = record s {
  last_attempted_run_id = some r.run_id;
  last_attempted_commit_sha = r.git_commit_sha;
  last_attempted_at = some now;
  last_successful_run_id = if succeeded then some r.run_id else s.last_successful_run_id;
  last_successful_commit_sha =
      if succeeded
      then coalesce r.git_commit_sha s.last_successful_commit_sha
      else s.last_successful_commit_sha;
  last_successful_at = if succeeded then some now else s.last_successful_at;
  updated_at = now;
}

abbrev pub first_state : ℕ → ℕ → ℕ → Run → Bool → ActualState
first_state now p e r succeeded = record {
  project_id = p;
  environment_id = e;
  last_attempted_run_id = some r.run_id;
  last_attempted_commit_sha = r.git_commit_sha;
  last_attempted_at = some now;
  last_successful_run_id = if succeeded then some r.run_id else none;
  last_successful_commit_sha = if succeeded then r.git_commit_sha else none;
  last_successful_at = if succeeded then some now else none;
  last_admitted_plan_id = none;
  last_completed_plan_id = none;
  updated_at = now;
}

-- `SELECT … FROM runs` gives no row to insert when there is no such run.
abbrev pub state_for_run : ℕ → ℕ → ℕ → Option Run → Bool → List ActualState → List ActualState
state_for_run now p e none succeeded rows = rows
state_for_run now p e (some r) succeeded rows =
    if any (is_scope p e) rows
    then update_rows (is_scope p e) (attempted now r succeeded) rows
    else rows ++ first_state now p e r succeeded ∷ []

abbrev pub with_plan_db : (PlanDb → PlanDb) → CompletionDb → CompletionDb
with_plan_db f db = record db {
  reconcile = record (db.reconcile) { plan_db = f db.reconcile.plan_db };
}

abbrev pub upsert_environment_actual_state_for_run :
    ℕ → ℕ → ℕ → ℕ → Bool → CompletionDb → CompletionDb
upsert_environment_actual_state_for_run now run p e succeeded db =
    with_plan_db
      (λ plans. record plans {
        actual_states =
            state_for_run now p e (find (is_run run) db.reconcile.runs) succeeded
              plans.actual_states;
      })
      db

abbrev pub is_open_of : ℕ → SelectedResource → Bool
is_open_of i s = s.invocation_id == i && is_none s.finished_at

abbrev pub closed_resource : ℕ → String → SelectedResource → SelectedResource
closed_resource now reason s = record s {
  finished_at = coalesce s.finished_at (some now);
  close_reason = coalesce s.close_reason (some reason);
  updated_at = now;
}

abbrev pub close_invocation_selected_resources : ℕ → ℕ → String → PlanDb → PlanDb
close_invocation_selected_resources now i reason db = record db {
  selected_resources =
      update_rows (is_open_of i) (closed_resource now reason) db.selected_resources;
}
