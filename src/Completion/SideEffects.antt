-- ===== src/Completion/SideEffects.antt =====
-- src/db/completion.rs: what the completion of an invocation does besides its own row.
use Prim.Native.String.{◌++◌ as append}
use dbtx.Prelude.{
  ℕ, ◌+◌, String, Bool, ◌&&◌, Option, none, some, ◌==◌, nat_eq, string_eq, option_eq, if◌then◌else◌,
  find, update_rows,
}
use dbtx.Error.{AppResult, ok, internal, ok_or, ◌>>=◌}
use dbtx.Status.LifecycleStatus.{LifecycleStatus, running, succeeded, failed, canceled}
use dbtx.Status.PreparationStatus.{PreparationStatus}
use dbtx.Invocation.Lease.{PersistenceRecord}
use dbtx.Plan.Lifecycle.{automatic_retry_backoff}
use dbtx.Plan.Outcome.{is_success, complete_environment_run_plan}
use dbtx.Reconcile.{ReconcilePreparation}
use dbtx.Reconcile.Formats.{Formats}
use dbtx.Reconcile.Prepare.{is_manifest_preparation_of}
use dbtx.Completion.{ExecutionCompletion, Documents, CompletionDb}
use dbtx.Completion.Finalize.{
  RunFinalization, finalize_run, with_plan_db, upsert_environment_actual_state_for_run,
  close_invocation_selected_resources,
}
use dbtx.Completion.Drafts.{
  apply_project_validation_completion, apply_environment_prepare_completion,
  apply_environment_validation_completion,
}
use dbtx.Completion.Release.{apply_release_completion}

abbrev pub completion_terminal_status : LifecycleStatus → String
completion_terminal_status succeeded = "success"
completion_terminal_status canceled = "canceled"
completion_terminal_status failed = "failed"
completion_terminal_status running = "running"

abbrev pub completion_close_reason : LifecycleStatus → String
completion_close_reason succeeded = "invocation_succeeded"
completion_close_reason failed = "invocation_failed"
completion_close_reason canceled = "invocation_canceled"
completion_close_reason running = "invocation_failed"

-- `require_project_id` and the like; the part of the scope is named in the message.
abbrev pub require_scope : String → String → Option ℕ → AppResult ℕ
require_scope context part i =
    ok_or (internal (append context (append " invocation missing " (append part " scope")))) i

abbrev pub is_preparation_by : ℕ → ℕ → ℕ → ReconcilePreparation → Bool
is_preparation_by p e i r = is_manifest_preparation_of p e r && r.invocation_id == some i

abbrev pub preparation_outcome_status : LifecycleStatus → PreparationStatus
preparation_outcome_status succeeded = PreparationStatus.succeeded
preparation_outcome_status _ = PreparationStatus.failed

abbrev pub failures_of : Option ReconcilePreparation → ℕ
failures_of none = 0
failures_of (some r) = r.failure_count

abbrev pub prepared_row :
    ℕ → LifecycleStatus → Option String → ℕ → ReconcilePreparation → ReconcilePreparation
unfolding automatic_retry_backoff
prepared_row now s message failures r = record r {
  status = preparation_outcome_status s;
  error = message;
  failure_count = if is_success s then 0 else failures + 1;
  next_attempt_at =
      if is_success s then none else some (now + automatic_retry_backoff (failures + 1));
  completed_at = some now;
  updated_at = now;
}

-- A preparation that another invocation has taken over is left as it is.
unfoldable pub apply_manifest_prepare_completion :
    ℕ → ℕ → ℕ → ℕ → ExecutionCompletion → CompletionDb → CompletionDb
unfolding automatic_retry_backoff
apply_manifest_prepare_completion now p e i completion db =
    let rows = db.reconcile.preparations in
    record db {
      reconcile = record (db.reconcile) {
        preparations =
            update_rows (is_preparation_by p e i)
              (prepared_row now completion.status completion.error
                (failures_of (find (is_preparation_by p e i) rows)))
              rows;
      };
    }

module _ (formats : Formats) (documents : Documents) (now i : ℕ) (inv : PersistenceRecord)
    (completion : ExecutionCompletion) where
  abbrev pub finalization : ℕ → ℕ → ℕ → RunFinalization
  finalization run p e = record {
    run_id = run;
    project_id = p;
    environment_id = e;
    subcommand = inv.command;
    dbt_version = completion.dbt_version;
    exit_code = completion.exit_code;
    terminal_status = completion_terminal_status completion.status;
    manifest = completion.manifest;
    promote_base_manifest = inv.promote_base_manifest && is_success completion.status;
  }

  abbrev pub with_actual_state : ℕ → ℕ → ℕ → CompletionDb → CompletionDb
  with_actual_state run p e db =
      if inv.updates_actual_state
      then upsert_environment_actual_state_for_run now run p e (is_success completion.status) db
      else db

  abbrev pub end_run : Option ℕ → CompletionDb → AppResult CompletionDb
  end_run none db = ok db
  end_run (some run) db = do
    p ← require_scope "run" "project" inv.project_id
    e ← require_scope "run" "environment" inv.environment_id
    finalized ← finalize_run documents now (finalization run p e) db
    ok (with_actual_state run p e finalized)

  abbrev pub release : CompletionDb → AppResult CompletionDb
  release db = do
    p ← require_scope "release" "project" inv.project_id
    e ← require_scope "release" "environment" inv.environment_id
    apply_release_completion formats documents now p e completion.result db

  abbrev pub validate_project : CompletionDb → AppResult CompletionDb
  validate_project db = do
    draft ← require_scope "project_validate" "draft" inv.project_draft_id
    apply_project_validation_completion documents now draft completion db

  abbrev pub prepare_environment : CompletionDb → AppResult CompletionDb
  prepare_environment db = do
    draft ← require_scope "environment_prepare" "draft" inv.environment_draft_id
    apply_environment_prepare_completion documents now draft completion db

  abbrev pub validate_environment : CompletionDb → AppResult CompletionDb
  validate_environment db = do
    draft ← require_scope "environment_validate" "draft" inv.environment_draft_id
    apply_environment_validation_completion documents now draft completion db

  abbrev pub prepare_manifest : CompletionDb → AppResult CompletionDb
  unfolding apply_manifest_prepare_completion
  prepare_manifest db = do
    p ← require_scope "manifest_prepare" "project" inv.project_id
    e ← require_scope "manifest_prepare" "environment" inv.environment_id
    ok (apply_manifest_prepare_completion now p e i completion db)

  -- A release that did not succeed falls to the last case.
  unfoldable pub for_command : CompletionDb → AppResult CompletionDb
  unfolding apply_release_completion apply_project_validation_completion
      apply_environment_prepare_completion apply_environment_validation_completion
      apply_manifest_prepare_completion
  for_command db =
      if inv.command == "release" && is_success completion.status
      then release db
      else if inv.command == "project_validate"
      then validate_project db
      else if inv.command == "environment_prepare"
      then prepare_environment db
      else if inv.command == "environment_validate"
      then validate_environment db
      else if inv.command == "manifest_prepare"
      then prepare_manifest db
      else ok db

  abbrev pub close_resources : CompletionDb → CompletionDb
  close_resources db =
      with_plan_db
        (close_invocation_selected_resources now i (completion_close_reason completion.status)) db

  abbrev pub end_plan : Option ℕ → CompletionDb → CompletionDb
  end_plan none db = db
  end_plan (some plan) db =
      with_plan_db (complete_environment_run_plan now plan completion.status completion.error) db

  unfoldable pub apply_invocation_completion_side_effects : CompletionDb → AppResult CompletionDb
  unfolding for_command finalize_run complete_environment_run_plan
  apply_invocation_completion_side_effects db = do
    ended ← end_run inv.run_id db
    commanded ← for_command ended
    ok (end_plan inv.plan_id (close_resources commanded))
