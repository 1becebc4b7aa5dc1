-- ===== src/Reconcile/Prepare.antt =====
-- src/manifest_preparation.rs: the manifest of a target commit is prepared at most once at a time, and
-- not during the back-off after a failure; with its statements of src/db/reconciliation.rs.
-- Preparing and starting the invocation are arguments, as in Admission.
use dbtx.Prelude.{
  ℕ, String, Bool, true, false, ◌&&◌, Option, none, some, List, [], ◌∷◌, ◌++◌, ◌==◌, nat_eq,
  string_eq, option_eq, if◌then◌else◌, ltb, is_some, is_none, some_and, any, where_rows,
  update_rows,
}
use dbtx.Error.{reconciliation_requires_commit_sha}
use dbtx.Status.PreparationStatus.{PreparationStatus, running, failed}
use dbtx.Status.Command.{as_str, manifest_prepare}
use dbtx.Invocation.{Invocation, is_running}
use dbtx.Plan.{ActualState}
use dbtx.Reconcile.{Environment, Run, ReconcilePreparation, ReconcileDb}
use dbtx.Reconcile.Formats.{Formats}
use dbtx.Reconcile.Identity.{
  kind_as_str, target_manifest, code_change_identity, target_manifest_preparation_fingerprint,
}
use dbtx.Reconcile.Action.{Action, returned, give, throw, tries, ◌>>=◌}
use dbtx.Reconcile.Queries.{get_environment_actual_state, latest_manifest_run_id_for_commit}

abbrev pub is_preparation_of : ℕ → ℕ → ReconcilePreparation → Bool
is_preparation_of p e r = r.project_id == p && r.environment_id == e

-- `ORDER BY updated_at DESC LIMIT 1`.
abbrev pub later_preparation :
    ReconcilePreparation → Option ReconcilePreparation → ReconcilePreparation
later_preparation r none = r
later_preparation r (some s) = if ltb r.updated_at s.updated_at then s else r

abbrev pub last_preparation : List ReconcilePreparation → Option ReconcilePreparation
last_preparation [] = none
last_preparation (r ∷ rest) = some (later_preparation r (last_preparation rest))

unfoldable pub get_environment_reconcile_preparation_by_scope :
    ℕ → ℕ → ReconcileDb → Option ReconcilePreparation
get_environment_reconcile_preparation_by_scope p e db =
    last_preparation (where_rows (is_preparation_of p e) db.preparations)

-- The join with `runs`.
abbrev pub is_active_prepare : List Run → ℕ → ℕ → String → Invocation → Bool
is_active_prepare runs p e sha i =
    i.project_id == some p
    && i.environment_id == some e
    && i.command == as_str manifest_prepare
    && is_running i.status
    && is_none i.completed_at
    && some_and (λ run. any (λ (r : Run). r.run_id == run && r.git_commit_sha == some sha) runs)
        i.run_id

unfoldable pub has_active_manifest_prepare_for_commit : ℕ → ℕ → String → ReconcileDb → Bool
has_active_manifest_prepare_for_commit p e sha db =
    any (is_active_prepare db.runs p e sha) db.plan_db.invocations

abbrev pub new_preparation : ℕ → ℕ → ℕ → String → String → ℕ → ReconcilePreparation
new_preparation now p e fingerprint sha invocation = record {
  project_id = p;
  environment_id = e;
  kind = kind_as_str target_manifest;
  input_fingerprint = some fingerprint;
  target_git_commit_sha = some sha;
  status = running;
  invocation_id = some invocation;
  error = none;
  failure_count = 0;
  next_attempt_at = none;
  started_at = some now;
  completed_at = none;
  updated_at = now;
}

-- The update leaves `failure_count` as it is.
abbrev pub restarted : ℕ → String → String → ℕ → ReconcilePreparation → ReconcilePreparation
restarted now fingerprint sha invocation r = record r {
  input_fingerprint = some fingerprint;
  target_git_commit_sha = some sha;
  status = running;
  invocation_id = some invocation;
  error = none;
  next_attempt_at = none;
  started_at = some now;
  completed_at = none;
  updated_at = now;
}

abbrev pub is_manifest_preparation_of : ℕ → ℕ → ReconcilePreparation → Bool
is_manifest_preparation_of p e r = is_preparation_of p e r && r.kind == kind_as_str target_manifest

unfoldable pub mark_manifest_prepare_running :
    ℕ → ℕ → ℕ → String → String → ℕ → ReconcileDb → ReconcileDb
mark_manifest_prepare_running now p e fingerprint sha invocation db = record db {
  preparations =
      if any (is_manifest_preparation_of p e) db.preparations
      then update_rows (is_manifest_preparation_of p e) (restarted now fingerprint sha invocation)
          db.preparations
      else db.preparations ++ new_preparation now p e fingerprint sha invocation ∷ [];
}

pub data ManifestPreparationOutcome : Type 0 where
  already_available : ManifestPreparationOutcome
  in_progress : ManifestPreparationOutcome
  started : ℕ → ManifestPreparationOutcome

abbrev pub is_failed : PreparationStatus → Bool
is_failed failed = true
is_failed _ = false

-- A failed preparation of the same input whose next attempt lies ahead.
abbrev pub is_backing_off : ℕ → String → ReconcilePreparation → Bool
is_backing_off now fingerprint r =
    r.kind == kind_as_str target_manifest
    && r.input_fingerprint == some fingerprint
    && is_failed r.status
    && some_and (λ t. ltb now t) r.next_attempt_at

-- `prepare_remote_manifest_capture`, and the trait `AsyncStartInvocation`.
pub record ManifestStarter (Prepared : Type 0) : Type 0 where
  pub prepare_remote_manifest_capture : ℕ → String → String → Action Prepared
  pub start : ℕ → Prepared → Action ℕ

abbrev pub manifest_fingerprint : Formats → String → ActualState → String
manifest_fingerprint formats sha actual =
    target_manifest_preparation_fingerprint
      (code_change_identity formats sha actual.last_successful_run_id)

module _ {Prepared : Type 0} (formats : Formats) (starter : ManifestStarter Prepared) (now : ℕ)
    (invocation : ℕ) (env : Environment) where
  unfoldable pub start_preparation : String → String → Action ManifestPreparationOutcome
  unfolding mark_manifest_prepare_running
  start_preparation fingerprint sha = do
    prepared ← starter.prepare_remote_manifest_capture invocation env.project_ref env.slug
    _ ← starter.start invocation prepared
    λ db.
        returned (started invocation)
          (mark_manifest_prepare_running now env.project_id env.id fingerprint sha invocation db)

  unfoldable pub prepare_for : String → String → Action ManifestPreparationOutcome
  unfolding start_preparation latest_manifest_run_id_for_commit
      has_active_manifest_prepare_for_commit get_environment_reconcile_preparation_by_scope
  prepare_for fingerprint sha db =
      if is_some (latest_manifest_run_id_for_commit env.project_id env.id sha db)
      then give already_available db
      else if has_active_manifest_prepare_for_commit env.project_id env.id sha db
      then give in_progress db
      else if some_and (is_backing_off now fingerprint)
          (get_environment_reconcile_preparation_by_scope env.project_id env.id db)
      then give in_progress db
      else start_preparation fingerprint sha db

  unfoldable pub prepare_commit : Option String → Action ManifestPreparationOutcome
  unfolding prepare_for
  prepare_commit none = throw reconciliation_requires_commit_sha
  prepare_commit (some sha) = do
    actual ← tries (get_environment_actual_state now env.project_ref env.slug)
    prepare_for (manifest_fingerprint formats sha actual) sha

  unfoldable pub ensure_manifest_preparation : Action ManifestPreparationOutcome
  unfolding prepare_commit
  ensure_manifest_preparation = prepare_commit env.git_commit_sha
