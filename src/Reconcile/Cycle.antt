-- ===== src/Reconcile/Cycle.antt =====
-- src/reconciler/cycle.rs: the automatic reconciliation of every environment that asks for it, with
-- `should_ignore_reconcile_error` of src/reconciler.rs. The log lines are left out, so that the two
-- branches on an error, which differ in the log alone, are one.
use dbtx.Prelude.{
  ℕ, suc, ◌+◌, String, Bool, true, false, ◌&&◌, ◌||◌, not, Option, none, some, List, [], ◌∷◌, ◌==◌,
  nat_eq, string_eq, option_eq, if◌then◌else◌, ltb, some_and, find, where_rows, sort_by, is_some,
}
use dbtx.Error.{
  AppError, environment_already_reconciled, reconciliation_in_progress, reconciliation_empty_plan,
  plan_not_admissible,
}
use dbtx.Status.EnvironmentStatus.{EnvironmentStatus, active}
use dbtx.Status.PlanStatus.{PlanStatus, failed, canceled}
use dbtx.Plan.{EnvironmentRunPlan, ActualState}
use dbtx.Plan.Lifecycle.{is_newer}
use dbtx.Planning.Closure.{text_le}
use dbtx.Source.{SourceStateEvent}
use dbtx.Source.Events.{list_unsatisfied_source_state_events}
use dbtx.Source.Stale.{advance_satisfied_source_events_from_watermarks}
use dbtx.Reconcile.{Environment, ReconcilePreparation, ReconcileDb}
use dbtx.Reconcile.Formats.{Formats}
use dbtx.Reconcile.Identity.{
  ReconcileInputIdentity, kind_as_str, target_manifest, matches_plan, code_change_identity,
  source_state_change_identity, target_manifest_preparation_fingerprint,
}
use dbtx.Reconcile.Action.{
  Action, Outcome, returned, failed as failed_call, endless, give, gets, tries, ◌>>=◌,
}
use dbtx.Reconcile.Queries.{get_environment_actual_state}
use dbtx.Reconcile.Derive.{has_drift, no_events, ids_of, keys_of}
use dbtx.Reconcile.Admission.{Preparer, InvocationStarter, admit_and_start_plan}
use dbtx.Reconcile.Service.{reconcile}
use dbtx.Reconcile.Prepare.{
  get_environment_reconcile_preparation_by_scope, is_failed, ManifestPreparationOutcome,
  already_available, ManifestStarter, ensure_manifest_preparation,
}

abbrev pub should_ignore_reconcile_error : AppError → Bool
should_ignore_reconcile_error environment_already_reconciled = true
should_ignore_reconcile_error reconciliation_in_progress = true
should_ignore_reconcile_error reconciliation_empty_plan = true
should_ignore_reconcile_error (plan_not_admissible i s) = true
should_ignore_reconcile_error _ = false

abbrev pub is_plan_of : ℕ → ℕ → EnvironmentRunPlan → Bool
is_plan_of p e r = r.project_id == p && r.environment_id == e

unfoldable pub list_environment_run_plans_by_scope : ℕ → ℕ → ReconcileDb → List EnvironmentRunPlan
unfolding sort_by
list_environment_run_plans_by_scope p e db =
    sort_by is_newer (where_rows (is_plan_of p e) db.plan_db.plans)

abbrev pub is_failed_plan : EnvironmentRunPlan → Bool
is_failed_plan r = is_failed_status r.status
  where
    is_failed_status : PlanStatus → Bool
    is_failed_status failed = true
    is_failed_status canceled = true
    is_failed_status _ = false

abbrev pub is_auto_reconciled : Environment → Bool
is_auto_reconciled env = is_some env.git_commit_sha && env.auto_reconcile && is_active env.status
  where
    is_active : EnvironmentStatus → Bool
    is_active active = true
    is_active _ = false

-- `ORDER BY p.project_id, e.slug`.
abbrev pub environment_le : Environment → Environment → Bool
environment_le a b =
    if a.project_ref == b.project_ref
    then text_le a.slug b.slug
    else text_le a.project_ref b.project_ref

unfoldable pub list_auto_reconcile_remote_environments : ReconcileDb → List Environment
unfolding sort_by
list_auto_reconcile_remote_environments db =
    sort_by environment_le (where_rows is_auto_reconciled db.environments)

module _ (formats : Formats) (now : ℕ) where
  abbrev pub code_change_of : Environment → ActualState → Option ReconcileInputIdentity
  code_change_of env actual = if has_drift env actual then drifted env.git_commit_sha else none
    where
      drifted : Option String → Option ReconcileInputIdentity
      drifted none = none
      drifted (some sha) = some (code_change_identity formats sha actual.last_successful_run_id)

  abbrev pub preparation_fingerprint : Option ReconcileInputIdentity → Option String
  preparation_fingerprint none = none
  preparation_fingerprint (some identity) = some (target_manifest_preparation_fingerprint identity)

  -- A failed preparation for the current code change, or for none when there is none.
  abbrev pub is_failed_preparation : Option ReconcileInputIdentity → ReconcilePreparation → Bool
  is_failed_preparation identity r =
      r.kind == kind_as_str target_manifest
      && is_failed r.status
      && r.input_fingerprint == preparation_fingerprint identity

  abbrev pub applies :
      Option ReconcileInputIdentity → List SourceStateEvent → EnvironmentRunPlan → Bool
  applies identity events r =
      some_and (λ (i : ReconcileInputIdentity). matches_plan i r) identity
      || not (no_events events) && matches_plan (source_state_change_identity (ids_of events)) r

  abbrev pub plan_backoff :
      Option ReconcileInputIdentity → List SourceStateEvent → Option EnvironmentRunPlan → Option ℕ
  plan_backoff identity events none = none
  plan_backoff identity events (some r) =
      if applies identity events r then r.next_attempt_at else none

  abbrev pub last_failed_plan : Environment → ReconcileDb → Option EnvironmentRunPlan
  unfolding list_environment_run_plans_by_scope
  last_failed_plan env db =
      find is_failed_plan (list_environment_run_plans_by_scope env.project_id env.id db)

  abbrev pub backoff_by_preparation :
      Environment
      → Option ReconcileInputIdentity
      → List SourceStateEvent
      → Option ReconcilePreparation
      → ReconcileDb
      → Option ℕ
  backoff_by_preparation env identity events none db =
      plan_backoff identity events (last_failed_plan env db)
  backoff_by_preparation env identity events (some r) db =
      if is_failed_preparation identity r
      then r.next_attempt_at
      else plan_backoff identity events (last_failed_plan env db)

  unfoldable pub automatic_reconcile_backoff_until :
      Environment → ActualState → List SourceStateEvent → ReconcileDb → Option ℕ
  unfolding get_environment_reconcile_preparation_by_scope
  automatic_reconcile_backoff_until env actual events db =
      backoff_by_preparation env (code_change_of env actual) events
        (get_environment_reconcile_preparation_by_scope env.project_id env.id db) db

  abbrev pub advance_for :
      Environment → Option ℕ → List SourceStateEvent → Action (List SourceStateEvent)
  unfolding advance_satisfied_source_events_from_watermarks list_unsatisfied_source_state_events
  advance_for env none events db = returned events db
  advance_for env (some run) [] db = returned [] db
  advance_for env (some run) (ev ∷ rest) db =
      let after =
        advance_satisfied_source_events_from_watermarks now env.project_id env.id
          (keys_of (ev ∷ rest)) run db.source_db in
      returned (list_unsatisfied_source_state_events env.project_id env.id after)
        (record db { source_db = after })

  unfoldable pub advance_and_load_unsatisfied_source_events :
      Environment → Option ℕ → Action (List SourceStateEvent)
  unfolding advance_for list_unsatisfied_source_state_events
  advance_and_load_unsatisfied_source_events env baseline db =
      advance_for env baseline
        (list_unsatisfied_source_state_events env.project_id env.id db.source_db) db

-- The ids that one environment's turn may use.
pub record FreshIds : Type 0 where
  pub lease : ℕ
  pub plan : ℕ
  pub invocation : ℕ
  pub preparation : ℕ

module _ {Prepared : Type 0} (formats : Formats) (preparer : Preparer Prepared)
    (starter : InvocationStarter Prepared) (manifests : ManifestStarter Prepared)
    (fuel now : ℕ) where
  -- An error of admission ends nothing: the plan has been created.
  abbrev pub then_planned : {A : Type 0} → Outcome A → Outcome Bool
  then_planned (returned a db) = returned true db
  then_planned (failed_call e db) = returned true db
  then_planned endless = endless

  abbrev pub admit_reconciled : FreshIds → Outcome EnvironmentRunPlan → Outcome Bool
  unfolding admit_and_start_plan
  admit_reconciled ids (returned r db) =
      then_planned
        (admit_and_start_plan formats preparer fuel now ids.invocation starter r.plan_id db)
  admit_reconciled ids (failed_call e db) = returned false db
  admit_reconciled ids endless = endless

  unfoldable pub reconcile_and_admit : FreshIds → Environment → Action Bool
  unfolding admit_reconciled reconcile
  reconcile_and_admit ids env db =
      admit_reconciled ids
        (reconcile formats fuel now ids.lease ids.plan env.project_ref env.slug db)

  abbrev pub is_pending_manifest : ManifestPreparationOutcome → Bool
  is_pending_manifest already_available = false
  is_pending_manifest _ = true

  -- Whether to wait for the target's manifest.
  unfoldable pub ensure_target_manifest_for_reconcile_async : FreshIds → Environment → Action Bool
  unfolding ensure_manifest_preparation
  ensure_target_manifest_for_reconcile_async ids env =
      if not (is_some env.git_commit_sha) then give false else do
        outcome ← ensure_manifest_preparation formats manifests now ids.preparation env
        give (is_pending_manifest outcome)

  unfoldable pub reconcile_unless_waiting : FreshIds → Environment → ActualState → Action Bool
  unfolding reconcile_and_admit ensure_target_manifest_for_reconcile_async
  reconcile_unless_waiting ids env actual = do
    waits ←
        if has_drift env actual
        then ensure_target_manifest_for_reconcile_async ids env
        else give false
    if waits then give false else reconcile_and_admit ids env

  unfoldable pub reconcile_unless_backing_off :
      FreshIds → Environment → ActualState → Option ℕ → Action Bool
  unfolding reconcile_unless_waiting
  reconcile_unless_backing_off ids env actual until =
      if some_and (λ t. ltb now t) until
      then give false
      else reconcile_unless_waiting ids env actual

  -- Whether a plan was created.
  unfoldable pub reconcile_environment_once : FreshIds → Environment → Action Bool
  unfolding reconcile_unless_backing_off advance_and_load_unsatisfied_source_events
      automatic_reconcile_backoff_until
  reconcile_environment_once ids env = do
    actual ← tries (get_environment_actual_state now env.project_ref env.slug)
    events ←
        advance_and_load_unsatisfied_source_events formats now env actual.last_successful_run_id
    until ← gets (automatic_reconcile_backoff_until formats now env actual events)
    reconcile_unless_backing_off ids env actual until

  -- The count of plans; the environments take their ids by position.
  unfoldable pub reconcile_each : (ℕ → FreshIds) → ℕ → List Environment → ℕ → Action ℕ
  unfolding reconcile_environment_once
  reconcile_each ids n [] planned = give planned
  reconcile_each ids n (env ∷ rest) planned = do
    created ← reconcile_environment_once (ids n) env
    reconcile_each ids (suc n) rest (if created then planned + 1 else planned)

  unfoldable pub reconcile_environments_once : (ℕ → FreshIds) → Action ℕ
  unfolding reconcile_each list_auto_reconcile_remote_environments
  reconcile_environments_once ids = do
    environments ← gets list_auto_reconcile_remote_environments
    reconcile_each ids 0 environments 0
