-- ===== src/Reconcile/Admission.antt =====
-- src/services/admission.rs, and `admit_and_start_plan` of src/services/environments.rs. Preparing
-- and starting an invocation are arguments: the first reads profiles and manifests from files, the
-- second is the trait `InvocationStarter`.
use Prim.Native.String.{◌++◌ as append}
use dbtx.Prelude.{
  ℕ, ◌*◌, String, Bool, true, false, Option, none, some, List, [], ◌∷◌, if◌then◌else◌, not,
}
use dbtx.Error.{plan_not_admissible, reconciliation_in_progress}
use dbtx.Status.PlanStatus.{PlanStatus, as_str, completed, is_admissible}
use dbtx.Status.Command.{InvocationCommand, build}
use dbtx.Invocation.Deadline.{second}
use dbtx.Plan.{EnvironmentRunPlan, ReconcileLease}
use dbtx.Plan.Lease.{acquire_environment_reconcile_lease, release_environment_reconcile_lease}
use dbtx.Plan.Lifecycle.{get_environment_run_plan, mark_environment_run_plan_blocked}
use dbtx.Plan.Outcome.{mark_environment_run_plan_admitted}
use dbtx.Plan.Conflict.{list_active_conflicting_invocations}
use dbtx.Reconcile.{ReconcileDb}
use dbtx.Reconcile.Formats.{Formats}
use dbtx.Reconcile.Action.{
  Outcome, returned, failed, endless, Action, give, throw, gets, tries, on_plans, ◌>>=◌,
}
use dbtx.Reconcile.Queries.{get_project_by_id, get_environment_by_id}
use dbtx.Reconcile.Replan.{replan_pending_plan}

-- `RECONCILE_LEASE_DURATION`.
abbrev pub reconcile_lease_duration : ℕ
reconcile_lease_duration = 30 * second

abbrev pub with_leases : List ReconcileLease → ReconcileDb → ReconcileDb
with_leases leases db = record db { plan_db = record (db.plan_db) { leases = leases } }

abbrev pub acquired : Bool × List ReconcileLease → Action Unit
acquired (true, leases) db = returned tt (with_leases leases db)
acquired (false, leases) db = failed reconciliation_in_progress (with_leases leases db)

unfoldable pub acquire_reconcile_lease : ℕ → ℕ → String → Action Unit
unfolding acquire_environment_reconcile_lease
acquire_reconcile_lease now e owner db =
    acquired
      (acquire_environment_reconcile_lease now e owner reconcile_lease_duration db.plan_db.leases)
      db

unfoldable pub release_reconcile_lease : ℕ → String → ReconcileDb → ReconcileDb
unfolding release_environment_reconcile_lease
release_reconcile_lease e owner db =
    with_leases (release_environment_reconcile_lease e owner db.plan_db.leases) db

-- The release comes after the call's result, an error included; its own error is dropped.
unfoldable pub then_release : {A : Type 0} → ℕ → String → Outcome A → Outcome A
unfolding release_reconcile_lease
then_release e owner (returned a db) = returned a (release_reconcile_lease e owner db)
then_release e owner (failed x db) = failed x (release_reconcile_lease e owner db)
then_release e owner endless = endless

unfoldable pub under_lease : {A : Type 0} → ℕ → ℕ → String → Action A → Action A
unfolding acquire_reconcile_lease then_release
under_lease now e owner m = do
  _ ← acquire_reconcile_lease now e owner
  λ db. then_release e owner (m db)

abbrev pub build_args : EnvironmentRunPlan → List String
build_args p = args_for p.selected_resources
  where
    args_for : List String → List String
    args_for [] = []
    args_for (u ∷ us) = "--select" ∷ u ∷ us

module _ (Prepared : Type 0) where
  pub record EnvironmentPlanAdmitPrepared : Type 0 where
    pub plan : EnvironmentRunPlan
    pub invocation_id : Option ℕ
    pub prepared : Option Prepared

  -- `prepare_remote_execution` of a build.
  pub record Preparer : Type 0 where
    pub prepare_remote_execution :
        ℕ → InvocationCommand → List String → String → String → Action Prepared

  pub record InvocationStarter : Type 0 where
    pub start_prepared_invocation : ℕ → InvocationCommand → Option ℕ → Prepared → Action ℕ

pub record EnvironmentPlanAdmission : Type 0 where
  pub plan : EnvironmentRunPlan
  pub invocation_id : Option ℕ

abbrev pub is_completed : PlanStatus → Bool
is_completed completed = true
is_completed _ = false

module _ {Prepared : Type 0} (formats : Formats) (preparer : Preparer Prepared) (fuel now : ℕ)
    (invocation : ℕ) where
  abbrev pub not_prepared : EnvironmentRunPlan → EnvironmentPlanAdmitPrepared Prepared
  not_prepared p = record { plan = p; invocation_id = none; prepared = none }

  abbrev pub prepare_build : EnvironmentRunPlan → Action (EnvironmentPlanAdmitPrepared Prepared)
  prepare_build p = do
    project ← tries (get_project_by_id p.project_id)
    environment ← tries (get_environment_by_id p.environment_id)
    prepared ←
        preparer.prepare_remote_execution invocation build (build_args p) project.project_id
          environment.slug
    give record { plan = p; invocation_id = some invocation; prepared = some prepared }

  -- The first of the conflicting invocations is recorded as the one that blocks.
  unfoldable pub block_or_prepare :
      EnvironmentRunPlan → List ℕ → Action (EnvironmentPlanAdmitPrepared Prepared)
  unfolding mark_environment_run_plan_blocked
  block_or_prepare p [] = prepare_build p
  block_or_prepare p (j ∷ js) = do
    blocked ← on_plans (
        mark_environment_run_plan_blocked now p.plan_id (some j)
          "plan is blocked by active resource overlap")
    give (not_prepared blocked)

  unfoldable pub admit_replanned :
      EnvironmentRunPlan → Action (EnvironmentPlanAdmitPrepared Prepared)
  unfolding list_active_conflicting_invocations block_or_prepare
  admit_replanned p = if is_completed p.status then give (not_prepared p) else do
    blockers ← gets (λ db. list_active_conflicting_invocations p.plan_id db.plan_db)
    block_or_prepare p blockers

  unfoldable pub admit_plan_with_lease :
      EnvironmentRunPlan → Action (EnvironmentPlanAdmitPrepared Prepared)
  unfolding replan_pending_plan admit_replanned
  admit_plan_with_lease p =
      if not (is_admissible p.status)
      then throw (plan_not_admissible p.plan_id (as_str p.status))
      else do replanned ← replan_pending_plan formats now fuel p; admit_replanned replanned

  unfoldable pub admit_plan : ℕ → Action (EnvironmentPlanAdmitPrepared Prepared)
  unfolding admit_plan_with_lease under_lease get_environment_run_plan
  admit_plan i = do
    p ← tries (λ db. get_environment_run_plan i db.plan_db)
    under_lease now p.environment_id (append "admit:" (formats.uuid_text invocation))
        (admit_plan_with_lease p)

  unfoldable pub start_if_prepared :
      InvocationStarter Prepared
      → ℕ
      → EnvironmentRunPlan
      → Option Prepared
      → Action EnvironmentPlanAdmission
  unfolding mark_environment_run_plan_admitted
  start_if_prepared starter i p none = give record { plan = p; invocation_id = none }
  start_if_prepared starter i p (some prepared) = do
    _ ← starter.start_prepared_invocation invocation build (some i) prepared
    admitted ← on_plans (mark_environment_run_plan_admitted now i invocation)
    give record { plan = admitted; invocation_id = some invocation }

  unfoldable pub admit_and_start_plan :
      InvocationStarter Prepared → ℕ → Action EnvironmentPlanAdmission
  unfolding admit_plan start_if_prepared
  admit_and_start_plan starter i = do
    prepared ← admit_plan i
    start_if_prepared starter i prepared.plan prepared.prepared
