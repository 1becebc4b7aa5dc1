-- ===== src/Plan/Outcome.antt =====
-- src/db/reconciliation.rs and src/db/runs.rs: admission and completion of a plan, which also
-- record the plan in `environment_actual_state` and reserve its resources.
use dbtx.Prelude.{
  is_blank, ℕ, ◌+◌, String, Bool, true, false, ◌&&◌, Option, none, some, List, [], ◌∷◌, ◌++◌, ◌==◌,
  nat_eq, string_eq, if◌then◌else◌, coalesce, any, find, update_rows,
}
use dbtx.Error.{AppResult, ok, err, sqlx, plan_not_found}
use dbtx.Status.PlanStatus.{PlanStatus, admitted, completed, failed, canceled}
use dbtx.Status.LifecycleStatus.{LifecycleStatus}
use dbtx.Plan.{EnvironmentRunPlan, ActualState, SelectedResource, PlanDb}
use dbtx.Invocation.{Invocation}
use dbtx.Invocation.Queue.{has_id}
use dbtx.Plan.Lifecycle.{is_plan, is_admissible_or_admitted, automatic_retry_backoff}

-- `INSERT … ON CONFLICT (project_id, environment_id) DO UPDATE` of one column.
abbrev pub is_scope : ℕ → ℕ → ActualState → Bool
is_scope project_id environment_id s =
    s.project_id == project_id && s.environment_id == environment_id

abbrev pub blank_state : ℕ → ℕ → ℕ → ActualState
blank_state now project_id environment_id = record {
  project_id = project_id;
  environment_id = environment_id;
  last_attempted_run_id = none;
  last_attempted_commit_sha = none;
  last_attempted_at = none;
  last_successful_run_id = none;
  last_successful_commit_sha = none;
  last_successful_at = none;
  last_admitted_plan_id = none;
  last_completed_plan_id = none;
  updated_at = now;
}

abbrev pub upsert_state :
    ℕ → (ActualState → ActualState) → EnvironmentRunPlan → List ActualState → List ActualState
upsert_state now f p states =
    if any (is_scope p.project_id p.environment_id) states
    then update_rows (is_scope p.project_id p.environment_id) f states
    else states ++ f (blank_state now p.project_id p.environment_id) ∷ []

abbrev pub with_admitted : ℕ → ℕ → ActualState → ActualState
with_admitted now i s = record s { last_admitted_plan_id = some i; updated_at = now }

abbrev pub with_completed : ℕ → ℕ → ActualState → ActualState
with_completed now i s = record s { last_completed_plan_id = some i; updated_at = now }

abbrev pub admitted_row : ℕ → ℕ → EnvironmentRunPlan → EnvironmentRunPlan
admitted_row now j p = record p {
  status = admitted;
  admitted_invocation_id = some j;
  superseded_by_plan_id = none;
  blocked_by_invocation_id = none;
  error = none;
  next_attempt_at = none;
  last_checked_at = some now;
  admitted_at = some now;
  updated_at = now;
}

-- The row that the first statement returns: admitted, or as it was.
abbrev pub admit_row : ℕ → ℕ → EnvironmentRunPlan → EnvironmentRunPlan
admit_row now j p = if is_admissible_or_admitted p.status then admitted_row now j p else p

abbrev pub is_reservation : ℕ → String → SelectedResource → Bool
is_reservation j u s = s.invocation_id == j && s.unique_id == u

abbrev pub reservation : ℕ → Invocation → EnvironmentRunPlan → String → SelectedResource
reservation now inv p u = record {
  invocation_id = inv.invocation_id;
  run_id = inv.run_id;
  project_id = p.project_id;
  environment_id = p.environment_id;
  unique_id = u;
  resource_type = none;
  selected_at = now;
  node_started_at = none;
  finished_at = none;
  close_reason = none;
  created_at = now;
  updated_at = now;
}

-- `ON CONFLICT (invocation_id, unique_id) DO NOTHING`, one selected resource after the other.
unfoldable pub reserve :
    ℕ
    → Invocation
    → EnvironmentRunPlan
    → List String
    → List SelectedResource
    → List SelectedResource
reserve now inv p [] rows = rows
reserve now inv p (u ∷ rest) rows = reserve now inv p rest (
    if any (is_reservation inv.invocation_id u) rows
    then rows
    else rows ++ reservation now inv p u ∷ [])

-- The join with `invocations` is empty when there is no such invocation.
abbrev pub reserve_found :
    ℕ → Option Invocation → EnvironmentRunPlan → List SelectedResource → List SelectedResource
reserve_found now none p rows = rows
reserve_found now (some inv) p rows = reserve now inv p p.selected_resources rows

-- An admission names an invocation that is there, and a reservation a resource that is not blank.
abbrev pub is_refused : ℕ → EnvironmentRunPlan → PlanDb → Bool
is_refused j p db =
    if any (has_id j) db.invocations
    then any is_blank p.selected_resources
    else is_admissible_or_admitted p.status

abbrev pub admitted_db : ℕ → ℕ → ℕ → EnvironmentRunPlan → PlanDb → PlanDb
admitted_db now i j p db = record db {
  plans = update_rows (is_plan i) (admit_row now j) db.plans;
  selected_resources = reserve_found now (find (has_id j) db.invocations) p db.selected_resources;
  actual_states = upsert_state now (with_admitted now i) p db.actual_states;
}

abbrev pub admit_found :
    ℕ → ℕ → ℕ → Option EnvironmentRunPlan → PlanDb → AppResult (EnvironmentRunPlan × PlanDb)
admit_found now i j none db = err (plan_not_found i)
admit_found now i j (some p) db =
    if is_refused j p db then err sqlx else ok (admit_row now j p, admitted_db now i j p db)

-- The second and third statements run whether or not the first one admitted the plan.
unfoldable pub mark_environment_run_plan_admitted :
    ℕ → ℕ → ℕ → PlanDb → AppResult (EnvironmentRunPlan × PlanDb)
unfolding reserve
mark_environment_run_plan_admitted now i j db = admit_found now i j (find (is_plan i) db.plans) db

abbrev pub noop_row : ℕ → String → String → EnvironmentRunPlan → EnvironmentRunPlan
noop_row now message metadata p = record p {
  status = completed;
  selected_resources = [];
  resource_count = 0;
  blocked_by_invocation_id = none;
  error = some message;
  failure_count = 0;
  next_attempt_at = none;
  metadata = metadata;
  last_checked_at = some now;
  completed_at = some now;
  updated_at = now;
}

abbrev pub complete_found :
    ℕ → ℕ → (EnvironmentRunPlan → EnvironmentRunPlan) → Option EnvironmentRunPlan → PlanDb → PlanDb
complete_found now i f none db = db
complete_found now i f (some p) db = record db {
  plans = update_rows (is_plan i) f db.plans;
  actual_states = upsert_state now (with_completed now i) p db.actual_states;
}

abbrev pub noop_found :
    ℕ
    → ℕ
    → String
    → String
    → Option EnvironmentRunPlan
    → PlanDb
    → AppResult (EnvironmentRunPlan × PlanDb)
noop_found now i message metadata none db = err sqlx
noop_found now i message metadata (some p) db = ok (
  noop_row now message metadata p,
  complete_found now i (noop_row now message metadata) (some p) db,
)

unfoldable pub mark_environment_run_plan_completed_noop :
    ℕ → ℕ → String → String → PlanDb → AppResult (EnvironmentRunPlan × PlanDb)
mark_environment_run_plan_completed_noop now i message metadata db =
    noop_found now i message metadata (find (is_plan i) db.plans) db

abbrev pub outcome_status : LifecycleStatus → PlanStatus
outcome_status LifecycleStatus.succeeded = completed
outcome_status LifecycleStatus.failed = failed
outcome_status LifecycleStatus.canceled = canceled
outcome_status LifecycleStatus.running = failed

abbrev pub is_success : LifecycleStatus → Bool
is_success LifecycleStatus.succeeded = true
is_success _ = false

unfoldable pub finished_row :
    ℕ → LifecycleStatus → Option String → EnvironmentRunPlan → EnvironmentRunPlan
unfolding automatic_retry_backoff
finished_row now s message p = record p {
  status = outcome_status s;
  error = if is_success s then none else coalesce message p.error;
  failure_count = if is_success s then 0 else p.failure_count + 1;
  next_attempt_at =
      if is_success s then none else some (now + automatic_retry_backoff (p.failure_count + 1));
  completed_at = some now;
  updated_at = now;
}

-- With no row of the id, each of the statements changes nothing.
unfoldable pub complete_environment_run_plan :
    ℕ → ℕ → LifecycleStatus → Option String → PlanDb → PlanDb
unfolding finished_row
complete_environment_run_plan now i s message db =
    complete_found now i (finished_row now s message) (find (is_plan i) db.plans) db
