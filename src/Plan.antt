-- ===== src/Plan.antt =====
-- The tables of reconciliation plans and the rows in them: src/db/records.rs,
-- migrations/0003_invocation_selected_resources.sql, 0004_reconciliation_plans.sql and
-- 0006_reconcile_leases_and_plan_metadata.sql. The operations of src/db/reconciliation.rs and their
-- proofs are in the modules below. Ids, instants and JSON documents are as in Invocation.
pub mod Lease
pub mod Lifecycle
pub mod Outcome
pub mod Conflict
pub mod Exclusion
pub mod Backoff
pub mod Progress
pub mod Overlap
pub mod Blocking
pub mod Examples
use dbtx.Prelude.{ℕ, String, Option, List}
use dbtx.Status.PlanStatus.{PlanStatus}
use dbtx.Invocation.{Invocation}

-- A row of `environment_run_plans`. The `INTEGER` counts are below 2 ^ 31.
pub record EnvironmentRunPlan : Type 0 where
  pub plan_id : ℕ
  pub project_id : ℕ
  pub environment_id : ℕ
  pub status : PlanStatus
  pub reason : String
  pub input_fingerprint : Option String
  pub target_git_branch : Option String
  pub target_git_commit_sha : Option String
  pub baseline_run_id : Option ℕ
  pub selection_spec : Option String
  pub selected_resources : List String
  pub resource_count : ℕ
  pub superseded_by_plan_id : Option ℕ
  pub retry_count : ℕ
  pub blocked_by_invocation_id : Option ℕ
  pub admitted_invocation_id : Option ℕ
  pub source_event_id : Option ℕ
  pub error : Option String
  pub failure_count : ℕ
  pub next_attempt_at : Option ℕ
  pub first_blocked_at : Option ℕ
  pub last_blocked_at : Option ℕ
  pub last_checked_at : Option ℕ
  pub admitted_at : Option ℕ
  pub completed_at : Option ℕ
  pub created_at : ℕ
  pub updated_at : ℕ
  pub metadata : String

-- A row of `environment_reconcile_leases`.
pub record ReconcileLease : Type 0 where
  pub environment_id : ℕ
  pub owner : String
  pub leased_until : ℕ
  pub updated_at : ℕ

-- A row of `invocation_selected_resources`.
pub record SelectedResource : Type 0 where
  pub invocation_id : ℕ
  pub run_id : Option ℕ
  pub project_id : ℕ
  pub environment_id : ℕ
  pub unique_id : String
  pub resource_type : Option String
  pub selected_at : ℕ
  pub node_started_at : Option ℕ
  pub finished_at : Option ℕ
  pub close_reason : Option String
  pub created_at : ℕ
  pub updated_at : ℕ

-- A row of `environment_actual_state`.
pub record ActualState : Type 0 where
  pub project_id : ℕ
  pub environment_id : ℕ
  pub last_attempted_run_id : Option ℕ
  pub last_attempted_commit_sha : Option String
  pub last_attempted_at : Option ℕ
  pub last_successful_run_id : Option ℕ
  pub last_successful_commit_sha : Option String
  pub last_successful_at : Option ℕ
  pub last_admitted_plan_id : Option ℕ
  pub last_completed_plan_id : Option ℕ
  pub updated_at : ℕ

pub record PlanDb : Type 0 where
  pub plans : List EnvironmentRunPlan
  pub leases : List ReconcileLease
  pub selected_resources : List SelectedResource
  pub actual_states : List ActualState
  pub invocations : List Invocation
