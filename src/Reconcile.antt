-- ===== src/Reconcile.antt =====
-- The services that plan and admit: src/services/planning.rs (derivation and replanning),
-- src/services/admission.rs, `reconcile` and `admit_and_start_plan` of src/services/environments.rs,
-- src/services/reconcile_identity.rs, and the cycle of src/reconciler/cycle.rs with
-- src/manifest_preparation.rs. This file has the rows that they read besides those of Plan and
-- Source. An `Environment` is a row of `environments` with what `environment_query` joins to it.
pub mod Formats
pub mod Identity
pub mod Action
pub mod Queries
pub mod Derive
pub mod Replan
pub mod Admission
pub mod Service
pub mod Prepare
pub mod Cycle
pub mod Sweep
mod Waiting
mod BackOff
pub mod Turns
mod CycleExamples
mod Fingerprint
mod Keeps
mod Guarded
mod Errors
mod PlansKept
mod OnePending
mod Planned
mod Stored
mod Replanned
mod Blocked
pub mod Examples
use dbtx.Prelude.{ℕ, String, Bool, Option, List}
use dbtx.Status.EnvironmentStatus.{EnvironmentStatus}
use dbtx.Status.PreparationStatus.{PreparationStatus}
use dbtx.Invocation.{ℤ}
use dbtx.Plan.{PlanDb}
use dbtx.Source.{SourceDb}

pub record Project : Type 0 where
  pub id : ℕ
  pub project_id : String
  pub project_name : String
  pub git_repo_url : String
  pub default_branch : String
  pub project_root : String
  pub metadata : String

pub record Environment : Type 0 where
  pub id : ℕ
  pub project_id : ℕ
  pub project_ref : String
  pub project_name : String
  pub slug : String
  pub profile_name : String
  pub target_name : String
  pub baseline_environment_id : Option ℕ
  pub baseline_environment_slug : Option String
  pub git_branch : Option String
  pub git_commit_sha : Option String
  pub use_latest_commit : Bool
  pub auto_reconcile : Bool
  pub immutable : Bool
  pub pr_number : Option ℕ
  pub status : EnvironmentStatus
  pub adapter_type : String
  pub worker_queue : String
  pub schema_name : String
  pub threads : Option ℕ
  pub profile_config : String
  pub profile_secrets : String
  pub metadata : String

-- Columns of a row of `runs`.
pub record Run : Type 0 where
  pub id : ℕ
  pub run_id : ℕ
  pub project_id : ℕ
  pub environment_id : ℕ
  pub git_commit_sha : Option String
  pub dbt_version : Option String
  pub finished_at : Option ℕ
  pub exit_code : Option ℤ
  pub terminal_status : Option String

-- A row of `manifest_snapshots`.
pub record ManifestSnapshotRow : Type 0 where
  pub run_id : ℕ
  pub manifest : String
  pub manifest_size_bytes : ℕ
  pub checksum : Option String
  pub created_at : ℕ

-- A row of `current_node_state`. A `DOUBLE PRECISION` is its 64 bits: it is copied only.
pub record NodeState : Type 0 where
  pub project_id : ℕ
  pub environment_id : ℕ
  pub unique_id : String
  pub last_run_id : ℕ
  pub status : Option String
  pub resource_type : Option String
  pub node_name : Option String
  pub node_path : Option String
  pub materialized : Option String
  pub relation_database : Option String
  pub relation_schema : Option String
  pub relation_alias : Option String
  pub relation_name : Option String
  pub checksum : Option String
  pub started_at : Option ℕ
  pub finished_at : Option ℕ
  pub execution_time_seconds : Option ℕ
  pub last_success_at : Option ℕ
  pub updated_at : ℕ

-- A row of `environment_reconcile_preparations`.
pub record ReconcilePreparation : Type 0 where
  pub project_id : ℕ
  pub environment_id : ℕ
  pub kind : String
  pub input_fingerprint : Option String
  pub target_git_commit_sha : Option String
  pub status : PreparationStatus
  pub invocation_id : Option ℕ
  pub error : Option String
  pub failure_count : ℕ
  pub next_attempt_at : Option ℕ
  pub started_at : Option ℕ
  pub completed_at : Option ℕ
  pub updated_at : ℕ

pub record ReconcileDb : Type 0 where
  pub plan_db : PlanDb
  pub source_db : SourceDb
  pub projects : List Project
  pub environments : List Environment
  pub runs : List Run
  pub manifest_snapshots : List ManifestSnapshotRow
  pub node_states : List NodeState
  pub preparations : List ReconcilePreparation
