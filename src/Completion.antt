-- ===== src/Completion.antt =====
-- The tables that the completion of an invocation changes, besides those of Reconcile:
-- migrations/0001_init.sql, src/db/records.rs, and what src/execution.rs and src/manifest.rs hand
-- over. The operations of src/db/completion.rs, src/db/runs.rs and src/db/invocations.rs on them and
-- their proofs are in the modules below.
pub mod NodeStates
pub mod Ancestors
pub mod Manifests
pub mod Promote
pub mod Finalize
pub mod Drafts
pub mod Release
pub mod SideEffects
pub mod Complete
mod Keeps
pub mod Ended
pub mod Freed
pub mod Total
pub mod Examples
mod Lookup
mod Rows
mod Settled
mod Beside
mod Backfilled
pub mod Rebuilt
use dbtx.Prelude.{ℕ, String, Bool, Option, List}
use dbtx.Status.LifecycleStatus.{LifecycleStatus}
use dbtx.Status.DraftStatus.{DraftStatus}
use dbtx.Invocation.{ℤ}
use dbtx.Reconcile.{ReconcileDb}

-- A row of `node_executions`.
pub record NodeExecution : Type 0 where
  pub run_id : ℕ
  pub unique_id : String
  pub resource_type : Option String
  pub node_name : Option String
  pub node_path : Option String
  pub materialized : Option String
  pub status : Option String
  pub relation_database : Option String
  pub relation_schema : Option String
  pub relation_alias : Option String
  pub relation_name : Option String
  pub checksum : Option String
  pub started_at : Option ℕ
  pub finished_at : Option ℕ
  pub execution_time_seconds : Option ℕ
  pub updated_at : ℕ

-- Rows of `promoted_manifest_meta` and `promoted_manifest_nodes`.
pub record PromotedManifestMeta : Type 0 where
  pub project_id : ℕ
  pub environment_id : ℕ
  pub source_run_id : ℕ
  pub base_manifest : String
  pub promoted_at : ℕ

pub record PromotedManifestNode : Type 0 where
  pub project_id : ℕ
  pub environment_id : ℕ
  pub unique_id : String
  pub source_run_id : ℕ
  pub checksum : Option String
  pub raw_node : String
  pub promoted_at : ℕ

-- A row of `environment_versions` without its serial id.
pub record EnvironmentVersion : Type 0 where
  pub environment_id : ℕ
  pub project_id : ℕ
  pub recorded_at : ℕ
  pub reason : String
  pub git_branch : Option String
  pub git_commit_sha : Option String
  pub use_latest_commit : Bool
  pub auto_reconcile : Bool
  pub immutable : Bool
  pub baseline_environment_id : Option ℕ
  pub metadata : String

pub record ProjectDraft : Type 0 where
  pub id : ℕ
  pub git_repo_url : String
  pub project_root : String
  pub status : DraftStatus
  pub validation_error : Option String
  pub project_name : Option String
  pub default_branch : Option String
  pub validation_invocation_id : Option ℕ
  pub created_at : ℕ
  pub updated_at : ℕ
  pub validated_at : Option ℕ

pub record EnvironmentDraft : Type 0 where
  pub id : ℕ
  pub project_id : ℕ
  pub slug : String
  pub git_branch : Option String
  pub git_commit_sha : Option String
  pub use_latest_commit : Bool
  pub auto_reconcile : Bool
  pub immutable : Bool
  pub adapter_type : Option String
  pub schema_name : Option String
  pub threads : Option ℕ
  pub profile_config : String
  pub profile_secrets : String
  pub branch_options : String
  pub commit_options : String
  pub status : DraftStatus
  pub validation_error : Option String
  pub validation_invocation_id : Option ℕ
  pub created_at : ℕ
  pub updated_at : ℕ
  pub validated_at : Option ℕ

-- `ManifestSnapshot` of src/manifest.rs, with the fields whose columns are read.
pub record SnapshotNode : Type 0 where
  pub unique_id : String
  pub resource_type : Option String
  pub name : Option String
  pub original_file_path : Option String
  pub checksum : Option String
  pub database_name : Option String
  pub schema_name : Option String
  pub alias : Option String
  pub relation_name : Option String

pub record SnapshotEdge : Type 0 where
  pub parent_unique_id : String
  pub child_unique_id : String

pub record ManifestSnapshot : Type 0 where
  pub raw : String
  pub nodes : List SnapshotNode
  pub edges : List SnapshotEdge

-- The manifest is given as `ManifestSnapshot::from_raw` reads it.
pub record ExecutionCompletion : Type 0 where
  pub status : LifecycleStatus
  pub exit_code : ℤ
  pub error : Option String
  pub dbt_version : Option String
  pub manifest : Option ManifestSnapshot
  pub result : Option String

-- What `serde_json` and `md5` do with documents.
pub record Documents : Type 0 where
  -- `to_vec(document).len()`, `md5::compute` as hexadecimal.
  pub byte_length : String → ℕ
  pub md5_hex : String → String
  -- `manifest -> 'nodes' -> unique_id`.
  pub manifest_node : String → String → Option String
  -- `get(key).and_then(as_str)`, `get(key).cloned()`.
  pub text_at : String → String → Option String
  pub member_at : String → String → Option String

pub record CompletionDb : Type 0 where
  pub reconcile : ReconcileDb
  pub node_executions : List NodeExecution
  pub promoted_meta : List PromotedManifestMeta
  pub promoted_nodes : List PromotedManifestNode
  pub environment_versions : List EnvironmentVersion
  pub project_drafts : List ProjectDraft
  pub environment_drafts : List EnvironmentDraft
