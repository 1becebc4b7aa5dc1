-- ===== src/Source.antt =====
-- The tables of source state events and watermarks: src/db/records.rs,
-- migrations/0004_reconciliation_plans.sql, 0007_source_state_satisfaction.sql and
-- 0013_node_source_watermarks.sql, with the columns of the manifest tables that are read. The
-- queries of src/db/reconciliation.rs and src/db/watermarks.rs, and their proofs, are in the modules
-- below.
pub mod Events
pub mod Downstream
pub mod Stale
pub mod Closing
mod Reached
pub mod Staleness
mod Statuses
pub mod Advance
pub mod Examples
use dbtx.Prelude.{ℕ, String, Option, List}

-- A row of `source_state_events`.
pub record SourceStateEvent : Type 0 where
  pub id : ℕ
  pub project_id : ℕ
  pub environment_id : Option ℕ
  pub source_key : String
  pub provider : String
  pub state_version : Option String
  pub payload : String
  pub observed_at : ℕ
  pub created_at : ℕ

-- A row of `environment_source_state_status`.
pub record SourceStateStatus : Type 0 where
  pub project_id : ℕ
  pub environment_id : ℕ
  pub source_key : String
  pub latest_satisfied_event_id : ℕ
  pub latest_satisfied_state_version : Option String
  pub latest_satisfied_observed_at : ℕ
  pub last_satisfied_run_id : Option ℕ
  pub last_satisfied_plan_id : Option ℕ
  pub updated_at : ℕ

-- Rows of `manifest_nodes` and `manifest_edges`.
pub record ManifestNode : Type 0 where
  pub run_id : ℕ
  pub unique_id : String
  pub resource_type : Option String
  pub name : Option String
  pub original_file_path : Option String
  pub checksum : Option String
  pub database_name : Option String
  pub schema_name : Option String
  pub alias : Option String
  pub relation_name : Option String

pub record ManifestEdge : Type 0 where
  pub run_id : ℕ
  pub parent_unique_id : String
  pub child_unique_id : String

-- Rows of `node_ancestor_sources` and `node_source_watermarks`.
pub record NodeAncestorSource : Type 0 where
  pub run_id : ℕ
  pub unique_id : String
  pub source_key : String

pub record NodeSourceWatermark : Type 0 where
  pub project_id : ℕ
  pub environment_id : ℕ
  pub unique_id : String
  pub source_key : String
  pub watermark_event_id : ℕ
  pub watermark_observed_at : Option ℕ
  pub run_id : ℕ
  pub updated_at : ℕ

pub record SourceDb : Type 0 where
  pub events : List SourceStateEvent
  pub statuses : List SourceStateStatus
  pub manifest_nodes : List ManifestNode
  pub manifest_edges : List ManifestEdge
  pub ancestor_sources : List NodeAncestorSource
  pub watermarks : List NodeSourceWatermark
