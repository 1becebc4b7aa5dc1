-- ===== src/Watermark.antt =====
-- How the nodes of a run get their watermarks: src/db/watermarks.rs and `handle_node_watermark` of
-- src/db/runs.rs, over the tables of Source and the two of
-- migrations/0013_node_source_watermarks.sql that are only used here. A commit's advisory locks order it
-- with other commits of the same key: it is one function here.
pub mod Candidates
pub mod Commit
pub mod Handle
pub mod Raised
pub mod Least
pub mod Finished
mod Examples
use dbtx.Prelude.{ℕ, String, Option, List}
use dbtx.Source.{SourceDb}

pub record WatermarkCandidate : Type 0 where
  pub source_key : String
  pub watermark_event_id : ℕ
  pub watermark_observed_at : Option ℕ

-- Rows of `node_source_watermark_candidates` and `node_source_watermark_log`.
pub record CandidateRow : Type 0 where
  pub run_id : ℕ
  pub unique_id : String
  pub source_key : String
  pub watermark_event_id : ℕ
  pub watermark_observed_at : Option ℕ
  pub created_at : ℕ

pub record WatermarkLogRow : Type 0 where
  pub project_id : ℕ
  pub environment_id : ℕ
  pub unique_id : String
  pub source_key : String
  pub watermark_event_id : ℕ
  pub previous_event_id : Option ℕ
  pub run_id : ℕ
  pub invocation_id : Option ℕ
  pub recorded_at : ℕ

pub record WatermarkDb : Type 0 where
  pub source : SourceDb
  pub candidates : List CandidateRow
  pub log : List WatermarkLogRow

-- What `NormalizedNodeEvent` of src/event.rs says of a node's progress.
pub record NodeEvent : Type 0 where
  pub unique_id : String
  pub resource_type : Option String
  pub started_at : Option ℕ
  pub finished_at : Option ℕ
