-- ===== src/Planning.antt =====
-- src/services/planning.rs: `plan_code_change_selected_resources`, which selects the resources of a
-- manifest that a code change makes necessary to run. The parts of the function, and the proofs,
-- are in the modules below; the records are those of src/db/records.rs.
pub mod Closure
pub mod Ancestor
pub mod Select
pub mod Reach
pub mod Candidates
pub mod MemoTable
pub mod Chosen
pub mod Selected
mod Examples
use dbtx.Prelude.{ℕ, String, Option}

pub record PlanningManifestNode : Type 0 where
  pub unique_id : String
  pub resource_type : Option String
  pub checksum : Option String

pub record CurrentNodeState : Type 0 where
  pub unique_id : String
  pub checksum : Option String
  pub last_success_at : Option ℕ
