-- ===== src/Invocation.antt =====
-- The invocation tables and the rows in them: migrations/0001_init.sql, src/api.rs and
-- src/db/records.rs. The operations of src/db/invocations.rs and their proofs are in the modules
-- below. An id (`Uuid`, `i64`) is its number, a `DateTime<Utc>` its count of microseconds, and a
-- JSON document its text. `NOW()` is an argument: it is one instant for a whole transaction.
pub mod Queue
pub mod Lease
pub mod Deadline
pub mod Cancel
pub mod Workers
pub mod Events
pub mod Health
pub mod Ops
mod Row
pub mod Claiming
pub mod Claimed
mod Stable
mod Runs
pub mod History
pub mod Fencing
pub mod Sweeping
pub mod Registry
pub mod Stream
pub mod Views
pub mod Examples
mod LeaseExamples
use dbtx.Prelude.{ℕ, String, Bool, true, false, Option, List}
use dbtx.Status.LifecycleStatus.{LifecycleStatus, running, succeeded, failed, canceled}
use dbtx.Status.ExecutionMode.{ExecutionMode}
use dbtx.Status.Command.{InvocationCommand}

-- An `i32` exit code: `negsuc n` is -(n + 1).
pub data ℤ : Type 0 where
  pos : ℕ → ℤ
  negsuc : ℕ → ℤ

pub data ExecutionSpec : Type 0 where
  local : InvocationCommand → List String → Option String → ExecutionSpec
  remote :
      InvocationCommand
      → List String
      → String
      → String
      → String
      → String
      → Option String
      → ExecutionSpec
  release_validation : String → Option String → Option String → Option String → ExecutionSpec
  project_validation : String → String → ExecutionSpec
  environment_prepare : String → Option String → ExecutionSpec
  environment_validate : String → String → String → Option String → String → ExecutionSpec

-- A row of `invocations`.
pub record Invocation : Type 0 where
  pub invocation_id : ℕ
  pub plan_id : Option ℕ
  pub run_id : Option ℕ
  pub project_id : Option ℕ
  pub environment_id : Option ℕ
  pub project_draft_id : Option ℕ
  pub environment_draft_id : Option ℕ
  pub command : String
  pub execution_mode : ExecutionMode
  pub worker_queue : String
  pub status : LifecycleStatus
  pub exit_code : Option ℤ
  pub error : Option String
  pub execution_spec : Option ExecutionSpec
  pub promote_base_manifest : Bool
  pub updates_actual_state : Bool
  pub started_at : ℕ
  pub claim_deadline_at : Option ℕ
  pub claimed_at : Option ℕ
  pub last_heartbeat_at : Option ℕ
  pub cancel_requested : Bool
  pub cancel_requested_at : Option ℕ
  pub completed_at : Option ℕ
  pub claimed_by : Option String
  pub lease_token : Option ℕ
  pub next_event_sequence : ℕ
  pub watermark_manifest_run_id : Option ℕ

-- A row of `workers`.
pub record Worker : Type 0 where
  pub worker_id : String
  pub execution_mode : ExecutionMode
  pub worker_queue : String
  pub first_seen_at : ℕ
  pub last_seen_at : ℕ

pub record InvocationEvent : Type 0 where
  pub event_type : String
  pub timestamp : ℕ
  pub text : Option String
  pub stream : Option String
  pub dbt_event_name : Option String
  pub node_unique_id : Option String
  pub level : Option String
  pub exit_code : Option ℤ
  pub error : Option String

-- A row of `invocation_events`.
pub record EventRow : Type 0 where
  pub invocation_id : ℕ
  pub sequence_no : ℕ
  pub event : InvocationEvent

pub record Db : Type 0 where
  pub invocations : List Invocation
  pub workers : List Worker
  pub invocation_events : List EventRow

abbrev pub is_running : LifecycleStatus → Bool
is_running running = true
is_running _ = false

-- `status IN ('succeeded', 'failed', 'canceled')`.
abbrev pub is_terminal : LifecycleStatus → Bool
is_terminal succeeded = true
is_terminal failed = true
is_terminal canceled = true
is_terminal running = false

abbrev pub is_canceled : LifecycleStatus → Bool
is_canceled canceled = true
is_canceled _ = false
