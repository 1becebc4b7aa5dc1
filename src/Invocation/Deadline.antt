-- ===== src/Invocation/Deadline.antt =====
-- src/db/invocations.rs: `reconcile_timed_out_invocations` and
-- `cleanup_terminal_invocations_older_than`; the timeouts of src/execution.rs.
use dbtx.Prelude.{
  ℕ, ◌+◌, ◌*◌, String, Bool, ◌&&◌, none, some, List, ◌++◌, ltb, is_some, is_none, some_and,
  unwrap_or, coalesce, map, any, where_rows, update_rows, delete_rows,
}
use dbtx.Status.LifecycleStatus.{LifecycleStatus, failed}
use dbtx.Status.ExecutionMode.{ExecutionMode, server, local}
use dbtx.Invocation.{Db, Invocation, EventRow, ℤ, pos, is_running, is_terminal}
use dbtx.Invocation.Queue.{has_id}

abbrev pub second : ℕ
second = 1_000_000

unfoldable pub claim_startup_timeout : ExecutionMode → ℕ
claim_startup_timeout local = 10 * second
claim_startup_timeout server = 60 * second

unfoldable pub heartbeat_stale_timeout : ExecutionMode → ℕ
heartbeat_stale_timeout local = 15 * second
heartbeat_stale_timeout server = 60 * second

unfoldable pub invocation_claim_deadline_at : ℕ → ExecutionMode → ℕ
unfolding claim_startup_timeout
invocation_claim_deadline_at now mode = now + claim_startup_timeout mode

-- The `WHERE` of the first `UPDATE`.
abbrev pub missed_claim : ℕ → Invocation → Bool
missed_claim now r =
    is_running r.status && is_none r.claimed_by && some_and (λ d. ltb d now) r.claim_deadline_at

abbrev pub last_sign : Invocation → ℕ
last_sign r = unwrap_or (coalesce r.last_heartbeat_at r.claimed_at) r.started_at

abbrev pub timeout_for : ℕ → ℕ → ExecutionMode → ℕ
timeout_for local_timeout server_timeout local = local_timeout
timeout_for local_timeout server_timeout server = server_timeout

-- The `WHERE` of the second. The source subtracts the timeout from the present instant.
abbrev pub missed_heartbeat : ℕ → ℕ → ℕ → Invocation → Bool
missed_heartbeat local_timeout server_timeout now r =
    is_running r.status
    && is_some r.claimed_by
    && ltb (last_sign r + timeout_for local_timeout server_timeout r.execution_mode) now

abbrev pub failed_row : ℕ → String → Invocation → Invocation
failed_row now message r = record r {
  status = failed;
  exit_code = some (pos 1);
  error = some message;
  completed_at = some now;
  lease_token = none;
}

pub record TimedOutRecord : Type 0 where
  pub invocation_id : ℕ
  pub status : LifecycleStatus
  pub exit_code : ℤ
  pub error : String

abbrev pub timed_out : String → Invocation → TimedOutRecord
timed_out message r = record {
  invocation_id = r.invocation_id;
  status = failed;
  exit_code = pos 1;
  error = message;
}

abbrev pub claim_message : String
claim_message = "worker did not claim invocation before startup deadline"

abbrev pub heartbeat_message : String
heartbeat_message = "worker heartbeat timed out"

abbrev pub fail_unclaimed : ℕ → List Invocation → List Invocation
fail_unclaimed now = update_rows (missed_claim now) (failed_row now claim_message)

-- Both statements run in one transaction, the second on the rows that the first left.
unfoldable pub reconcile_timed_out_invocations : ℕ → ℕ → ℕ → Db → List TimedOutRecord × Db
reconcile_timed_out_invocations local_timeout server_timeout now db =
    let stale = missed_heartbeat local_timeout server_timeout now in
    let rows = fail_unclaimed now db.invocations in
    (
      map (timed_out claim_message) (where_rows (missed_claim now) db.invocations)
          ++ map (timed_out heartbeat_message) (where_rows stale rows),
      record db { invocations = update_rows stale (failed_row now heartbeat_message) rows },
    )

abbrev pub is_expired : ℕ → Invocation → Bool
is_expired cutoff r = is_terminal r.status && some_and (λ t. ltb t cutoff) r.completed_at

abbrev pub event_is_orphan : ℕ → List Invocation → EventRow → Bool
event_is_orphan cutoff rows e = any (λ r. has_id e.invocation_id r && is_expired cutoff r) rows

-- The events of a deleted row go with it (`ON DELETE CASCADE`).
unfoldable pub cleanup_terminal_invocations_older_than : ℕ → Db → Db
cleanup_terminal_invocations_older_than cutoff db = record db {
  invocations = delete_rows (is_expired cutoff) db.invocations;
  invocation_events = delete_rows (event_is_orphan cutoff db.invocations) db.invocation_events;
}
