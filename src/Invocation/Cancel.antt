-- ===== src/Invocation/Cancel.antt =====
-- src/db/invocations.rs: `request_cancel_invocation`.
use dbtx.Prelude.{
  ℕ, String, Bool, true, ◌&&◌, Option, none, some, if◌then◌else◌, is_none, coalesce, find,
  update_rows,
}
use dbtx.Error.{AppResult, ok, err, invocation_not_found}
use dbtx.Status.LifecycleStatus.{LifecycleStatus, canceled}
use dbtx.Invocation.{Db, Invocation, ℤ, pos, is_running, is_canceled}
use dbtx.Invocation.Queue.{has_id}

-- `status = 'running' AND claimed_by IS NULL`, the test of four of the `CASE`s.
abbrev pub is_queued : Invocation → Bool
is_queued r = is_running r.status && is_none r.claimed_by

-- Every `CASE` reads the row as it was.
unfoldable pub cancel_row : ℕ → Invocation → Invocation
cancel_row now r = record r {
  cancel_requested = if is_running r.status then true else r.cancel_requested;
  cancel_requested_at =
      if is_running r.status
      then coalesce r.cancel_requested_at (some now)
      else r.cancel_requested_at;
  status = if is_queued r then canceled else r.status;
  exit_code = if is_queued r then some (pos 130) else r.exit_code;
  error = if is_queued r then some "invocation canceled" else r.error;
  completed_at = if is_queued r then some now else r.completed_at;
}

-- The source reads `exit_code` and `error` as values that are not null.
pub record CancellationRecord : Type 0 where
  pub invocation_id : ℕ
  pub status : LifecycleStatus
  pub exit_code : Option ℤ
  pub error : Option String

abbrev pub cancellation : ℕ → Invocation → Option CancellationRecord
cancellation i r =
    if is_canceled r.status && is_none r.claimed_by
    then some
        (record { invocation_id = i; status = canceled; exit_code = r.exit_code; error = r.error })
    else none

abbrev pub cancel_found :
    ℕ → ℕ → Option Invocation → Db → AppResult (Option CancellationRecord) × Db
cancel_found now i none db = (err (invocation_not_found i), db)
cancel_found now i (some r) db = (
  ok (cancellation i (cancel_row now r)),
  record db { invocations = update_rows (has_id i) (cancel_row now) db.invocations },
)

unfoldable pub request_cancel_invocation : ℕ → ℕ → Db → AppResult (Option CancellationRecord) × Db
unfolding cancel_row
request_cancel_invocation now i db = cancel_found now i (find (has_id i) db.invocations) db
