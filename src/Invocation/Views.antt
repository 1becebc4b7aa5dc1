-- ===== src/Invocation/Views.antt =====
-- The SQL filters against the statuses that the API computes, and the health that the API shows
-- against the rows that the sweep fails.
use dbtx.Prelude.{
  ℕ, String, Bool, true, false, ◌≡◌, refl, ◌↔◌, ◌||◌, List, ◌==◌, nat_eq, string_eq, arith,
  contains, length,
}
use dbtx.Status.LifecycleStatus.{LifecycleStatus, to_db, running, succeeded, failed, canceled}
use dbtx.Status.ExecutionMode.{server, local}
use dbtx.Status.DisplayStatus
use dbtx.Status.DisplayStatus.{DisplayStatus}
use dbtx.Invocation.{Invocation, is_running}
use dbtx.Invocation.Deadline.{heartbeat_stale_timeout, missed_heartbeat}
use dbtx.Invocation.Row.{IsConsistent}
use dbtx.Invocation.Health.{
  CancelState, requested, compute_cancel_state, compute_worker_health, stale,
  invocation_status_from_row, from_invocation, matches_display, matches_cancel_state,
}

abbrev pub shown : ℕ → Invocation → DisplayStatus
shown now r = from_invocation (invocation_status_from_row now r)

-- The comparison of two stored texts, as a test on the status.
abbrev text_is : LifecycleStatus → LifecycleStatus → Bool
text_is running running = true
text_is succeeded succeeded = true
text_is failed failed = true
text_is canceled canceled = true
text_is _ _ = false

text_is_lem : (a b : LifecycleStatus) → (to_db a == to_db b) ≡ text_is a b
text_is_lem running running = refl
text_is_lem running succeeded = refl
text_is_lem running failed = refl
text_is_lem running canceled = refl
text_is_lem succeeded running = refl
text_is_lem succeeded succeeded = refl
text_is_lem succeeded failed = refl
text_is_lem succeeded canceled = refl
text_is_lem failed running = refl
text_is_lem failed succeeded = refl
text_is_lem failed failed = refl
text_is_lem failed canceled = refl
text_is_lem canceled running = refl
text_is_lem canceled succeeded = refl
text_is_lem canceled failed = refl
text_is_lem canceled canceled = refl

-- The list query keeps a row for a list of display statuses exactly when the list is empty or
-- holds the display status that the API computes for that row.
pub display_filter :
    (now : ℕ) (wanted : List String) (r : Invocation)
    → matches_display wanted r
      ≡ (length wanted == 0 || contains (DisplayStatus.as_str (shown now r)) wanted)
unfolding matches_display from_invocation invocation_status_from_row
display_filter now wanted r = ground (
  arith,
  text_is_lem r.status running,
  text_is_lem r.status succeeded,
  text_is_lem r.status failed,
  text_is_lem r.status canceled,
)

-- The cancel-state filter of the list query agrees with the computed cancel state on every row but
-- those that have succeeded or failed after a cancel was requested: the API shows them as
-- requested, and no filter value finds them.
pub cancel_filter :
    (r : Invocation) (c : CancelState)
    → (matches_cancel_state c r ≡ true)
      ↔ ((compute_cancel_state r ≡ c) × ((c ≡ requested → is_running r.status ≡ true)))
unfolding matches_cancel_state compute_cancel_state
cancel_filter r c = ground arith

-- Of a consistent row, the API reports a stale worker exactly when the sweep, with the timeouts of
-- `heartbeat_stale_timeout` and at the same instant, fails the row for its heartbeat.
pub stale-iff-missed_heartbeat :
    (now : ℕ) (r : Invocation)
    → IsConsistent r
    → (compute_worker_health now r ≡ stale) ↔ (
        missed_heartbeat (heartbeat_stale_timeout local) (heartbeat_stale_timeout server) now r
        ≡ true)
unfolding compute_worker_health
stale-iff-missed_heartbeat now r c = ground arith
