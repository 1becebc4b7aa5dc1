-- ===== src/Invocation/Health.antt =====
-- The read models of invocations: `invocation_status_from_row`, `compute_worker_health`,
-- `compute_cancel_state` and `compute_worker_registry_health` of src/db/mod.rs,
-- `InvocationDisplayStatus::from_invocation` of src/invocation_read_model.rs, and the two list
-- queries of src/db/invocations.rs.
use dbtx.Prelude.{
  ℕ, ◌+◌, String, Bool, true, false, ◌&&◌, ◌||◌, not, Option, none, some, List, ◌==◌, nat_eq,
  string_eq, option_eq, ltb, leb, if◌then◌else◌, is_none, is_some, none_or, unwrap_or, contains,
  map, sort_by, take, drop, length, where_rows,
}
use dbtx.Status.LifecycleStatus.{LifecycleStatus, running, succeeded, failed, canceled}
use dbtx.Status.LifecycleStatus
use dbtx.Status.ExecutionMode
use dbtx.Status.ExecutionMode.{ExecutionMode}
use dbtx.Status.DisplayStatus.{DisplayStatus, queued, cancelling}
use dbtx.Invocation.{Invocation, Worker, ℤ, is_running, is_canceled}
use dbtx.Invocation.Deadline.{heartbeat_stale_timeout}

pub data WorkerHealth : Type 0 where
  unclaimed claimed idle stale completed : WorkerHealth

pub data CancelState : Type 0 where
  no_cancel requested cancel_completed : CancelState

-- `now - then > stale_after`, with no subtraction.
abbrev pub is_older : ℕ → ℕ → ℕ → Bool
is_older now stale_after instant = ltb (instant + stale_after) now

abbrev pub claimed_health : ℕ → ℕ → Option ℕ → Option ℕ → WorkerHealth
claimed_health now stale_after claimed_at (some beat) =
    if is_older now stale_after beat then stale else claimed
claimed_health now stale_after (some at) none =
    if is_older now stale_after at then stale else claimed
claimed_health now stale_after none none = claimed

unfoldable pub compute_worker_health : ℕ → Invocation → WorkerHealth
unfolding heartbeat_stale_timeout
compute_worker_health now r =
    if not (is_running r.status)
    then completed
    else if is_none r.claimed_by
    then unclaimed
    else claimed_health now (heartbeat_stale_timeout r.execution_mode) r.claimed_at
        r.last_heartbeat_at

-- Of a registered worker, by its invocations in progress and its last sign of life.
unfoldable pub compute_worker_registry_health : ℕ → Worker → ℕ → ℕ → WorkerHealth
unfolding heartbeat_stale_timeout
compute_worker_registry_health now w claimed_count last_seen =
    let old = is_older now (heartbeat_stale_timeout w.execution_mode) last_seen in
    if ltb 0 claimed_count then (if old then stale else claimed) else if old then stale else idle

unfoldable pub compute_cancel_state : Invocation → CancelState
compute_cancel_state r =
    if is_canceled r.status
    then cancel_completed
    else if r.cancel_requested
    then requested
    else no_cancel

pub record StatusResponse : Type 0 where
  pub invocation_id : ℕ
  pub execution_mode : ExecutionMode
  pub worker_queue : String
  pub worker_health : WorkerHealth
  pub cancel_state : CancelState
  pub status : LifecycleStatus
  pub exit_code : Option ℤ
  pub error : Option String
  pub started_at : ℕ
  pub claimed_at : Option ℕ
  pub last_heartbeat_at : Option ℕ
  pub cancel_requested_at : Option ℕ
  pub completed_at : Option ℕ
  pub cancel_requested : Bool
  pub claimed_by : Option String

unfoldable pub invocation_status_from_row : ℕ → Invocation → StatusResponse
unfolding compute_worker_health compute_cancel_state
invocation_status_from_row now r = record {
  invocation_id = r.invocation_id;
  execution_mode = r.execution_mode;
  worker_queue = r.worker_queue;
  worker_health = compute_worker_health now r;
  cancel_state = compute_cancel_state r;
  status = r.status;
  exit_code = r.exit_code;
  error = r.error;
  started_at = r.started_at;
  claimed_at = r.claimed_at;
  last_heartbeat_at = r.last_heartbeat_at;
  cancel_requested_at = r.cancel_requested_at;
  completed_at = r.completed_at;
  cancel_requested = r.cancel_requested;
  claimed_by = r.claimed_by;
}

abbrev pub is_no_cancel : CancelState → Bool
is_no_cancel no_cancel = true
is_no_cancel _ = false

abbrev pub display_of : LifecycleStatus → Bool → Bool → DisplayStatus
display_of running queued' cancelling' =
    if queued' then queued else if cancelling' then cancelling else DisplayStatus.running
display_of succeeded queued' cancelling' = DisplayStatus.succeeded
display_of failed queued' cancelling' = DisplayStatus.failed
display_of canceled queued' cancelling' = DisplayStatus.canceled

unfoldable pub from_invocation : StatusResponse → DisplayStatus
from_invocation s = display_of s.status (is_none s.claimed_by) (not (is_no_cancel s.cancel_state))

pub record ListFilters : Type 0 where
  pub display_statuses : List String
  pub execution_modes : List String
  pub worker_queues : List String
  pub claimed_bys : List String

abbrev pub has_status : String → Invocation → Bool
has_status s r = LifecycleStatus.to_db r.status == s

-- The six alternatives of the `WHERE`, on the stored texts.
unfoldable pub matches_display : List String → Invocation → Bool
matches_display wanted r =
    length wanted == 0
    || contains "queued" wanted && (has_status "running" r && is_none r.claimed_by)
    || contains "running" wanted
      && (has_status "running" r && is_some r.claimed_by && not r.cancel_requested)
    || contains "cancelling" wanted
      && (has_status "running" r && is_some r.claimed_by && r.cancel_requested)
    || contains "succeeded" wanted && has_status "succeeded" r
    || contains "failed" wanted && has_status "failed" r
    || contains "canceled" wanted && has_status "canceled" r

-- `cardinality($n) = 0 OR column = ANY($n)`.
abbrev pub any_of : List String → String → Bool
any_of wanted value = length wanted == 0 || contains value wanted

abbrev pub any_of_option : List String → Option String → Bool
any_of_option wanted none = length wanted == 0
any_of_option wanted (some value) = any_of wanted value

unfoldable pub matches_filters : ListFilters → Invocation → Bool
unfolding matches_display
matches_filters f r =
    matches_display f.display_statuses r
    && any_of f.execution_modes (ExecutionMode.to_db r.execution_mode)
    && any_of f.worker_queues r.worker_queue
    && any_of_option f.claimed_bys r.claimed_by

-- `ORDER BY started_at DESC, invocation_id DESC`.
abbrev pub newer_first : Invocation → Invocation → Bool
newer_first a b =
    ltb b.started_at a.started_at
    || (b.started_at == a.started_at && leb b.invocation_id a.invocation_id)

unfoldable pub list_invocations_filtered :
    ℕ → ListFilters → ℕ → ℕ → List Invocation → List StatusResponse
unfolding matches_filters sort_by invocation_status_from_row
list_invocations_filtered now f limit offset rows =
    map (invocation_status_from_row now)
      (take limit (drop offset (sort_by newer_first (where_rows (matches_filters f) rows))))

unfoldable pub count_invocations_filtered : ListFilters → List Invocation → ℕ
unfolding matches_filters
count_invocations_filtered f rows = length (where_rows (matches_filters f) rows)

pub record ListRequest : Type 0 where
  pub status : Option LifecycleStatus
  pub execution_mode : Option ExecutionMode
  pub worker_queue : Option String
  pub claimed_by : Option String
  pub cancel_state : Option CancelState
  pub limit : Option ℕ

-- The three alternatives of the cancel-state filter of `list_invocations`.
unfoldable pub matches_cancel_state : CancelState → Invocation → Bool
matches_cancel_state no_cancel r = not (is_canceled r.status) && not r.cancel_requested
matches_cancel_state requested r = is_running r.status && r.cancel_requested
matches_cancel_state cancel_completed r = is_canceled r.status

unfoldable pub matches_request : ListRequest → Invocation → Bool
unfolding matches_cancel_state
matches_request q r =
    none_or (λ s. has_status (LifecycleStatus.to_db s) r) q.status
    && none_or (λ m. ExecutionMode.mode_beq r.execution_mode m) q.execution_mode
    && none_or (λ w. r.worker_queue == w) q.worker_queue
    && none_or (λ w. r.claimed_by == some w) q.claimed_by
    && none_or (λ c. matches_cancel_state c r) q.cancel_state

unfoldable pub list_invocations : ℕ → ListRequest → List Invocation → List StatusResponse
unfolding matches_request sort_by invocation_status_from_row
list_invocations now q rows =
    map (invocation_status_from_row now)
      (take (unwrap_or q.limit 100) (sort_by newer_first (where_rows (matches_request q) rows)))
