-- ===== src/Invocation/Lease.antt =====
-- src/db/invocations.rs: what a worker does with its lease, `heartbeat_invocation` and the look-ups
-- of `get_invocation_persistence` and `get_invocation_persistence_for_completion_in_tx`.
use dbtx.Prelude.{
  ℕ, String, Bool, ◌&&◌, Option, none, some, List, ◌==◌, nat_eq, string_eq, option_eq,
  if◌then◌else◌, none_or, any, find, update_rows,
}
use dbtx.Error.{AppResult, ok, err, invocation_not_found, invocation_ownership_mismatch}
use dbtx.Invocation.{Db, Invocation, is_running}
use dbtx.Invocation.Queue.{has_id}
use dbtx.Invocation.Workers.{upsert_worker_registration}

-- `invocation_id = $1 AND claimed_by = $2 AND lease_token = $3 AND status = 'running'`.
abbrev pub is_held : ℕ → String → ℕ → Invocation → Bool
is_held i worker_id token r =
    has_id i r
    && r.claimed_by == some worker_id
    && r.lease_token == some token
    && is_running r.status

abbrev pub beaten : ℕ → Invocation → Invocation
beaten now r = record r { last_heartbeat_at = some now }

abbrev pub heartbeat_found : ℕ → ℕ → String → ℕ → Option Invocation → Db → AppResult Bool × Db
heartbeat_found now i worker_id token none db = (err invocation_ownership_mismatch, db)
heartbeat_found now i worker_id token (some r) db = (
  ok r.cancel_requested,
  record db {
    invocations = update_rows (is_held i worker_id token) (beaten now) db.invocations;
    workers = upsert_worker_registration now worker_id r.execution_mode r.worker_queue db.workers;
  },
)

-- Returns whether a cancel is asked for.
unfoldable pub heartbeat_invocation : ℕ → ℕ → String → ℕ → Db → AppResult Bool × Db
heartbeat_invocation now i worker_id token db =
    heartbeat_found now i worker_id token (find (is_held i worker_id token) db.invocations) db

pub record PersistenceRecord : Type 0 where
  pub plan_id : Option ℕ
  pub run_id : Option ℕ
  pub project_id : Option ℕ
  pub environment_id : Option ℕ
  pub project_draft_id : Option ℕ
  pub environment_draft_id : Option ℕ
  pub command : String
  pub promote_base_manifest : Bool
  pub updates_actual_state : Bool

abbrev pub persistence_of : Invocation → PersistenceRecord
persistence_of r = record {
  plan_id = r.plan_id;
  run_id = r.run_id;
  project_id = r.project_id;
  environment_id = r.environment_id;
  project_draft_id = r.project_draft_id;
  environment_draft_id = r.environment_draft_id;
  command = r.command;
  promote_base_manifest = r.promote_base_manifest;
  updates_actual_state = r.updates_actual_state;
}

-- A worker or a token that is not given is not compared.
abbrev pub is_visible : ℕ → Option String → Option ℕ → Invocation → Bool
is_visible i worker_id token r =
    has_id i r
    && none_or (λ w. r.claimed_by == some w) worker_id
    && none_or (λ t. r.lease_token == some t) token

abbrev pub persistence_found : ℕ → Option Invocation → AppResult PersistenceRecord
persistence_found i none = err (invocation_not_found i)
persistence_found i (some r) = ok (persistence_of r)

unfoldable pub get_invocation_persistence :
    ℕ → Option String → Option ℕ → List Invocation → AppResult PersistenceRecord
get_invocation_persistence i worker_id token rows =
    persistence_found i (find (is_visible i worker_id token) rows)

-- Without a row that is held, a second query tells the two errors apart.
abbrev pub completion_found : ℕ → Bool → Option Invocation → AppResult PersistenceRecord
completion_found i exists none =
    if exists then err invocation_ownership_mismatch else err (invocation_not_found i)
completion_found i exists (some r) = ok (persistence_of r)

unfoldable pub get_invocation_persistence_for_completion :
    ℕ → String → ℕ → List Invocation → AppResult PersistenceRecord
get_invocation_persistence_for_completion i worker_id token rows =
    completion_found i (any (has_id i) rows) (find (is_held i worker_id token) rows)
