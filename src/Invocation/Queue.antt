-- ===== src/Invocation/Queue.antt =====
-- src/db/invocations.rs: `create_invocation` and `claim_next_invocation`.
use dbtx.Prelude.{
  ℕ, String, Bool, false, ◌&&◌, ◌||◌, not, Option, none, some, List, [], ◌∷◌, ◌++◌, ◌==◌, nat_eq,
  string_eq, ltb, leb, if◌then◌else◌, is_some, is_none, none_or, contains, any, where_rows,
  update_rows,
}
use dbtx.Error.{AppResult, ok, err, sqlx}
use dbtx.Status.LifecycleStatus.{running}
use dbtx.Status.ExecutionMode.{ExecutionMode, mode_beq}
use dbtx.Invocation.{Db, Invocation, ExecutionSpec, is_running}
use dbtx.Invocation.Workers.{sync_worker_registrations}

-- What `create_invocation` binds: the columns that are not listed take their defaults.
pub record CreateInvocationInput : Type 0 where
  pub invocation_id : ℕ
  pub plan_id : Option ℕ
  pub run_id : Option ℕ
  pub project_id : Option ℕ
  pub environment_id : Option ℕ
  pub project_draft_id : Option ℕ
  pub environment_draft_id : Option ℕ
  pub command : String
  pub execution_mode : ExecutionMode
  pub worker_queue : String
  pub execution_spec : Option ExecutionSpec
  pub promote_base_manifest : Bool
  pub updates_actual_state : Bool
  pub claim_deadline_at : Option ℕ
  pub watermark_manifest_run_id : Option ℕ

abbrev pub new_row : ℕ → CreateInvocationInput → Invocation
new_row now input = record {
  invocation_id = input.invocation_id;
  plan_id = input.plan_id;
  run_id = input.run_id;
  project_id = input.project_id;
  environment_id = input.environment_id;
  project_draft_id = input.project_draft_id;
  environment_draft_id = input.environment_draft_id;
  command = input.command;
  execution_mode = input.execution_mode;
  worker_queue = input.worker_queue;
  status = running;
  exit_code = none;
  error = none;
  execution_spec = input.execution_spec;
  promote_base_manifest = input.promote_base_manifest;
  updates_actual_state = input.updates_actual_state;
  started_at = now;
  claim_deadline_at = input.claim_deadline_at;
  claimed_at = none;
  last_heartbeat_at = none;
  cancel_requested = false;
  cancel_requested_at = none;
  completed_at = none;
  claimed_by = none;
  lease_token = none;
  next_event_sequence = 0;
  watermark_manifest_run_id = input.watermark_manifest_run_id;
}

abbrev pub has_id : ℕ → Invocation → Bool
has_id i r = r.invocation_id == i

-- `invocation_id` is unique: a second row with the id is refused.
unfoldable pub create_invocation : ℕ → CreateInvocationInput → Db → AppResult Db
create_invocation now input db =
    if any (has_id input.invocation_id) db.invocations
    then err sqlx
    else ok (record db { invocations = db.invocations ++ new_row now input ∷ [] })

-- The `WHERE` of `next_invocation`.
unfoldable pub is_claimable : ℕ → Option ExecutionMode → List String → Invocation → Bool
is_claimable now mode queues r =
    is_running r.status
    && is_some r.execution_spec
    && none_or (λ m. mode_beq r.execution_mode m) mode
    && contains r.worker_queue queues
    && none_or (λ deadline. leb now deadline) r.claim_deadline_at
    && is_none r.claimed_by

-- `ORDER BY started_at ASC, invocation_id ASC`.
abbrev pub comes_before : Invocation → Invocation → Bool
comes_before a b =
    ltb a.started_at b.started_at
    || (a.started_at == b.started_at && leb a.invocation_id b.invocation_id)

abbrev pub sooner : Invocation → Option Invocation → Invocation
sooner x none = x
sooner x (some y) = if comes_before x y then x else y

-- `LIMIT 1` under that order.
unfoldable pub earliest : List Invocation → Option Invocation
earliest [] = none
earliest (x ∷ rest) = some (sooner x (earliest rest))

-- `FOR UPDATE SKIP LOCKED` passes over the rows that another transaction holds.
abbrev pub is_candidate : ℕ → List ℕ → Option ExecutionMode → List String → Invocation → Bool
is_candidate now locked mode queues r =
    is_claimable now mode queues r && not (contains r.invocation_id locked)

abbrev pub candidates :
    ℕ → List ℕ → Option ExecutionMode → List String → List Invocation → List Invocation
candidates now locked mode queues = where_rows (is_candidate now locked mode queues)

-- The `SET` of the claim.
abbrev pub claimed : ℕ → ℕ → String → Invocation → Invocation
claimed now token worker_id r = record r {
  claimed_by = some worker_id;
  lease_token = some token;
  claimed_at = some now;
  last_heartbeat_at = some now;
}

pub record ClaimResponse : Type 0 where
  pub invocation_id : ℕ
  pub worker_id : String
  pub lease_token : ℕ
  pub execution_mode : ExecutionMode
  pub execution_spec : Option ExecutionSpec

abbrev pub response : ℕ → String → Invocation → ClaimResponse
response token worker_id r = record {
  invocation_id = r.invocation_id;
  worker_id = worker_id;
  lease_token = token;
  execution_mode = r.execution_mode;
  execution_spec = r.execution_spec;
}

abbrev pub registered : ℕ → String → Option ExecutionMode → List String → Db → Db
registered now worker_id none queues db = db
registered now worker_id (some mode) queues db = record db {
  workers = sync_worker_registrations now worker_id mode queues db.workers;
}

abbrev pub take_row : ℕ → ℕ → String → Option Invocation → Db → Option ClaimResponse × Db
take_row now token worker_id none db = (none, db)
take_row now token worker_id (some r) db = (
  some (response token worker_id r),
  record db {
    invocations = update_rows (has_id r.invocation_id) (claimed now token worker_id) db.invocations;
  },
)

-- `token` is the fresh lease token, and `locked` the ids of the rows that others hold.
unfoldable pub claim_next_invocation :
    ℕ → ℕ → List ℕ → String → Option ExecutionMode → List String → Db → Option ClaimResponse × Db
unfolding is_claimable earliest
claim_next_invocation now token locked worker_id mode queues db =
    take_row now token worker_id (earliest (candidates now locked mode queues db.invocations))
      (registered now worker_id mode queues db)
