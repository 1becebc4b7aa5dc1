-- ===== src/Invocation/Workers.antt =====
-- src/db/invocations.rs: `upsert_worker_registration` and `sync_worker_registrations`.
use dbtx.Prelude.{
  ℕ, String, Bool, ◌&&◌, ◌||◌, not, List, [], ◌∷◌, ◌++◌, ◌==◌, string_eq, if◌then◌else◌, contains,
  any, update_rows, delete_rows,
}
use dbtx.Status.ExecutionMode.{ExecutionMode, mode_beq}
use dbtx.Invocation.{Worker}

-- The key `(worker_id, worker_queue)`.
abbrev pub is_registration : String → String → Worker → Bool
is_registration worker_id queue w = w.worker_id == worker_id && w.worker_queue == queue

abbrev pub seen : ℕ → ExecutionMode → Worker → Worker
seen now mode w = record w { execution_mode = mode; last_seen_at = now }

abbrev pub registration : ℕ → String → ExecutionMode → String → Worker
registration now worker_id mode queue = record {
  worker_id = worker_id;
  execution_mode = mode;
  worker_queue = queue;
  first_seen_at = now;
  last_seen_at = now;
}

-- `INSERT … ON CONFLICT (worker_id, worker_queue) DO UPDATE`.
unfoldable pub upsert_worker_registration :
    ℕ → String → ExecutionMode → String → List Worker → List Worker
upsert_worker_registration now worker_id mode queue ws =
    if any (is_registration worker_id queue) ws
    then update_rows (is_registration worker_id queue) (seen now mode) ws
    else ws ++ registration now worker_id mode queue ∷ []

-- The `DELETE` that comes first.
abbrev pub is_outdated : String → ExecutionMode → List String → Worker → Bool
is_outdated worker_id mode queues w =
    w.worker_id == worker_id
    && (not (mode_beq w.execution_mode mode) || not (contains w.worker_queue queues))

unfoldable pub upsert_each : ℕ → String → ExecutionMode → List String → List Worker → List Worker
upsert_each now worker_id mode [] ws = ws
upsert_each now worker_id mode (q ∷ queues) ws =
    upsert_each now worker_id mode queues (upsert_worker_registration now worker_id mode q ws)

unfoldable pub sync_worker_registrations :
    ℕ → String → ExecutionMode → List String → List Worker → List Worker
unfolding upsert_each
sync_worker_registrations now worker_id mode queues ws =
    upsert_each now worker_id mode queues (delete_rows (is_outdated worker_id mode queues) ws)
