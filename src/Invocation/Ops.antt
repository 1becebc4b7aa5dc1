-- ===== src/Invocation/Ops.antt =====
-- The operations as one alphabet, and a run of them.
use dbtx.Prelude.{ℕ, String, ◌≢◌, Option, List, [], ◌∷◌}
use dbtx.Error.{AppResult, ok, err}
use dbtx.Status.ExecutionMode.{ExecutionMode}
use dbtx.Invocation.{Db, InvocationEvent}
use dbtx.Invocation.Queue.{
  CreateInvocationInput, create_invocation, claim_next_invocation, ClaimResponse,
}
use dbtx.Invocation.Lease.{heartbeat_invocation}
use dbtx.Invocation.Cancel.{request_cancel_invocation}
use dbtx.Invocation.Deadline.{
  reconcile_timed_out_invocations, cleanup_terminal_invocations_older_than,
}
use dbtx.Invocation.Events.{append_invocation_event}

-- A call of the server, with what it is given.
pub data Op : Type 0 where
  create : CreateInvocationInput → Op
  claim_next : ℕ → List ℕ → String → Option ExecutionMode → List String → Op
  heartbeat : ℕ → String → ℕ → Op
  request_cancel : ℕ → Op
  reconcile_timed_out : ℕ → ℕ → Op
  cleanup : ℕ → Op
  append_event : ℕ → InvocationEvent → Op

abbrev pub kept : Db → AppResult Db → Db
kept db (ok db') = db'
kept db (err e) = db

unfoldable pub perform : ℕ → Op → Db → Db
perform now (create input) db = kept db (create_invocation now input db)
perform now (claim_next token locked w mode queues) db =
    (claim_next_invocation now token locked w mode queues db).1
perform now (heartbeat i w token) db = (heartbeat_invocation now i w token db).1
perform now (request_cancel i) db = (request_cancel_invocation now i db).1
perform now (reconcile_timed_out l s) db = (reconcile_timed_out_invocations l s now db).1
perform now (cleanup cutoff) db = cleanup_terminal_invocations_older_than cutoff db
perform now (append_event i event) db = (append_invocation_event i event db).1

-- Calls with their instants, in the order in which their transactions commit.
unfoldable pub run : List (ℕ × Op) → Db → Db
unfolding perform
run [] db = db
run ((now, op) ∷ rest) db = run rest (perform now op db)

-- One poll of a worker.
pub record Poll : Type 0 where
  pub now : ℕ
  pub token : ℕ
  pub locked : List ℕ
  pub worker_id : String
  pub mode : Option ExecutionMode
  pub queues : List String

abbrev pub poll : Poll → Db → Option ClaimResponse × Db
poll p = claim_next_invocation p.now p.token p.locked p.worker_id p.mode p.queues

-- No call of the run creates a row with the id: ids are drawn at random and are not drawn twice.
abbrev pub NeverCreates : ℕ → List (ℕ × Op) → Type 0
NeverCreates i [] = Unit
NeverCreates i ((now, create input) ∷ rest) = (input.invocation_id ≢ i) × NeverCreates i rest
NeverCreates i ((now, _) ∷ rest) = NeverCreates i rest
