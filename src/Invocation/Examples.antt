-- ===== src/Invocation/Examples.antt =====
-- Concrete tables and calls, and the theorems of the invocation modules at them.
use dbtx.Prelude.{
  ℕ, ◌*◌, ◌<◌, ◌≤◌, ◌⊎◌, ◌≡◌, ◌≢◌, ◌↔◌, nat_eq, string_eq, refl, true, none, some, List, [], ◌∷◌,
  All, Elem,
}
use dbtx.Status.ExecutionMode.{local, server}
use dbtx.Status.Command.{build}
use dbtx.Invocation
use dbtx.Invocation.{Invocation, Db, is_running}
use dbtx.Invocation.Queue.{
  CreateInvocationInput, new_row, create_invocation, claimed, response, claim_next_invocation,
}
use dbtx.Invocation.Lease.{heartbeat_invocation}
use dbtx.Invocation.Cancel.{cancel_row, request_cancel_invocation}
use dbtx.Invocation.Deadline.{second, heartbeat_stale_timeout, missed_heartbeat}
use dbtx.Invocation.Health.{
  compute_worker_health, stale, compute_cancel_state, requested, matches_cancel_state,
}
use dbtx.Invocation.Ops.{Op, create, claim_next, heartbeat, request_cancel, run, Poll}
use dbtx.Invocation.Row.{row_at, IsConsistent, Distinct, new_row-IsConsistent, claimed-IsConsistent}
use dbtx.Invocation.Claimed.{IsFree, claim_takes_earliest}
use dbtx.Invocation.History.{run-IsConsistent, terminal_is_final, claimed_once, SameOutcome}
use dbtx.Invocation.Views.{cancel_filter, stale-iff-missed_heartbeat}

-- A local build that must be claimed within ten seconds.
abbrev pub local_input : ℕ → CreateInvocationInput
local_input i = record {
  invocation_id = i;
  plan_id = none;
  run_id = some 70;
  project_id = some 1;
  environment_id = some 2;
  project_draft_id = none;
  environment_draft_id = none;
  command = "build";
  execution_mode = local;
  worker_queue = "default";
  execution_spec = some (Invocation.local build [] none);
  promote_base_manifest = true;
  updates_actual_state = true;
  claim_deadline_at = some (10 * second);
  watermark_manifest_run_id = none;
}

abbrev pub two_rows : Db
two_rows = record {
  invocations = new_row 3 (local_input 5) ∷ new_row 2 (local_input 6) ∷ [];
  workers = [];
  invocation_events = [];
}

abbrev pub first_poll : Poll
first_poll = record {
  now = 5;
  token = 900;
  locked = [];
  worker_id = "w1";
  mode = some local;
  queues = "default" ∷ [];
}

abbrev pub second_poll : Poll
second_poll = record {
  now = 9;
  token = 901;
  locked = [];
  worker_id = "w2";
  mode = none;
  queues = "default" ∷ [];
}

abbrev pub row_5 : Invocation
row_5 = new_row 3 (local_input 5)

abbrev pub row_6 : Invocation
row_6 = new_row 2 (local_input 6)

abbrev pub some_calls : List (ℕ × Op)
some_calls =
    (6, create (local_input 7))
    ∷ (7, heartbeat 6 "w1" 900)
    ∷ (8, request_cancel 6)
    ∷ (9, claim_next 902 [] "w3" none ("default" ∷ []))
    ∷ []

two_rows-IsConsistent : All IsConsistent two_rows.invocations
two_rows-IsConsistent =
    (new_row-IsConsistent 3 (local_input 5), (new_row-IsConsistent 2 (local_input 6), tt))

claim_takes_earliest_example :
    (r : Invocation) × Elem r two_rows.invocations
    × IsFree 5 [] none ("default" ∷ []) r
    × ((a : Invocation)
        → Elem a two_rows.invocations
        → IsFree 5 [] none ("default" ∷ []) a
        → (r.started_at < a.started_at)
          ⊎ ((r.started_at ≡ a.started_at) × (r.invocation_id ≤ a.invocation_id)))
    × (((response 900 "w1" row_6).invocation_id ≡ r.invocation_id)
        × ((response 900 "w1" row_6).worker_id ≡ "w1")
        × ((response 900 "w1" row_6).lease_token ≡ 900)
        × (row_6.execution_mode ≡ r.execution_mode)
        × (row_6.execution_spec ≡ r.execution_spec))
    × (row_at r.invocation_id
          (claim_next_invocation 5 900 [] "w1" none ("default" ∷ []) two_rows).1.invocations
        ≡ some (record r {
          claimed_by = some "w1";
          lease_token = some 900;
          claimed_at = some 5;
          last_heartbeat_at = some 5;
        }))
    × ((i : ℕ)
        → i ≢ r.invocation_id
        → row_at i
            (claim_next_invocation 5 900 [] "w1" none ("default" ∷ []) two_rows).1.invocations
          ≡ row_at i two_rows.invocations)
unfolding claim_next_invocation
claim_takes_earliest_example =
    claim_takes_earliest 5 900 [] "w1" none ("default" ∷ []) two_rows (response 900 "w1" row_6)
      (refl, (refl, tt)) refl

run-IsConsistent_example :
    Distinct (run some_calls two_rows).invocations
    × All IsConsistent (run some_calls two_rows).invocations
run-IsConsistent_example =
    run-IsConsistent some_calls two_rows (refl, (refl, tt)) two_rows-IsConsistent

claimed_once_example : row_5.invocation_id ≢ row_6.invocation_id
unfolding claim_next_invocation run create_invocation heartbeat_invocation request_cancel_invocation
claimed_once_example =
    claimed_once first_poll second_poll two_rows (response 900 "w1" row_6) (response 901 "w2" row_5)
      ((7, heartbeat 6 "w1" 900) ∷ (8, request_cancel 6) ∷ []) (refl, (refl, tt)) refl tt refl

terminal_is_final_example : SameOutcome (cancel_row 4 row_5) (cancel_row 8 (cancel_row 4 row_5))
unfolding cancel_row request_cancel_invocation run claim_next_invocation
terminal_is_final_example =
    terminal_is_final 5 (request_cancel_invocation 4 5 two_rows).1 (cancel_row 4 row_5)
      (cancel_row 8 (cancel_row 4 row_5))
      ((7, claim_next 902 [] "w3" none ("default" ∷ [])) ∷ (8, request_cancel 5) ∷ [])
      (refl, (refl, tt)) refl refl tt refl

cancel_filter_example : (matches_cancel_state requested (cancel_row 4 row_5) ≡ true) ↔ (
    (compute_cancel_state (cancel_row 4 row_5) ≡ requested)
    × ((requested ≡ requested → is_running (cancel_row 4 row_5).status ≡ true)))
cancel_filter_example = cancel_filter (cancel_row 4 row_5) requested

stale-iff-missed_heartbeat_example :
    (compute_worker_health (20 * second) (claimed 5 900 "w1" row_6) ≡ stale) ↔ (
      missed_heartbeat
        (heartbeat_stale_timeout local)
        (heartbeat_stale_timeout server)
        (20 * second)
        (claimed 5 900 "w1" row_6)
      ≡ true)
stale-iff-missed_heartbeat_example =
    stale-iff-missed_heartbeat (20 * second) (claimed 5 900 "w1" row_6)
      (claimed-IsConsistent 5 900 "w1" row_6 refl (new_row-IsConsistent 2 (local_input 6)))
