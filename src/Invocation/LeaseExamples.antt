-- ===== src/Invocation/LeaseExamples.antt =====
-- The theorems on leases, sweeps, the registry and the event stream at concrete tables.
use dbtx.Prelude.{
  ℕ, ◌*◌, String, ◌≡◌, ◌↔◌, nat_eq, string_eq, refl, true, false, none, some, List, [], ◌∷◌, arith,
  All, Elem, map, is_some, if◌then◌else◌,
}
use dbtx.Error.{ok, err, invocation_not_found, invocation_ownership_mismatch}
use dbtx.Status.LifecycleStatus.{canceled}
use dbtx.Invocation.{Invocation, Db, pos, is_running}
use dbtx.Invocation.Queue.{claimed}
use dbtx.Invocation.Lease.{
  is_held, beaten, heartbeat_invocation, get_invocation_persistence_for_completion,
}
use dbtx.Invocation.Cancel.{is_queued, cancel_row, request_cancel_invocation}
use dbtx.Invocation.Deadline.{
  second, missed_claim, missed_heartbeat, TimedOutRecord, reconcile_timed_out_invocations,
}
use dbtx.Invocation.Ops.{Op, claim_next, request_cancel, run}
use dbtx.Invocation.Row.{row_at}
use dbtx.Invocation.Fencing.{cancel_branches, terminal_is_fenced}
use dbtx.Invocation.Sweeping.{swept, IsReported, sweep_by_row, heartbeat_keeps_alive}
use dbtx.Invocation.Examples.{row_5, row_6, two_rows}

abbrev held_6 : Invocation
held_6 = claimed 5 900 "w1" row_6

abbrev one_claimed : Db
one_claimed = record { invocations = row_5 ∷ held_6 ∷ []; workers = []; invocation_events = [] }

abbrev canceled_db : Db
unfolding cancel_row
canceled_db = record two_rows { invocations = cancel_row 4 row_5 ∷ row_6 ∷ [] }

abbrev fenced_calls : List (ℕ × Op)
fenced_calls = (7, claim_next 902 [] "w3" none ("default" ∷ [])) ∷ (8, request_cancel 5) ∷ []

cancel_branches_example :
    (is_queued row_5 ≡ true
      → ((request_cancel_invocation 7 5 two_rows).0
          ≡ ok (
              some (record {
                invocation_id = 5;
                status = canceled;
                exit_code = some (pos 130);
                error = some "invocation canceled";
              })))
        × ((r' : Invocation) × (row_at 5 (request_cancel_invocation 7 5 two_rows).1.invocations
              ≡ some r')
            × (r'.status ≡ canceled)
            × (r'.completed_at ≡ some 7)))
    × ((later token : ℕ) (w : String)
        → is_held 5 w token row_5 ≡ true
        → ((request_cancel_invocation 7 5 two_rows).0 ≡ ok none)
          × ((heartbeat_invocation later 5 w token (request_cancel_invocation 7 5 two_rows).1).0
              ≡ ok true))
    × (is_running row_5.status ≡ false
        → row_at 5 (request_cancel_invocation 7 5 two_rows).1.invocations ≡ some row_5)
cancel_branches_example = cancel_branches 7 5 two_rows row_5 (refl, (refl, tt)) refl

terminal_is_fenced_example :
    ((heartbeat_invocation 9 5 "w1" 900 (run fenced_calls canceled_db)).0
      ≡ err invocation_ownership_mismatch)
    × (get_invocation_persistence_for_completion 5 "w1" 900
          (run fenced_calls canceled_db).invocations
        ≡ (if is_some (row_at 5 (run fenced_calls canceled_db).invocations)
            then err invocation_ownership_mismatch
            else err (invocation_not_found 5)))
unfolding canceled_db
terminal_is_fenced_example =
    terminal_is_fenced 5 canceled_db (cancel_row 4 row_5) fenced_calls 9 "w1" 900 (refl, (refl, tt))
      refl refl tt

sweep_by_row_example :
    ((reconcile_timed_out_invocations 15 60 (20 * second) one_claimed).1.invocations
      ≡ map (swept 15 60 (20 * second)) one_claimed.invocations)
    × ((t : TimedOutRecord)
        → Elem t (reconcile_timed_out_invocations 15 60 (20 * second) one_claimed).0
          ↔ IsReported 15 60 (20 * second) t one_claimed.invocations)
    × All
        (λ r.
          (missed_claim (20 * second) r ≡ false) × (missed_heartbeat 15 60 (20 * second) r ≡ false))
        (reconcile_timed_out_invocations 15 60 (20 * second) one_claimed).1.invocations
sweep_by_row_example = sweep_by_row 15 60 (20 * second) one_claimed

heartbeat_keeps_alive_example :
    row_at 6
      (reconcile_timed_out_invocations 15 60 22
        (heartbeat_invocation 7 6 "w1" 900 one_claimed).1).1.invocations
    ≡ some (beaten 7 held_6)
heartbeat_keeps_alive_example =
    heartbeat_keeps_alive 15 60 7 22 6 "w1" 900 one_claimed held_6 (refl, (refl, tt)) refl refl
      (omega arith)
