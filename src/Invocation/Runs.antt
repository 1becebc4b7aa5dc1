-- ===== src/Invocation/Runs.antt =====
-- What every run of the operations keeps: the schema's constraint, a claim, a terminal status.
use dbtx.Prelude.{
  ℕ, ◌+◌, String, refl, Option, List, [], ◌∷◌, inl, inr, any, find, Bool-cases, Option-cases, All,
}
use dbtx.Status.ExecutionMode.{ExecutionMode}
use dbtx.Invocation.{Db, Invocation, InvocationEvent}
use dbtx.Invocation.Queue.{
  CreateInvocationInput, create_invocation, new_row, has_id, claimed, earliest, candidates,
  claim_next_invocation,
}
use dbtx.Invocation.Lease.{is_held, beaten, heartbeat_invocation}
use dbtx.Invocation.Cancel.{cancel_row, request_cancel_invocation}
use dbtx.Invocation.Deadline.{
  missed_claim, missed_heartbeat, failed_row, claim_message, heartbeat_message, is_expired,
  fail_unclaimed, reconcile_timed_out_invocations, cleanup_terminal_invocations_older_than,
}
use dbtx.Invocation.Events.{numbered, has_number, append_invocation_event}
use dbtx.Invocation.Ops.{
  Op, create, claim_next, heartbeat, request_cancel, reconcile_timed_out, cleanup, append_event,
  perform, run, kept,
}
use dbtx.Invocation.Row.{Distinct, Distinct-update_rows, Distinct-delete_rows, Distinct-append}
use dbtx.Invocation.Claiming.{rows_of_claim, rows_of_no_claim}
use dbtx.Invocation.Stable.{IsStable, Creates, perform-All}

pub Distinct-claim :
    (now token : ℕ) (locked : List ℕ) (w : String) (mode : Option ExecutionMode)
    (queues : List String) (db : Db)
    → Distinct db.invocations
    → Distinct (claim_next_invocation now token locked w mode queues db).1.invocations
Distinct-claim now token locked w mode queues db d =
    elim (Option-cases (earliest (candidates now locked mode queues db.invocations))) [
      | inl e ↦ rw (rows_of_no_claim now token locked w mode queues db e) d
      | inr (r, e) ↦ rw (rows_of_claim now token locked w mode queues db r e) (
          Distinct-update_rows (has_id r.invocation_id) (claimed now token w) db.invocations
            (λ a. refl) d)
    ]

Distinct-heartbeat :
    (now i token : ℕ) (w : String) (db : Db)
    → Distinct db.invocations
    → Distinct (heartbeat_invocation now i w token db).1.invocations
unfolding heartbeat_invocation
Distinct-heartbeat now i token w db d =
    elim (Option-cases (find (is_held i w token) db.invocations)) [
      | inl e ↦ rw e d
      | inr (r, e) ↦
          rw e (Distinct-update_rows (is_held i w token) (beaten now) db.invocations (λ a. refl) d)
    ]

pub Distinct-cancel :
    (now i : ℕ) (db : Db)
    → Distinct db.invocations
    → Distinct (request_cancel_invocation now i db).1.invocations
unfolding request_cancel_invocation
Distinct-cancel now i db d = elim (Option-cases (find (has_id i) db.invocations)) [
  | inl e ↦ rw e d
  | inr (r, e) ↦
      rw e (Distinct-update_rows (has_id i) (cancel_row now) db.invocations (λ a. refl) d)
]

Distinct-event :
    (i : ℕ) (event : InvocationEvent) (db : Db)
    → Distinct db.invocations
    → Distinct (append_invocation_event i event db).1.invocations
unfolding append_invocation_event
Distinct-event i event db d = elim (Option-cases (find (has_id i) db.invocations)) [
  | inl e ↦ rw e d
  | inr (r, e) ↦
      rw e
        (elim (Bool-cases (any (has_number i (r.next_event_sequence + 1)) db.invocation_events)) [
          | inl taken ↦ rw taken d
          | inr free ↦
              rw free (Distinct-update_rows (has_id i) numbered db.invocations (λ a. refl) d)
        ])
]

Distinct-create :
    (now : ℕ) (input : CreateInvocationInput) (db : Db)
    → Distinct db.invocations
    → Distinct (kept db (create_invocation now input db)).invocations
unfolding create_invocation
Distinct-create now input db d =
    elim (Bool-cases (any (has_id input.invocation_id) db.invocations)) [
      | inl taken ↦ rw taken d
      | inr free ↦ rw free (Distinct-append db.invocations (new_row now input) free d)
    ]

perform-Distinct :
    (now : ℕ) (op : Op) (db : Db)
    → Distinct db.invocations
    → Distinct (perform now op db).invocations
unfolding perform
perform-Distinct now (create input) db d = Distinct-create now input db d
perform-Distinct now (claim_next token locked w mode queues) db d =
    Distinct-claim now token locked w mode queues db d
perform-Distinct now (heartbeat i w token) db d = Distinct-heartbeat now i token w db d
perform-Distinct now (request_cancel i) db d = Distinct-cancel now i db d
perform-Distinct now (reconcile_timed_out l s) db d =
    unfold reconcile_timed_out_invocations in
    Distinct-update_rows (missed_heartbeat l s now) (failed_row now heartbeat_message)
      (fail_unclaimed now db.invocations) (λ a. refl)
      (Distinct-update_rows (missed_claim now) (failed_row now claim_message) db.invocations
        (λ a. refl) d)
perform-Distinct now (cleanup cutoff) db d =
    unfold cleanup_terminal_invocations_older_than in
    Distinct-delete_rows (is_expired cutoff) db.invocations d
perform-Distinct now (append_event i event) db d = Distinct-event i event db d

pub run-Distinct :
    (ops : List (ℕ × Op)) (db : Db) → Distinct db.invocations → Distinct (run ops db).invocations
unfolding run
run-Distinct [] db d = d
run-Distinct ((now, op) ∷ rest) db d =
    run-Distinct rest (perform now op db) (perform-Distinct now op db d)

abbrev pub CreatesAll : (Invocation → Type 0) → List (ℕ × Op) → Type 0
CreatesAll P [] = Unit
CreatesAll P ((now, op) ∷ rest) = Creates P now op × CreatesAll P rest

pub run-All :
    {P : Invocation → Type 0} (stable : IsStable P) (ops : List (ℕ × Op)) (db : Db)
    → Distinct db.invocations
    → CreatesAll P ops
    → All P db.invocations
    → All P (run ops db).invocations
unfolding run
run-All stable [] db d c h = h
run-All stable ((now, op) ∷ rest) db d c h =
    run-All stable rest (perform now op db) (perform-Distinct now op db d) c.1
      (perform-All stable now op db d c.0 h)
