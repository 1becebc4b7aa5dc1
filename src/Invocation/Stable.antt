-- ===== src/Invocation/Stable.antt =====
-- A property of single rows that every `SET` keeps is kept by every operation and every run.
use dbtx.Prelude.{
  ℕ, ◌+◌, String, true, ◌≡◌, Option, List, [], ◌∷◌, arith, inl, inr, is_some, is_none, any, find,
  Bool-cases, Option-cases, All, All-update_rows, All-delete_rows, All-append, Elem-where_rows,
}
use dbtx.Status.ExecutionMode.{ExecutionMode}
use dbtx.Invocation.{Db, Invocation, InvocationEvent, is_running}
use dbtx.Invocation.Queue.{
  CreateInvocationInput, create_invocation, new_row, has_id, is_claimable, earliest, is_candidate,
  candidates, claimed, claim_next_invocation,
}
use dbtx.Invocation.Lease.{is_held, beaten, heartbeat_invocation}
use dbtx.Invocation.Cancel.{cancel_row, request_cancel_invocation}
use dbtx.Invocation.Deadline.{
  missed_claim, missed_heartbeat, failed_row, claim_message, heartbeat_message, is_expired,
  fail_unclaimed, reconcile_timed_out_invocations, cleanup_terminal_invocations_older_than,
}
use dbtx.Invocation.Events.{numbered, has_number, append_invocation_event}
use dbtx.Invocation.Ops.{
  Op, create, claim_next, heartbeat, request_cancel, reconcile_timed_out, cleanup, append_event,
  perform, kept,
}
use dbtx.Invocation.Row.{Distinct, Distinct-same}
use dbtx.Invocation.Claiming.{earliest-Elem, rows_of_claim, rows_of_no_claim}

-- Each field may use what the operation's `WHERE` says of the row.
pub record IsStable (P : Invocation → Type 0) : Type 0 where
  pub at_claim :
      (now token : ℕ) (w : String) (r : Invocation)
      → is_running r.status ≡ true
      → is_none r.claimed_by ≡ true
      → P r
      → P (claimed now token w r)
  pub at_beat :
      (now : ℕ) (r : Invocation)
      → is_running r.status ≡ true
      → is_some r.claimed_by ≡ true
      → P r
      → P (beaten now r)
  pub at_cancel : (now : ℕ) (r : Invocation) → P r → P (cancel_row now r)
  pub at_failure :
      (now : ℕ) (message : String) (r : Invocation)
      → is_running r.status ≡ true
      → P r
      → P (failed_row now message r)
  pub at_event : (r : Invocation) → P r → P (numbered r)

-- What a run must create for the property to hold of the new rows.
abbrev pub Creates : (Invocation → Type 0) → ℕ → Op → Type 0
Creates P now (create input) = P (new_row now input)
Creates P now _ = Unit

pub claim_guard :
    (now : ℕ) (locked : List ℕ) (mode : Option ExecutionMode) (queues : List String)
    (r : Invocation)
    → is_candidate now locked mode queues r ≡ true
    → (is_running r.status ≡ true) × (is_none r.claimed_by ≡ true)
unfolding is_claimable
claim_guard now locked mode queues r h = ground arith

held_running :
    (i : ℕ) (w : String) (token : ℕ) (r : Invocation)
    → is_held i w token r ≡ true
    → is_running r.status ≡ true
held_running i w token r h = ground arith

held_claimed :
    (i : ℕ) (w : String) (token : ℕ) (r : Invocation)
    → is_held i w token r ≡ true
    → is_some r.claimed_by ≡ true
held_claimed i w token r h = ground arith

module _ {P : Invocation → Type 0} (stable : IsStable P) where
  claim-All :
      (now token : ℕ) (locked : List ℕ) (w : String) (mode : Option ExecutionMode)
      (queues : List String) (db : Db)
      → Distinct db.invocations
      → All P db.invocations
      → All P (claim_next_invocation now token locked w mode queues db).1.invocations
  claim-All now token locked w mode queues db d h =
      elim (Option-cases (earliest (candidates now locked mode queues db.invocations))) [
        | inl e ↦ rw (rows_of_no_claim now token locked w mode queues db e) h
        | inr (r, e) ↦
            let seat =
              (Elem-where_rows (is_candidate now locked mode queues) r db.invocations).0
                (earliest-Elem (candidates now locked mode queues db.invocations) r e) in
            let guard = claim_guard now locked mode queues r seat.1 in
            rw (rows_of_claim now token locked w mode queues db r e) (
              All-update_rows P (has_id r.invocation_id) (claimed now token w) db.invocations
                (λ a m hit p.
                  let same = Distinct-same db.invocations a r d m seat.0 (ground arith) in
                  stable.at_claim now token w a (rw same guard.0) (rw same guard.1) p)
                h)
      ]

  heartbeat-All :
      (now i token : ℕ) (w : String) (db : Db)
      → All P db.invocations
      → All P (heartbeat_invocation now i w token db).1.invocations
  unfolding heartbeat_invocation
  heartbeat-All now i token w db h = elim (Option-cases (find (is_held i w token) db.invocations)) [
    | inl e ↦ rw e h
    | inr (r, e) ↦ rw e (
        All-update_rows P (is_held i w token) (beaten now) db.invocations
          (λ a m hit p.
            stable.at_beat now a (held_running i w token a hit) (held_claimed i w token a hit) p)
          h)
  ]

  cancel-All :
      (now i : ℕ) (db : Db)
      → All P db.invocations
      → All P (request_cancel_invocation now i db).1.invocations
  unfolding request_cancel_invocation
  cancel-All now i db h = elim (Option-cases (find (has_id i) db.invocations)) [
    | inl e ↦ rw e h
    | inr (r, e) ↦ rw e (
        All-update_rows P (has_id i) (cancel_row now) db.invocations
          (λ a m hit p. stable.at_cancel now a p) h)
  ]

  sweep-All :
      (local_timeout server_timeout now : ℕ) (db : Db)
      → All P db.invocations
      → All P (reconcile_timed_out_invocations local_timeout server_timeout now db).1.invocations
  unfolding reconcile_timed_out_invocations
  sweep-All l s now db h =
      All-update_rows P (missed_heartbeat l s now) (failed_row now heartbeat_message)
        (fail_unclaimed now db.invocations)
        (λ a m hit p. stable.at_failure now heartbeat_message a (ground arith) p)
        (All-update_rows P (missed_claim now) (failed_row now claim_message) db.invocations
          (λ a m hit p. stable.at_failure now claim_message a (ground arith) p) h)

  append-All :
      (i : ℕ) (event : InvocationEvent) (db : Db)
      → All P db.invocations
      → All P (append_invocation_event i event db).1.invocations
  unfolding append_invocation_event
  append-All i event db h = elim (Option-cases (find (has_id i) db.invocations)) [
    | inl e ↦ rw e h
    | inr (r, e) ↦
        rw e
          (elim (Bool-cases (any (has_number i (r.next_event_sequence + 1)) db.invocation_events)) [
            | inl taken ↦ rw taken h
            | inr free ↦ rw free (
                All-update_rows P (has_id i) numbered db.invocations
                  (λ a m hit p. stable.at_event a p) h)
          ])
  ]

  create-All :
      (now : ℕ) (input : CreateInvocationInput) (db : Db)
      → P (new_row now input)
      → All P db.invocations
      → All P (kept db (create_invocation now input db)).invocations
  unfolding create_invocation
  create-All now input db new h =
      elim (Bool-cases (any (has_id input.invocation_id) db.invocations)) [
        | inl taken ↦ rw taken h
        | inr free ↦ rw free (All-append P db.invocations (new_row now input ∷ []) h (new, tt))
      ]

  pub perform-All :
      (now : ℕ) (op : Op) (db : Db)
      → Distinct db.invocations
      → Creates P now op
      → All P db.invocations
      → All P (perform now op db).invocations
  unfolding perform
  perform-All now (create input) db d new h = create-All now input db new h
  perform-All now (claim_next token locked w mode queues) db d new h =
      claim-All now token locked w mode queues db d h
  perform-All now (heartbeat i w token) db d new h = heartbeat-All now i token w db h
  perform-All now (request_cancel i) db d new h = cancel-All now i db h
  perform-All now (reconcile_timed_out l s) db d new h = sweep-All l s now db h
  perform-All now (cleanup cutoff) db d new h =
      unfold cleanup_terminal_invocations_older_than in
      All-delete_rows P (is_expired cutoff) db.invocations h
  perform-All now (append_event i event) db d new h = append-All i event db h
