-- ===== src/Invocation/Events.antt =====
-- src/db/invocations.rs: `append_invocation_event` and `load_invocation_events_since`.
use dbtx.Prelude.{
  ℕ, ◌+◌, Bool, ◌&&◌, Option, none, some, List, [], ◌∷◌, ◌++◌, ◌==◌, nat_eq, ltb, leb,
  if◌then◌else◌, map, sort_by, any, find, where_rows, update_rows,
}
use dbtx.Error.{AppResult, ok, err, invocation_not_found, sqlx}
use dbtx.Invocation.{Db, Invocation, InvocationEvent, EventRow}
use dbtx.Invocation.Queue.{has_id}

abbrev pub numbered : Invocation → Invocation
numbered r = record r { next_event_sequence = r.next_event_sequence + 1 }

abbrev pub has_number : ℕ → ℕ → EventRow → Bool
has_number i n e = e.invocation_id == i && e.sequence_no == n

-- The number is the counter after its step. `(invocation_id, sequence_no)` is unique; a failed
-- insert rolls the counter back.
abbrev pub append_found : ℕ → InvocationEvent → Option Invocation → Db → AppResult ℕ × Db
append_found i event none db = (err (invocation_not_found i), db)
append_found i event (some r) db =
    if any (has_number i (r.next_event_sequence + 1)) db.invocation_events
    then (err sqlx, db)
    else (
      ok (r.next_event_sequence + 1),
      record db {
        invocations = update_rows (has_id i) numbered db.invocations;
        invocation_events =
            db.invocation_events
            ++ record { invocation_id = i; sequence_no = r.next_event_sequence + 1; event = event }
              ∷ [];
      },
    )

unfoldable pub append_invocation_event : ℕ → InvocationEvent → Db → AppResult ℕ × Db
append_invocation_event i event db = append_found i event (find (has_id i) db.invocations) db

-- `ORDER BY sequence_no ASC`.
abbrev pub number_le : EventRow → EventRow → Bool
number_le a b = leb a.sequence_no b.sequence_no

abbrev pub is_after : ℕ → ℕ → EventRow → Bool
is_after i after e = e.invocation_id == i && ltb after e.sequence_no

abbrev pub event_entry : EventRow → ℕ × InvocationEvent
event_entry e = (e.sequence_no, e.event)

unfoldable pub load_invocation_events_since : ℕ → ℕ → Db → List (ℕ × InvocationEvent)
unfolding sort_by
load_invocation_events_since i after db =
    map event_entry (sort_by number_le (where_rows (is_after i after) db.invocation_events))
