-- ===== src/Invocation/Stream.antt =====
-- The event stream of an invocation: `append_invocation_event` and `load_invocation_events_since`.
use dbtx.Prelude.{
  ℕ, ◌+◌, ◌≤◌, Bool, true, false, ◌≡◌, ◌↔◌, refl, some, List, [], ◌∷◌, ◌++◌, arith, nat_eq, leb,
  map, All, Elem, Elem-where_rows, Elem-sort_by, Elem-map, IsSorted, sort_by, sort_by-IsSorted, any,
  where_rows, find-eq-some, find-update_rows,
}
use dbtx.Error.{ok}
use dbtx.Invocation.{Db, Invocation, InvocationEvent, EventRow}
use dbtx.Invocation.Queue.{has_id}
use dbtx.Invocation.Events.{
  numbered, has_number, append_invocation_event, number_le, is_after, event_entry,
  load_invocation_events_since,
}
use dbtx.Invocation.Row.{row_at}

-- No event of the invocation has a number above its counter.
abbrev pub IsNumbered : ℕ → Invocation → List EventRow → Type 0
IsNumbered i r = All (λ e. e.invocation_id ≡ i → e.sequence_no ≤ r.next_event_sequence)

number_is_free :
    (i : ℕ) (r : Invocation) (events : List EventRow)
    → IsNumbered i r events
    → any (has_number i (r.next_event_sequence + 1)) events ≡ false
number_is_free i r [] h = refl
number_is_free i r (e ∷ rest) h = ground (arith, number_is_free i r rest h.1)

none_is_after :
    (i : ℕ) (r : Invocation) (events : List EventRow)
    → IsNumbered i r events
    → where_rows (is_after i r.next_event_sequence) events ≡ []
none_is_after i r [] h = refl
none_is_after i r (e ∷ rest) h = ground (arith, none_is_after i r rest h.1)

abbrev new_event : ℕ → Invocation → InvocationEvent → EventRow
new_event i r event = record {
  invocation_id = i;
  sequence_no = r.next_event_sequence + 1;
  event = event;
}

only_new_after :
    (i : ℕ) (r : Invocation) (event : InvocationEvent) (events : List EventRow)
    → IsNumbered i r events
    → where_rows (is_after i r.next_event_sequence) (events ++ new_event i r event ∷ [])
      ≡ new_event i r event ∷ []
only_new_after i r event [] h = ground arith
only_new_after i r event (e ∷ rest) h = ground (arith, only_new_after i r event rest h.1)

still_numbered :
    (i : ℕ) (r : Invocation) (event : InvocationEvent) (events : List EventRow)
    → IsNumbered i r events
    → IsNumbered i (numbered r) (events ++ new_event i r event ∷ [])
still_numbered i r event [] h = (λ same. ground arith, tt)
still_numbered i r event (e ∷ rest) h =
    (λ same. ground (arith, h.0 same), still_numbered i r event rest h.1)

-- For an invocation that exists and whose counter is at or above the numbers of its events, an
-- append succeeds with the next number, a reader that has seen everything so far then reads
-- exactly the new event under that number, and the counter is again at or above all numbers.
pub append_then_load :
    (i : ℕ) (event : InvocationEvent) (db : Db) (r : Invocation)
    → row_at i db.invocations ≡ some r
    → IsNumbered i r db.invocation_events
    → ((append_invocation_event i event db).0 ≡ ok (r.next_event_sequence + 1))
      × (load_invocation_events_since i r.next_event_sequence (append_invocation_event i event db).1
          ≡ (r.next_event_sequence + 1, event) ∷ [])
      × (row_at i (append_invocation_event i event db).1.invocations ≡ some (numbered r))
      × IsNumbered i (numbered r) (append_invocation_event i event db).1.invocation_events
unfolding append_invocation_event load_invocation_events_since sort_by
append_then_load i event db r at h = rw at (
    rw (number_is_free i r db.invocation_events h) (
      refl,
      rw (only_new_after i r event db.invocation_events h) refl,
      rw (find-update_rows (has_id i) (has_id i) numbered db.invocations (λ a. refl))
          (rw at (rw (find-eq-some (has_id i) db.invocations at).1 refl)),
      still_numbered i r event db.invocation_events h,
    ))

-- What is read keeps the events after `after`, in the order of their numbers.
abbrev pub entry_le : ℕ × InvocationEvent → ℕ × InvocationEvent → Bool
entry_le a b = leb a.0 b.0

All-entries :
    (x : EventRow) (es : List EventRow)
    → All (λ y. number_le x y ≡ true) es
    → All (λ y. entry_le (event_entry x) y ≡ true) (map event_entry es)
All-entries x [] h = tt
All-entries x (e ∷ rest) h = (h.0, All-entries x rest h.1)

IsSorted-entries :
    (es : List EventRow) → IsSorted number_le es → IsSorted entry_le (map event_entry es)
IsSorted-entries [] h = tt
IsSorted-entries (x ∷ rest) h = (All-entries x rest h.0, IsSorted-entries rest h.1)

number_le_total : (a b : EventRow) → number_le a b ≡ false → number_le b a ≡ true
number_le_total a b h = ground arith

number_le_trans :
    (a b c : EventRow) → number_le a b ≡ true → number_le b c ≡ true → number_le a c ≡ true
number_le_trans a b c h k = ground arith

-- A load returns the events of the invocation with numbers above the given one, all of them and no
-- other, in ascending order of their numbers.
pub load_is_complete :
    (i after : ℕ) (db : Db)
    → IsSorted entry_le (load_invocation_events_since i after db)
      × ((x : ℕ × InvocationEvent)
          → Elem x (load_invocation_events_since i after db) ↔ (
              (e : EventRow) × Elem e db.invocation_events
              × (is_after i after e ≡ true)
              × (x ≡ event_entry e)))
unfolding load_invocation_events_since sort_by
load_is_complete i after db =
    let found = where_rows (is_after i after) db.invocation_events in
    (
      IsSorted-entries (sort_by number_le found)
          (sort_by-IsSorted number_le number_le_total number_le_trans found),
      λ x. (
        λ m.
            let (e, there, same) = (Elem-map event_entry x (sort_by number_le found)).0 m in
            let row =
              (Elem-where_rows (is_after i after) e db.invocation_events).0
                ((Elem-sort_by number_le e found).0 there) in
            (e, row.0, row.1, same),
        λ (e, m, fits, same). (Elem-map event_entry x (sort_by number_le found)).1 (
          e,
          (Elem-sort_by number_le e found).1
              ((Elem-where_rows (is_after i after) e db.invocation_events).1 (m, fits)),
          same,
        ),
      ),
    )
