-- ===== src/Invocation/Sweeping.antt =====
-- `reconcile_timed_out_invocations` against its description row by row.
use dbtx.Prelude.{
  ℕ, ◌+◌, String, true, false, ◌≡◌, ◌↔◌, ◌⊎◌, ◌≤◌, refl, ap, some, List, [], ◌∷◌, ◌++◌, arith,
  if◌then◌else◌, map, All, Elem, Elem-append, where_rows, update_rows,
}
use dbtx.Invocation.{Db, Invocation}
use dbtx.Invocation.Lease.{is_held, beaten, heartbeat_invocation}
use dbtx.Invocation.Deadline.{
  missed_claim, missed_heartbeat, timeout_for, failed_row, claim_message, heartbeat_message,
  fail_unclaimed, TimedOutRecord, timed_out, reconcile_timed_out_invocations,
}
use dbtx.Invocation.Row.{Distinct, row_at}
use dbtx.Invocation.Fencing.{heartbeat_branches}

-- What the sweep should do to one row.
abbrev pub swept : ℕ → ℕ → ℕ → Invocation → Invocation
swept l s now r =
    if missed_claim now r
    then failed_row now claim_message r
    else if missed_heartbeat l s now r
    then failed_row now heartbeat_message r
    else r

abbrev pub IsReported : ℕ → ℕ → ℕ → TimedOutRecord → List Invocation → Type 0
IsReported l s now t [] = ⊥
IsReported l s now t (r ∷ rest) =
    ((missed_claim now r ≡ true) × (t ≡ timed_out claim_message r))
    ⊎ (((missed_heartbeat l s now r ≡ true) × (t ≡ timed_out heartbeat_message r))
        ⊎ IsReported l s now t rest)

both_phases :
    (l s now : ℕ) (r : Invocation)
    → (let r' = if missed_claim now r then failed_row now claim_message r else r in
        if missed_heartbeat l s now r' then failed_row now heartbeat_message r' else r')
      ≡ swept l s now r
both_phases l s now r = ground arith

rows_of_sweep :
    (l s now : ℕ) (rows : List Invocation)
    → update_rows
        (missed_heartbeat l s now)
        (failed_row now heartbeat_message)
        (fail_unclaimed now rows)
      ≡ map (swept l s now) rows
rows_of_sweep l s now [] = refl
rows_of_sweep l s now (r ∷ rest) = rw (both_phases l s now r) (rw (rows_of_sweep l s now rest) refl)

report_of_sweep :
    (l s now : ℕ) (t : TimedOutRecord) (rows : List Invocation)
    → Elem t (
        map (timed_out claim_message) (where_rows (missed_claim now) rows)
        ++ map
            (timed_out heartbeat_message)
            (where_rows (missed_heartbeat l s now) (fail_unclaimed now rows)))
      ↔ IsReported l s now t rows
report_of_sweep l s now t [] = ground arith
report_of_sweep l s now t (r ∷ rest) = ground (
  arith,
  report_of_sweep l s now t rest,
  Elem-append t (map (timed_out claim_message) (where_rows (missed_claim now) rest)) (
      map (timed_out heartbeat_message)
        (where_rows (missed_heartbeat l s now) (fail_unclaimed now rest))),
  Elem-append t (map (timed_out claim_message) (where_rows (missed_claim now) (r ∷ rest))) (
      map (timed_out heartbeat_message)
        (where_rows (missed_heartbeat l s now) (fail_unclaimed now (r ∷ rest)))),
)

swept_is_settled :
    (l s now : ℕ) (r : Invocation)
    → (missed_claim now (swept l s now r) ≡ false)
      × (missed_heartbeat l s now (swept l s now r) ≡ false)
swept_is_settled l s now r = ground arith

All-swept :
    (l s now : ℕ) (rows : List Invocation)
    → All
        (λ r. (missed_claim now r ≡ false) × (missed_heartbeat l s now r ≡ false))
        (map (swept l s now) rows)
All-swept l s now [] = tt
All-swept l s now (r ∷ rest) = (swept_is_settled l s now r, All-swept l s now rest)

-- A sweep does to each row what its two statements say of it alone: a row that missed its claim
-- deadline fails for that, a claimed one whose last sign of life is older than its mode's timeout
-- fails for that, every other row stays. It reports exactly those two kinds of row, each with its
-- message, and leaves none that a second sweep at the same instant would fail.
pub sweep_by_row :
    (l s now : ℕ) (db : Db)
    → ((reconcile_timed_out_invocations l s now db).1.invocations
        ≡ map (swept l s now) db.invocations)
      × ((t : TimedOutRecord)
          → Elem t (reconcile_timed_out_invocations l s now db).0
            ↔ IsReported l s now t db.invocations)
      × All
          (λ r. (missed_claim now r ≡ false) × (missed_heartbeat l s now r ≡ false))
          (reconcile_timed_out_invocations l s now db).1.invocations
unfolding reconcile_timed_out_invocations
sweep_by_row l s now db = (
  rows_of_sweep l s now db.invocations,
  λ t. report_of_sweep l s now t db.invocations,
  rw (rows_of_sweep l s now db.invocations) (All-swept l s now db.invocations),
)

find-map :
    (i : ℕ) (f : Invocation → Invocation) (rows : List Invocation) (r : Invocation)
    → ((a : Invocation) → (f a).invocation_id ≡ a.invocation_id)
    → row_at i rows ≡ some r
    → row_at i (map f rows) ≡ some (f r)
find-map i f [] r keep at = cc
find-map i f (x ∷ rest) r keep at = ground (arith, keep x, find-map i f rest r keep)

swept_id : (l s now : ℕ) (r : Invocation) → (swept l s now r).invocation_id ≡ r.invocation_id
swept_id l s now r = ground arith

fresh_is_kept :
    (l s t now i : ℕ) (w : String) (token : ℕ) (r : Invocation)
    → is_held i w token r ≡ true
    → now ≤ t + timeout_for l s r.execution_mode
    → swept l s now (beaten t r) ≡ beaten t r
fresh_is_kept l s t now i w token r h soon = ground arith

-- Under different ids, a heartbeat of the holder of a running row keeps that row running through
-- every sweep up to its mode's timeout later: the sweep leaves the row as the heartbeat left it.
pub heartbeat_keeps_alive :
    (l s t now i : ℕ) (w : String) (token : ℕ) (db : Db) (r : Invocation)
    → Distinct db.invocations
    → row_at i db.invocations ≡ some r
    → is_held i w token r ≡ true
    → now ≤ t + timeout_for l s r.execution_mode
    → row_at i
        (reconcile_timed_out_invocations l s now
          (heartbeat_invocation t i w token db).1).1.invocations
      ≡ some (beaten t r)
heartbeat_keeps_alive l s t now i w token db r d at h soon =
    let db' = (heartbeat_invocation t i w token db).1 in
    let at' = ((heartbeat_branches t i w token db r d at).0 h).1 in
    rw (sweep_by_row l s now db').0 (
      rw (find-map i (swept l s now) db'.invocations (beaten t r) (swept_id l s now) at')
        (ap some (fresh_is_kept l s t now i w token r h soon)))
