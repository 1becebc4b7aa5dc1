-- ===== src/Invocation/Fencing.antt =====
-- Only the worker and token of the current claim reach a row: `heartbeat_invocation`,
-- `request_cancel_invocation`, the sweep, and the look-up of a completion.
use dbtx.Prelude.{
  ℕ, String, Bool, true, false, ◌≡◌, refl, Option, none, some, List, [], ◌∷◌, arith, inl, inr,
  Bool-cases, Option-cases, find, find-eq-some, find-update_rows, any, if◌then◌else◌, is_some,
}
use dbtx.Error.{ok, err, invocation_not_found, invocation_ownership_mismatch}
use dbtx.Invocation.{Db, Invocation, is_running, is_terminal, pos}
use dbtx.Invocation.Queue.{has_id}
use dbtx.Invocation.Lease.{
  is_held, beaten, heartbeat_invocation, get_invocation_persistence_for_completion,
}
use dbtx.Invocation.Cancel.{is_queued, cancel_row, cancellation, request_cancel_invocation}
use dbtx.Status.LifecycleStatus.{canceled}
use dbtx.Invocation.Ops.{Op, run, NeverCreates}
use dbtx.Invocation.Runs.{Distinct-cancel, run-Distinct}
use dbtx.Invocation.History.{terminal_is_final}
use dbtx.Invocation.Row.{Distinct, row_at}

no_id-no_holder :
    (i : ℕ) (w : String) (token : ℕ) (rows : List Invocation)
    → any (has_id i) rows ≡ false
    → find (is_held i w token) rows ≡ none
no_id-no_holder i w token [] h = refl
no_id-no_holder i w token (x ∷ rest) h = ground (arith, no_id-no_holder i w token rest)

abbrev if_held : ℕ → String → ℕ → Option Invocation → Option Invocation
if_held i w token none = none
if_held i w token (some r) = if is_held i w token r then some r else none

-- Under different ids, the row that a worker holds is the row of the id, if that one is held.
find-is_held :
    (i : ℕ) (w : String) (token : ℕ) (rows : List Invocation)
    → Distinct rows
    → find (is_held i w token) rows ≡ if_held i w token (row_at i rows)
find-is_held i w token [] d = refl
find-is_held i w token (x ∷ rest) d = elim (Bool-cases (has_id i x)) [
  | inl hit ↦
      let alone : find (is_held i w token) rest ≡ none =
        no_id-no_holder i w token rest (rw (← same hit) d.0) in
      ground arith
  | inr miss ↦ ground (arith, find-is_held i w token rest d.1)
]
  where
    same : has_id i x ≡ true → x.invocation_id ≡ i
    same hit = ground arith

-- A heartbeat of a row that exists, under different ids: the current holder of a running row is
-- told whether a cancel was requested, and the row's heartbeat is set to the present instant, with
-- nothing else of it changed; anyone else gets an ownership error, and the row stays as it was.
pub heartbeat_branches :
    (now i : ℕ) (w : String) (token : ℕ) (db : Db) (r : Invocation)
    → Distinct db.invocations
    → row_at i db.invocations ≡ some r
    → (is_held i w token r ≡ true
        → ((heartbeat_invocation now i w token db).0 ≡ ok r.cancel_requested)
          × (row_at i (heartbeat_invocation now i w token db).1.invocations ≡ some (beaten now r)))
      × (is_held i w token r ≡ false
          → ((heartbeat_invocation now i w token db).0 ≡ err invocation_ownership_mismatch)
            × ((heartbeat_invocation now i w token db).1 ≡ db))
unfolding heartbeat_invocation
heartbeat_branches now i w token db r d at = (
  λ h. rw (find-is_held i w token db.invocations d) (
      rw at (
        rw h (
          refl,
          rw
              (find-update_rows (has_id i) (is_held i w token) (beaten now) db.invocations
                (λ a. refl))
              (rw at (rw h refl)),
        ))),
  λ h. rw (find-is_held i w token db.invocations d) (rw at (rw h (refl, refl))),
)

-- What the request does to the row, by the row's state.
cancellation_of_queued :
    (now i : ℕ) (r : Invocation)
    → is_queued r ≡ true
    → ok (cancellation i (cancel_row now r))
      ≡ ok (
          some (record {
            invocation_id = i;
            status = canceled;
            exit_code = some (pos 130);
            error = some "invocation canceled";
          }))
unfolding cancel_row
cancellation_of_queued now i r q = ground arith

cancel_row_queued :
    (now : ℕ) (r : Invocation)
    → is_queued r ≡ true
    → ((cancel_row now r).status ≡ canceled) × ((cancel_row now r).completed_at ≡ some now)
unfolding cancel_row
cancel_row_queued now r q = rw q (refl, refl)

cancellation_of_held :
    (now i : ℕ) (w : String) (token : ℕ) (r : Invocation)
    → is_held i w token r ≡ true
    → ok (cancellation i (cancel_row now r)) ≡ ok none
unfolding cancel_row
cancellation_of_held now i w token r h = ground arith

cancel_row_held :
    (now i : ℕ) (w : String) (token : ℕ) (r : Invocation)
    → is_held i w token r ≡ true
    → (is_held i w token (cancel_row now r) ≡ true) × ((cancel_row now r).cancel_requested ≡ true)
unfolding cancel_row
cancel_row_held now i w token r h = ground arith

cancel_row_stopped : (now : ℕ) (r : Invocation) → is_running r.status ≡ false → cancel_row now r ≡ r
unfolding cancel_row
cancel_row_stopped now r h = rw h refl

canceled_row :
    (now i : ℕ) (db : Db) (r : Invocation)
    → row_at i db.invocations ≡ some r
    → row_at i (request_cancel_invocation now i db).1.invocations ≡ some (cancel_row now r)
unfolding request_cancel_invocation
canceled_row now i db r at = rw at (
    rw (find-update_rows (has_id i) (has_id i) (cancel_row now) db.invocations (λ a. refl))
      (rw at (rw (find-eq-some (has_id i) db.invocations at).1 refl)))

-- A cancel request for a row that exists, under different ids. A queued row (running, unclaimed)
-- becomes canceled with exit code 130 at once, and is reported. A claimed running row stays
-- running and nothing is reported, but whoever holds it learns of the request with the next
-- heartbeat. A row that is not running stays as it was.
pub cancel_branches :
    (now i : ℕ) (db : Db) (r : Invocation)
    → Distinct db.invocations
    → row_at i db.invocations ≡ some r
    → (is_queued r ≡ true
        → ((request_cancel_invocation now i db).0
            ≡ ok (
                some (record {
                  invocation_id = i;
                  status = canceled;
                  exit_code = some (pos 130);
                  error = some "invocation canceled";
                })))
          × ((r' : Invocation) × (row_at i (request_cancel_invocation now i db).1.invocations
                ≡ some r')
              × (r'.status ≡ canceled)
              × (r'.completed_at ≡ some now)))
      × ((later token : ℕ) (w : String)
          → is_held i w token r ≡ true
          → ((request_cancel_invocation now i db).0 ≡ ok none)
            × ((heartbeat_invocation later i w token (request_cancel_invocation now i db).1).0
                ≡ ok true))
      × (is_running r.status ≡ false
          → row_at i (request_cancel_invocation now i db).1.invocations ≡ some r)
unfolding request_cancel_invocation
cancel_branches now i db r d at = (
  λ q. (
    rw at (cancellation_of_queued now i r q),
    (
      cancel_row now r,
      canceled_row now i db r at,
      (cancel_row_queued now r q).0,
      (cancel_row_queued now r q).1,
    ),
  ),
  λ later token w h. (
    rw at (cancellation_of_held now i w token r h),
    cc (
      ((heartbeat_branches later i w token (request_cancel_invocation now i db).1 (cancel_row now r)
            (Distinct-cancel now i db d) (canceled_row now i db r at)).0
          (cancel_row_held now i w token r h).0).0,
      (cancel_row_held now i w token r h).1,
    ),
  ),
  λ stopped. cc (canceled_row now i db r at, cancel_row_stopped now r stopped),
)

not_held :
    (i : ℕ) (w : String) (token : ℕ) (r r' : Invocation)
    → is_terminal r.status ≡ true
    → r'.status ≡ r.status
    → if_held i w token (some r') ≡ none
not_held i w token r r' t same = ground arith

any-find : (p : Invocation → Bool) (rows : List Invocation) → any p rows ≡ is_some (find p rows)
any-find p [] = refl
any-find p (x ∷ rest) = ground (arith, any-find p rest)

-- Once an invocation under different ids is terminal, then after every run of the calls in `Op`
-- that creates no row of its id a heartbeat of it is refused, for every worker and token, and so is
-- the look-up that opens a completion: with an ownership error while the row is there, and as
-- unknown after it was cleaned up.
pub terminal_is_fenced :
    (i : ℕ) (db : Db) (r : Invocation) (ops : List (ℕ × Op)) (now : ℕ) (w : String) (token : ℕ)
    → Distinct db.invocations
    → row_at i db.invocations ≡ some r
    → is_terminal r.status ≡ true
    → NeverCreates i ops
    → ((heartbeat_invocation now i w token (run ops db)).0 ≡ err invocation_ownership_mismatch)
      × (get_invocation_persistence_for_completion i w token (run ops db).invocations ≡ (
          if is_some (row_at i (run ops db).invocations)
          then err invocation_ownership_mismatch
          else err (invocation_not_found i)))
unfolding heartbeat_invocation get_invocation_persistence_for_completion
terminal_is_fenced i db r ops now w token d at t n =
    let none_holds : find (is_held i w token) (run ops db).invocations ≡ none =
      elim (Option-cases (row_at i (run ops db).invocations)) [
        | inl gone ↦
            rw (find-is_held i w token (run ops db).invocations (run-Distinct ops db d))
              (rw gone refl)
        | inr (r', at') ↦
            rw (find-is_held i w token (run ops db).invocations (run-Distinct ops db d)) (
              rw at'
                (not_held i w token r r' t (terminal_is_final i db r r' ops d at t n at').status))
      ] in
    rw none_holds (refl, rw (any-find (has_id i) (run ops db).invocations) refl)
