-- ===== src/Invocation/History.antt =====
-- What no run of the operations undoes: the schema's constraint, a claim, a terminal status.
use dbtx.Prelude.{
  ℕ, String, Bool, true, false, ◌≡◌, ◌≢◌, refl, some, List, [], ◌∷◌, arith, is_none, find-eq-some,
  All, All-Elem, All-of_Elem, ap, update_rows, if◌then◌else◌,
}
use dbtx.Invocation.{Db, Invocation, is_running, is_terminal}
use dbtx.Invocation.Queue.{new_row, has_id, claimed, ClaimResponse}
use dbtx.Invocation.Cancel.{cancel_row}
use dbtx.Invocation.Ops.{
  Op, create, claim_next, heartbeat, request_cancel, reconcile_timed_out, cleanup, append_event,
  run, Poll, poll, NeverCreates,
}
use dbtx.Invocation.Row.{
  IsConsistent, Distinct, Distinct-unique, row_at, new_row-IsConsistent, claimed-IsConsistent,
  beaten-IsConsistent, cancel_row-IsConsistent, failed_row-IsConsistent, numbered-IsConsistent,
}
use dbtx.Invocation.Claiming.{claim_something}
use dbtx.Invocation.Stable.{IsStable, claim_guard}
use dbtx.Invocation.Runs.{Distinct-claim, run-Distinct, run-All, CreatesAll}

IsConsistent-stable : IsStable IsConsistent
IsConsistent-stable = record {
  at_claim = λ now token w r h _ c. claimed-IsConsistent now token w r h c;
  at_beat = λ now r _ h c. beaten-IsConsistent now r h c;
  at_cancel = λ now r c. cancel_row-IsConsistent now r c;
  at_failure = λ now message r _ c. failed_row-IsConsistent now message r c;
  at_event = λ r c. numbered-IsConsistent r c;
}

CreatesAll-IsConsistent : (ops : List (ℕ × Op)) → CreatesAll IsConsistent ops
CreatesAll-IsConsistent [] = tt
CreatesAll-IsConsistent ((now, create input) ∷ rest) =
    (new_row-IsConsistent now input, CreatesAll-IsConsistent rest)
CreatesAll-IsConsistent ((now, claim_next _ _ _ _ _) ∷ rest) = (tt, CreatesAll-IsConsistent rest)
CreatesAll-IsConsistent ((now, heartbeat _ _ _) ∷ rest) = (tt, CreatesAll-IsConsistent rest)
CreatesAll-IsConsistent ((now, request_cancel _) ∷ rest) = (tt, CreatesAll-IsConsistent rest)
CreatesAll-IsConsistent ((now, reconcile_timed_out _ _) ∷ rest) = (tt, CreatesAll-IsConsistent rest)
CreatesAll-IsConsistent ((now, cleanup _) ∷ rest) = (tt, CreatesAll-IsConsistent rest)
CreatesAll-IsConsistent ((now, append_event _ _) ∷ rest) = (tt, CreatesAll-IsConsistent rest)

-- From tables whose rows are consistent and have different ids, every run of the calls in `Op`, a
-- completion not among them, leads to such tables: a row holds a lease exactly while it is running
-- and claimed, a completion time and an exit code exactly when it is not running, claim and
-- heartbeat times exactly when it was claimed, and a cancel time exactly when a cancel was
-- requested.
pub run-IsConsistent :
    (ops : List (ℕ × Op)) (db : Db)
    → Distinct db.invocations
    → All IsConsistent db.invocations
    → Distinct (run ops db).invocations × All IsConsistent (run ops db).invocations
run-IsConsistent ops db d h =
    (run-Distinct ops db d, run-All IsConsistent-stable ops db d (CreatesAll-IsConsistent ops) h)

-- A property of the rows of one id is kept if what creates no such row is kept.
abbrev OfId : ℕ → (Invocation → Type 0) → Invocation → Type 0
OfId i P r = has_id i r ≡ true → P r

CreatesAll-OfId :
    (i : ℕ) (P : Invocation → Type 0) (ops : List (ℕ × Op))
    → NeverCreates i ops
    → CreatesAll (OfId i P) ops
CreatesAll-OfId i P [] n = tt
CreatesAll-OfId i P ((now, create input) ∷ rest) n =
    (λ hit. absurd (n.0 (id_of_new hit)), CreatesAll-OfId i P rest n.1)
  where
    id_of_new : has_id i (new_row now input) ≡ true → input.invocation_id ≡ i
    id_of_new hit = ground arith
CreatesAll-OfId i P ((now, claim_next _ _ _ _ _) ∷ rest) n = (tt, CreatesAll-OfId i P rest n)
CreatesAll-OfId i P ((now, heartbeat _ _ _) ∷ rest) n = (tt, CreatesAll-OfId i P rest n)
CreatesAll-OfId i P ((now, request_cancel _) ∷ rest) n = (tt, CreatesAll-OfId i P rest n)
CreatesAll-OfId i P ((now, reconcile_timed_out _ _) ∷ rest) n = (tt, CreatesAll-OfId i P rest n)
CreatesAll-OfId i P ((now, cleanup _) ∷ rest) n = (tt, CreatesAll-OfId i P rest n)
CreatesAll-OfId i P ((now, append_event _ _) ∷ rest) n = (tt, CreatesAll-OfId i P rest n)

abbrev IsTaken : Invocation → Type 0
IsTaken r = is_none r.claimed_by ≡ false

IsTaken-stable : (i : ℕ) → IsStable (OfId i IsTaken)
unfolding cancel_row
IsTaken-stable i = record {
  at_claim = λ now token w r _ _ h hit. refl;
  at_beat = λ now r _ _ h hit. h hit;
  at_cancel = λ now r h hit. h hit;
  at_failure = λ now message r _ h hit. h hit;
  at_event = λ r h hit. h hit;
}

-- What a terminal row keeps.
pub record SameOutcome (a b : Invocation) : Type 0 where
  pub status : b.status ≡ a.status
  pub exit_code : b.exit_code ≡ a.exit_code
  pub error : b.error ≡ a.error
  pub completed_at : b.completed_at ≡ a.completed_at
  pub claimed_by : b.claimed_by ≡ a.claimed_by

not_both :
    (r a : Invocation)
    → is_terminal r.status ≡ true
    → is_running a.status ≡ true
    → SameOutcome r a
    → ⊥
not_both r a t run' same = ground arith

SameOutcome-cancel_row :
    (now : ℕ) (r a : Invocation)
    → is_terminal r.status ≡ true
    → SameOutcome r a
    → SameOutcome r (cancel_row now a)
unfolding cancel_row
SameOutcome-cancel_row now r a t same = ground arith

SameOutcome-stable :
    (i : ℕ) (r : Invocation) → is_terminal r.status ≡ true → IsStable (OfId i (SameOutcome r))
unfolding cancel_row
SameOutcome-stable i r t = record {
  at_claim = λ now token w a run' _ h hit. absurd (not_both r a t run' (h hit));
  at_beat = λ now a run' _ h hit. absurd (not_both r a t run' (h hit));
  at_cancel = λ now a h hit. SameOutcome-cancel_row now r a t (h hit);
  at_failure = λ now message a run' h hit. absurd (not_both r a t run' (h hit));
  at_event = λ a h hit.
      let same = h hit in
      record {
        status = same.status;
        exit_code = same.exit_code;
        error = same.error;
        completed_at = same.completed_at;
        claimed_by = same.claimed_by;
      };
}

-- The rows of one id, when there is one of them.
All-OfId :
    (i : ℕ) (P : Invocation → Type 0) (rows : List Invocation) (r : Invocation)
    → Distinct rows
    → row_at i rows ≡ some r
    → P r
    → All (OfId i P) rows
All-OfId i P rows r d at h = All-of_Elem (OfId i P) rows λ a m hit.
    let same : row_at i rows ≡ some a = Distinct-unique rows i a d m (ground arith) in
    let e : a ≡ r = cc (same, at) in rw e h

-- When a run of the calls in `Op`, a completion not among them, starts at a table of different ids,
-- an invocation that has succeeded, failed or been canceled, and whose id the run does not create
-- again, still has its status, exit code, error, completion time and claimant at the end, if its
-- row is still there.
pub terminal_is_final :
    (i : ℕ) (db : Db) (r r' : Invocation) (ops : List (ℕ × Op))
    → Distinct db.invocations
    → row_at i db.invocations ≡ some r
    → is_terminal r.status ≡ true
    → NeverCreates i ops
    → row_at i (run ops db).invocations ≡ some r'
    → SameOutcome r r'
terminal_is_final i db r r' ops d at t n at' =
    let kept =
      run-All (SameOutcome-stable i r t) ops db d (CreatesAll-OfId i (SameOutcome r) ops n) (
        All-OfId i (SameOutcome r) db.invocations r d at (record {
          status = refl;
          exit_code = refl;
          error = refl;
          completed_at = refl;
          claimed_by = refl;
        })) in
    let (m, hit) = find-eq-some (has_id i) (run ops db).invocations at' in
    All-Elem (OfId i (SameOutcome r)) (run ops db).invocations kept r' m hit

All-update_hit :
    (i : ℕ) (now token : ℕ) (w : String) (rows : List Invocation)
    → All (OfId i IsTaken) (update_rows (has_id i) (claimed now token w) rows)
All-update_hit i now token w [] = tt
All-update_hit i now token w (x ∷ rest) = (go (has_id i x) refl, All-update_hit i now token w rest)
  where
    go : (b : Bool) → has_id i x ≡ b → OfId i IsTaken (if b then claimed now token w x else x)
    go true e hit = refl
    go false e hit = cc (e, hit)

Taken-claim :
    (p : Poll) (db : Db) (c : ClaimResponse)
    → Distinct db.invocations
    → (poll p db).0 ≡ some c
    → All (OfId c.invocation_id IsTaken) (poll p db).1.invocations
Taken-claim p db c d h =
    let (r, m, fits, first, answer, rows) =
      claim_something p.now p.token p.locked p.worker_id p.mode p.queues db c h in
    rw rows (rw answer (All-update_hit r.invocation_id p.now p.token p.worker_id db.invocations))

-- When a poll returns a claim from a table of different ids, no later poll returns a claim of the
-- same invocation, whatever calls of `Op` run between them, as long as none creates a row of that
-- id.
pub claimed_once :
    (p q : Poll) (db : Db) (c c' : ClaimResponse) (ops : List (ℕ × Op))
    → Distinct db.invocations
    → (poll p db).0 ≡ some c
    → NeverCreates c.invocation_id ops
    → (poll q (run ops (poll p db).1)).0 ≡ some c'
    → c'.invocation_id ≢ c.invocation_id
claimed_once p q db c c' ops d h n h' same =
    let db' = (poll p db).1 in
    let after = Distinct-claim p.now p.token p.locked p.worker_id p.mode p.queues db d in
    let taken =
      run-All (IsTaken-stable c.invocation_id) ops db' after
        (CreatesAll-OfId c.invocation_id IsTaken ops n) (Taken-claim p db c d h) in
    let (r, m, fits, first, answer, rows) =
      claim_something q.now q.token q.locked q.worker_id q.mode q.queues (run ops db') c' h' in
    let free = claim_guard q.now q.locked q.mode q.queues r fits in
    let busy =
      All-Elem (OfId c.invocation_id IsTaken) (run ops db').invocations taken r m
        (ground (arith, ap (λ (x : ClaimResponse). x.invocation_id) answer)) in
    cc (free.1, busy)
