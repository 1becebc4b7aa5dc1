-- ===== src/Invocation/Claimed.antt =====
-- src/db/invocations.rs: what a poll that returns a claim has taken, column by column.
use dbtx.Prelude.{
  ℕ, ◌≤◌, ◌<◌, String, true, false, ◌≡◌, ◌↔◌, ◌≢◌, ◌⊎◌, inl, inr, refl, ◌∙◌, Option, none, some,
  List, nat_eq, string_eq, arith, Elem, is_some, is_none, none_or, contains_iff, eq_self,
  update_rows, find-update_rows, find-eq-some, Option-cases, leb, if◌then◌else◌,
}
use mathlib.Core.Option
use dbtx.Status.LifecycleStatus.{LifecycleStatus, running}
use dbtx.Status.ExecutionMode.{ExecutionMode, mode_beq, server, local}
use dbtx.Invocation.{Db, Invocation, is_running}
use dbtx.Invocation.Queue.{
  has_id, comes_before, is_claimable, is_candidate, claimed, claim_next_invocation, ClaimResponse,
}
use dbtx.Invocation.Claiming.{claim_something}
use dbtx.Invocation.Row.{Distinct, Distinct-unique, row_at}

-- A row that waits for a worker with the mode and the queues, and that no other transaction holds.
abbrev pub IsFree : ℕ → List ℕ → Option ExecutionMode → List String → Invocation → Type 0
IsFree now locked mode queues r =
    (r.status ≡ running)
    × (r.claimed_by ≡ none)
    × (r.execution_spec ≢ none)
    × Elem r.worker_queue queues
    × ((m : ExecutionMode) → mode ≡ some m → r.execution_mode ≡ m)
    × ((deadline : ℕ) → r.claim_deadline_at ≡ some deadline → now ≤ deadline)
    × (Elem r.invocation_id locked → ⊥)

-- The mode test of a poll, and its deadline test.
mode_iff :
    (mode : Option ExecutionMode) (n : ExecutionMode)
    → (none_or (λ m. mode_beq n m) mode ≡ true) ↔ ((m : ExecutionMode) → mode ≡ some m → n ≡ m)
mode_iff none n = (λ h m e. absurd (cc e), λ h. refl)
mode_iff (some server) server = (λ h m e. cc e, λ h. refl)
mode_iff (some local) local = (λ h m e. cc e, λ h. refl)
mode_iff (some server) local = (λ h. absurd (cc h), λ h. absurd (cc (h server refl)))
mode_iff (some local) server = (λ h. absurd (cc h), λ h. absurd (cc (h local refl)))

deadline_iff :
    (now : ℕ) (o : Option ℕ)
    → (none_or (λ t. leb now t) o ≡ true) ↔ ((t : ℕ) → o ≡ some t → now ≤ t)
deadline_iff now none = (λ h t e. absurd (cc e), λ h. refl)
deadline_iff now (some d) = (λ h t e. ground (arith, e), λ h. let le = h d refl in ground arith)

running_iff : (s : LifecycleStatus) → (is_running s ≡ true) ↔ (s ≡ running)
running_iff s = ground arith

some_iff : {A : Type 0} (o : Option A) → (is_some o ≡ true) ↔ (o ≢ none)
some_iff none = (λ h. absurd (cc h), λ h. absurd (h refl))
some_iff (some a) = (λ h e. cc e, λ h. refl)

none_iff : {A : Type 0} (o : Option A) → (is_none o ≡ true) ↔ (o ≡ none)
none_iff none = (λ h. refl, λ h. refl)
none_iff (some a) = (λ h. absurd (cc h), λ h. absurd (cc h))

IsFree-iff :
    (now : ℕ) (locked : List ℕ) (mode : Option ExecutionMode) (queues : List String)
    (r : Invocation)
    → (is_candidate now locked mode queues r ≡ true) ↔ IsFree now locked mode queues r
unfolding is_claimable
IsFree-iff now locked mode queues r = ground (
  arith,
  running_iff r.status,
  some_iff r.execution_spec,
  none_iff r.claimed_by,
  contains_iff r.worker_queue queues,
  mode_iff mode r.execution_mode,
  deadline_iff now r.claim_deadline_at,
  contains_iff r.invocation_id locked,
)

comes_before_iff :
    (a b : Invocation)
    → comes_before a b ≡ true
    → (a.started_at < b.started_at)
      ⊎ ((a.started_at ≡ b.started_at) × (a.invocation_id ≤ b.invocation_id))
comes_before_iff a b h = ground arith

-- A poll that returns a claim, over rows of different ids. The row that it names was running, without
-- a worker, with an execution spec, in one of the queues, of the mode when one is asked for, not past
-- its claim deadline and not held by another transaction. Every other such row started later, or at
-- the same instant and with a larger id. Afterwards the row has the worker, the token and
-- the present instant as its claim and its heartbeat and is otherwise as it was, and every row of
-- another id is as it was.
pub claim_takes_earliest :
    (now token : ℕ) (locked : List ℕ) (w : String) (mode : Option ExecutionMode)
    (queues : List String) (db : Db) (c : ClaimResponse)
    → Distinct db.invocations
    → (claim_next_invocation now token locked w mode queues db).0 ≡ some c
    → (r : Invocation) × Elem r db.invocations
      × IsFree now locked mode queues r
      × ((a : Invocation)
          → Elem a db.invocations
          → IsFree now locked mode queues a
          → (r.started_at < a.started_at)
            ⊎ ((r.started_at ≡ a.started_at) × (r.invocation_id ≤ a.invocation_id)))
      × ((c.invocation_id ≡ r.invocation_id)
          × (c.worker_id ≡ w)
          × (c.lease_token ≡ token)
          × (c.execution_mode ≡ r.execution_mode)
          × (c.execution_spec ≡ r.execution_spec))
      × (row_at r.invocation_id
            (claim_next_invocation now token locked w mode queues db).1.invocations
          ≡ some (record r {
            claimed_by = some w;
            lease_token = some token;
            claimed_at = some now;
            last_heartbeat_at = some now;
          }))
      × ((i : ℕ)
          → i ≢ r.invocation_id
          → row_at i (claim_next_invocation now token locked w mode queues db).1.invocations
            ≡ row_at i db.invocations)
claim_takes_earliest now token locked w mode queues db c distinct h =
    let (r, m, fits, first, answer, rows) = claim_something now token locked w mode queues db c h in
    let there = Distinct-unique db.invocations r.invocation_id r distinct m refl in
    let mine : row_at r.invocation_id db.invocations ≡ some r = there in
    (
      r,
      m,
      (IsFree-iff now locked mode queues r).0 fits,
      (λ a at free.
          comes_before_iff r a (first a at ((IsFree-iff now locked mode queues a).1 free))),
      rw answer (refl, refl, refl, refl, refl),
      rw rows (
          row_after r.invocation_id r.invocation_id db.invocations
          ∙ rw mine (rw (eq_self r.invocation_id) refl)),
      (λ i other. rw rows (
          row_after i r.invocation_id db.invocations
          ∙ unmoved i r.invocation_id db.invocations other)),
    )
  where
    taken : ℕ → Invocation → Invocation
    taken j a = if has_id j a then claimed now token w a else a

    row_after :
        (i j : ℕ) (rows : List Invocation)
        → row_at i (update_rows (has_id j) (claimed now token w) rows)
          ≡ Option.map (taken j) (row_at i rows)
    row_after i j rows = find-update_rows (has_id i) (has_id j) (claimed now token w) rows λ a. refl

    unmoved :
        (i j : ℕ) (rows : List Invocation)
        → i ≢ j
        → Option.map (taken j) (row_at i rows) ≡ row_at i rows
    unmoved i j rows other = elim (Option-cases (row_at i rows)) [
      | inl missing ↦ rw missing refl
      | inr (a, at) ↦
          let own : a.invocation_id ≡ i = ground (arith, find-eq-some (has_id i) rows at) in
          let miss : has_id j a ≡ false = ground (arith, own, other) in rw at (rw miss refl)
    ]
