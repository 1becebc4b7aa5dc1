-- ===== src/Plan/Progress.antt =====
-- What the statements on plan rows do, on every branch.
use dbtx.Prelude.{
  is_blank, length, where_rows, coalesce, ◌∙◌, ℕ, ◌+◌, ◌*◌, ◌≤◌, String, Bool, true, false, ◌&&◌,
  not, ◌≡◌, ◌≢◌, refl, ap, Option, none, some, List, [], ◌∷◌, ◌==◌, nat_eq, arith, inl, inr,
  if◌then◌else◌, find, find-update_rows, find-eq-some, All, Elem, Elem-append, eq_self, any,
  update_rows, Bool-cases,
}
use dbtx.Error.{ok, err, sqlx}
use dbtx.Status.PlanStatus.{admitted, completed, failed, canceled, is_terminal}
use dbtx.Invocation.Queue.{has_id}
use dbtx.Status.LifecycleStatus.{LifecycleStatus}
use dbtx.Invocation.Deadline.{second}
use dbtx.Plan.{EnvironmentRunPlan, ActualState, PlanDb}
use dbtx.Plan.Lifecycle.{
  is_plan, is_pending, is_admissible_or_admitted, is_superseded_by, superseded_row, superseded_db,
  supersede_pending_environment_run_plans, automatic_retry_backoff,
}
use dbtx.Plan.Backoff.{backoff_bounds}
use dbtx.Plan.Outcome.{
  admit_row, admitted_db, mark_environment_run_plan_admitted, finished_row,
  complete_environment_run_plan, outcome_status, is_success, is_scope, upsert_state, with_admitted,
  blank_state,
}

abbrev pub plan_at : ℕ → List EnvironmentRunPlan → Option EnvironmentRunPlan
plan_at i = find (is_plan i)

abbrev pub is_live_in : ℕ → ℕ → EnvironmentRunPlan → Bool
is_live_in p e r = r.project_id == p && r.environment_id == e && is_pending r.status

-- What the statement does to a row.
abbrev superseding : ℕ → ℕ → ℕ → ℕ → EnvironmentRunPlan → EnvironmentRunPlan
superseding now p e by r = if is_superseded_by p e by r then superseded_row now by r else r

superseding_settles :
    (now p e by : ℕ) (r : EnvironmentRunPlan)
    → is_live_in p e (superseding now p e by r) ≡ true
    → (superseding now p e by r).plan_id ≡ by
superseding_settles now p e by r h = ground arith

pub All-superseding :
    (now p e by : ℕ) (rows : List EnvironmentRunPlan)
    → All
        (λ r. is_live_in p e r ≡ true → r.plan_id ≡ by)
        (update_rows (is_superseded_by p e by) (superseded_row now by) rows)
All-superseding now p e by [] = tt
All-superseding now p e by (r ∷ rest) =
    (superseding_settles now p e by r, All-superseding now p e by rest)

pub plan_at-update_rows :
    (i : ℕ) (q : EnvironmentRunPlan → Bool) (f : EnvironmentRunPlan → EnvironmentRunPlan)
    (rows : List EnvironmentRunPlan) (r : EnvironmentRunPlan)
    → ((a : EnvironmentRunPlan) → (f a).plan_id ≡ a.plan_id)
    → plan_at i rows ≡ some r
    → plan_at i (update_rows q f rows) ≡ some (if q r then f r else r)
plan_at-update_rows i q f rows r keep at =
    rw (find-update_rows (is_plan i) q f rows (λ a. ap (λ j. j == i) (keep a))) (rw at refl)

no_update :
    (q : EnvironmentRunPlan → Bool) (f : EnvironmentRunPlan → EnvironmentRunPlan)
    (rows : List EnvironmentRunPlan)
    → any q rows ≡ false
    → update_rows q f rows ≡ rows
no_update q f [] h = refl
no_update q f (r ∷ rest) h = elim (Bool-cases (q r)) [
  | inl hit ↦ absurd (cc (rw hit at h))
  | inr miss ↦ rw miss (ap (λ rows. r ∷ rows) (no_update q f rest (rw miss at h)))
]

-- What is pending and not the plan itself is what the statement updates.
same_test :
    (p e by : ℕ) (r : EnvironmentRunPlan)
    → is_superseded_by p e by r ≡ (is_live_in p e r && not (r.plan_id == by))
same_test p e by r = ground arith

any-same_test :
    (p e by : ℕ) (rows : List EnvironmentRunPlan)
    → any (is_plan by) rows ≡ false
    → any (is_superseded_by p e by) rows ≡ any (is_live_in p e) rows
any-same_test p e by [] h = refl
any-same_test p e by (r ∷ rest) h = ground (arith, same_test p e by r, any-same_test p e by rest)

pub supersede_returns :
    (now p e by : ℕ) (db : PlanDb)
    → any (is_plan by) db.plans ≡ true
    → supersede_pending_environment_run_plans now p e by db
      ≡ ok (length (where_rows (is_superseded_by p e by) db.plans), superseded_db now p e by db)
unfolding supersede_pending_environment_run_plans
supersede_returns now p e by db there =
    rw there (never (any (is_superseded_by p e by) db.plans) _ _)
  where
    never : {A : Type 0} (b : Bool) (x y : A) → (if b && not true then x else y) ≡ y
    never true x y = refl
    never false x y = refl

-- Superseding the pending plans of an environment by a plan. When that plan is in the table, no other
-- plan of the environment is planned or blocked afterwards: a row that was not pending, is of another
-- environment, or is the new plan itself stays as it was, and each other one is superseded and names
-- the new plan. When it is not in the table, the statement fails if a plan of the environment is
-- pending, and changes nothing if none is.
pub supersede_leaves_one :
    (now p e by : ℕ) (db : PlanDb)
    → (any (is_plan by) db.plans ≡ true
        → (n : ℕ) × (db' : PlanDb) × (supersede_pending_environment_run_plans now p e by db
            ≡ ok (n, db'))
          × All (λ r. is_live_in p e r ≡ true → r.plan_id ≡ by) db'.plans
          × ((i : ℕ) (r : EnvironmentRunPlan)
              → plan_at i db.plans ≡ some r
              → plan_at i db'.plans
                ≡ some (
                    if is_live_in p e r && not (r.plan_id == by)
                    then superseded_row now by r
                    else r)))
      × (any (is_plan by) db.plans ≡ false
          → any (is_live_in p e) db.plans ≡ true
          → supersede_pending_environment_run_plans now p e by db ≡ err sqlx)
      × (any (is_plan by) db.plans ≡ false
          → any (is_live_in p e) db.plans ≡ false
          → (n : ℕ) × (supersede_pending_environment_run_plans now p e by db ≡ ok (n, db)))
unfolding supersede_pending_environment_run_plans
supersede_leaves_one now p e by db = (
  λ there. (
    _,
    superseded_db now p e by db,
    supersede_returns now p e by db there,
    All-superseding now p e by db.plans,
    λ i r at. cc (
      plan_at-update_rows i (is_superseded_by p e by) (superseded_row now by) db.plans r (λ a. refl)
          at,
      same_test p e by r,
    ),
  ),
  λ absent live. rw (any-same_test p e by db.plans absent ∙ live) (rw absent refl),
  λ absent idle.
      let none' = any-same_test p e by db.plans absent ∙ idle in
      rw none' (
        _,
        ap
            (λ rows.
              ok (
                length (where_rows (is_superseded_by p e by) db.plans),
                record db { plans = rows },
              ))
            (no_update (is_superseded_by p e by) (superseded_row now by) db.plans none'),
      ),
)

-- Completing a plan that exists. A success makes it completed, with no error, no failures counted
-- and no next attempt. Every other outcome makes it canceled when it is a cancel and failed when it is
-- not, with the message given or else the error it had, counts one failure more, and sets the next
-- attempt between 5 and 300 seconds from now.
pub complete_branches :
    (now i : ℕ) (s : LifecycleStatus) (message : Option String) (db : PlanDb)
    (r : EnvironmentRunPlan)
    → plan_at i db.plans ≡ some r
    → (q : EnvironmentRunPlan) × (plan_at i (complete_environment_run_plan now i s message db).plans
        ≡ some q)
      × (is_terminal q.status ≡ true)
      × (is_success s ≡ true
          → (q.status ≡ completed)
            × (q.error ≡ none)
            × (q.failure_count ≡ 0)
            × (q.next_attempt_at ≡ none))
      × (is_success s ≡ false
          → (s ≡ LifecycleStatus.canceled → q.status ≡ canceled)
            × (s ≢ LifecycleStatus.canceled → q.status ≡ failed)
            × (q.error ≡ coalesce message r.error)
            × (q.failure_count ≡ r.failure_count + 1)
            × ((t : ℕ) × (q.next_attempt_at ≡ some t)
                × (now + 5 * second ≤ t)
                × (t ≤ now + 300 * second)))
unfolding complete_environment_run_plan finished_row
complete_branches now i s message db r at =
    let delay = backoff_bounds (r.failure_count + 1) (r.failure_count + 1) (omega arith) in
    (
      finished_row now s message r,
      rw at (
          rw
            (plan_at-update_rows i (is_plan i) (finished_row now s message) db.plans r (λ a. refl)
              at)
            (rw (find-eq-some (is_plan i) db.plans at).1 refl)),
      outcome_is_terminal s,
      λ h. rw h (success_completes s h, refl, refl, refl),
      λ h. rw h (
        (λ e. rw e refl),
        failed_if_not_canceled s h,
        refl,
        refl,
        (now + automatic_retry_backoff (r.failure_count + 1), refl, omega arith, omega arith),
      ),
    )
  where
    outcome_is_terminal : (s : LifecycleStatus) → is_terminal (outcome_status s) ≡ true
    outcome_is_terminal s = ground arith

    success_completes : (s : LifecycleStatus) → is_success s ≡ true → outcome_status s ≡ completed
    success_completes s h = ground arith

    failed_if_not_canceled :
        (s : LifecycleStatus)
        → is_success s ≡ false
        → s ≢ LifecycleStatus.canceled
        → outcome_status s ≡ failed
    failed_if_not_canceled LifecycleStatus.succeeded h other = absurd (cc h)
    failed_if_not_canceled LifecycleStatus.failed h other = refl
    failed_if_not_canceled LifecycleStatus.canceled h other = absurd (other refl)
    failed_if_not_canceled LifecycleStatus.running h other = refl

updated_state :
    (now i : ℕ) (r : EnvironmentRunPlan) (states : List ActualState)
    → any (is_scope r.project_id r.environment_id) states ≡ true
    → (state : ActualState) × Elem state
        (update_rows (is_scope r.project_id r.environment_id) (with_admitted now i) states)
      × (is_scope r.project_id r.environment_id state ≡ true)
      × (state.last_admitted_plan_id ≡ some i)
updated_state now i r [] h = cc
updated_state now i r (x ∷ rest) h = elim (Bool-cases (is_scope r.project_id r.environment_id x)) [
  | inl hit ↦ (with_admitted now i x, inl (rw hit refl), hit, refl)
  | inr miss ↦
      let (state, m, scope, named) = updated_state now i r rest (rw miss at h) in
      (state, inr m, scope, named)
]

upserted_state :
    (now i : ℕ) (r : EnvironmentRunPlan) (states : List ActualState)
    → (state : ActualState) × Elem state (upsert_state now (with_admitted now i) r states)
      × (is_scope r.project_id r.environment_id state ≡ true)
      × (state.last_admitted_plan_id ≡ some i)
upserted_state now i r states =
    elim (Bool-cases (any (is_scope r.project_id r.environment_id) states)) [
      | inl there ↦ rw there (updated_state now i r states there)
      | inr new' ↦ rw new' (
        with_admitted now i (blank_state now r.project_id r.environment_id),
        (Elem-append _ states _).1 (inr (inl refl)),
        rw (eq_self r.project_id) (eq_self r.environment_id),
        refl,
      )
    ]

-- What an admission leaves, with the row that it returns: the plan has that row, and the environment's
-- state names the plan as the last one admitted.
abbrev pub IsAdmission : ℕ → EnvironmentRunPlan → EnvironmentRunPlan → PlanDb → Type 0
IsAdmission i r q db' =
    (plan_at i db'.plans ≡ some q)
    × ((state : ActualState) × Elem state db'.actual_states
        × (is_scope r.project_id r.environment_id state ≡ true)
        × (state.last_admitted_plan_id ≡ some i))

-- Admitting a plan that exists for an invocation. For an invocation that exists and resources none of
-- which is blank, a planned, blocked or admitted plan becomes admitted with the invocation, and a plan
-- of any other status stays as it was; with a blank resource the call fails. For an id without an
-- invocation the call fails on a planned, blocked or admitted plan, and leaves one of any other
-- status as it was. Unless the call fails, the environment's state then names the plan as the last one
-- admitted.
pub admit_branches :
    (now i j : ℕ) (db : PlanDb) (r : EnvironmentRunPlan)
    → plan_at i db.plans ≡ some r
    → (any (has_id j) db.invocations ≡ true
        → any is_blank r.selected_resources ≡ false
        → is_admissible_or_admitted r.status ≡ true
        → (q : EnvironmentRunPlan) × (db' : PlanDb) × (mark_environment_run_plan_admitted now i j db
            ≡ ok (q, db'))
          × IsAdmission i r q db'
          × (q.status ≡ admitted)
          × (q.admitted_invocation_id ≡ some j))
      × (any (has_id j) db.invocations ≡ true
          → any is_blank r.selected_resources ≡ false
          → is_admissible_or_admitted r.status ≡ false
          → (db' : PlanDb) × (mark_environment_run_plan_admitted now i j db ≡ ok (r, db'))
            × IsAdmission i r r db')
      × (any (has_id j) db.invocations ≡ true
          → any is_blank r.selected_resources ≡ true
          → mark_environment_run_plan_admitted now i j db ≡ err sqlx)
      × (any (has_id j) db.invocations ≡ false
          → is_admissible_or_admitted r.status ≡ true
          → mark_environment_run_plan_admitted now i j db ≡ err sqlx)
      × (any (has_id j) db.invocations ≡ false
          → is_admissible_or_admitted r.status ≡ false
          → (db' : PlanDb) × (mark_environment_run_plan_admitted now i j db ≡ ok (r, db'))
            × IsAdmission i r r db')
unfolding mark_environment_run_plan_admitted
admit_branches now i j db r at =
    let stored = admission now i j db r at in
    rw at (
      (λ known fit live. rw known (
          rw fit (
            admit_row now j r,
            admitted_db now i j r db,
            refl,
            stored,
            rw live refl,
            rw live refl,
          ))),
      (λ known fit over.
          rw known (rw fit (admitted_db now i j r db, rw over refl, rw over at stored))),
      (λ known blank. rw known (rw blank refl)),
      (λ absent live. rw absent (rw live refl)),
      (λ absent over. rw absent (rw over (admitted_db now i j r db, refl, rw over at stored))),
    )
  where
    admit_row_id : (now j : ℕ) (a : EnvironmentRunPlan) → (admit_row now j a).plan_id ≡ a.plan_id
    admit_row_id now j a = ground arith

    admission :
        (now i j : ℕ) (db : PlanDb) (r : EnvironmentRunPlan)
        → plan_at i db.plans ≡ some r
        → IsAdmission i r (admit_row now j r) (admitted_db now i j r db)
    admission now i j db r at = (
      rw (plan_at-update_rows i (is_plan i) (admit_row now j) db.plans r (admit_row_id now j) at)
          (rw (find-eq-some (is_plan i) db.plans at).1 refl),
      upserted_state now i r db.actual_states,
    )
