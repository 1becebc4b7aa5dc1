-- ===== src/Reconcile/Sweep.antt =====
-- src/reconciler.rs: the sweep that admits blocked plans, with its two queries of
-- src/db/reconciliation.rs.
use dbtx.Prelude.{
  ℕ, ◌+◌, Bool, true, false, ◌&&◌, ◌||◌, none, some, Option, List, [], ◌∷◌, ◌==◌, nat_eq,
  if◌then◌else◌, ltb, leb, map, where_rows, sort_by,
}
use dbtx.Status.PlanStatus.{PlanStatus, blocked}
use dbtx.Plan.{EnvironmentRunPlan}
use dbtx.Reconcile.{ReconcileDb}
use dbtx.Reconcile.Formats.{Formats}
use dbtx.Reconcile.Action.{Action, give, gets, ◌>>=◌}
use dbtx.Reconcile.Admission.{Preparer, InvocationStarter, admit_and_start_plan}

abbrev pub is_blocked : EnvironmentRunPlan → Bool
is_blocked r = is_blocked_status r.status
  where
    is_blocked_status : PlanStatus → Bool
    is_blocked_status blocked = true
    is_blocked_status _ = false

abbrev pub is_blocked_of : ℕ → ℕ → EnvironmentRunPlan → Bool
is_blocked_of p e r = r.project_id == p && r.environment_id == e && is_blocked r

-- `ORDER BY created_at ASC, plan_id ASC`.
abbrev pub is_older : EnvironmentRunPlan → EnvironmentRunPlan → Bool
is_older a b =
    ltb a.created_at b.created_at || a.created_at == b.created_at && leb a.plan_id b.plan_id

unfoldable pub list_blocked_environment_run_plan_ids : ℕ → ℕ → ReconcileDb → List ℕ
unfolding sort_by
list_blocked_environment_run_plan_ids p e db =
    map (λ (r : EnvironmentRunPlan). r.plan_id)
      (sort_by is_older (where_rows (is_blocked_of p e) db.plan_db.plans))

-- The project's id and the environment's.
abbrev pub Scope : Type 0
Scope = ℕ × ℕ

abbrev pub scope_le : Scope → Scope → Bool
scope_le a b = ltb a.0 b.0 || a.0 == b.0 && leb a.1 b.1

abbrev pub is_same_scope : Scope → Scope → Bool
is_same_scope a b = a.0 == b.0 && a.1 == b.1

-- `SELECT DISTINCT` on sorted rows.
abbrev pub distinct_after : Scope → List Scope → List Scope
distinct_after a [] = []
distinct_after a (b ∷ rest) =
    if is_same_scope a b then distinct_after a rest else b ∷ distinct_after b rest

abbrev pub distinct : List Scope → List Scope
distinct [] = []
distinct (a ∷ rest) = a ∷ distinct_after a rest

unfoldable pub list_blocked_environment_scopes : ReconcileDb → List Scope
unfolding sort_by
list_blocked_environment_scopes db = distinct (
    sort_by scope_le (
      map (λ (r : EnvironmentRunPlan). (r.project_id, r.environment_id))
        (where_rows is_blocked db.plan_db.plans)))

-- `invocation_of` has the fresh id of the invocation that a plan's admission may start.
module _ {Prepared : Type 0} (formats : Formats) (preparer : Preparer Prepared)
    (starter : InvocationStarter Prepared) (fuel now : ℕ) (invocation_of : ℕ → ℕ) where
  abbrev pub count_started : Option ℕ → ℕ → ℕ
  count_started none n = n
  count_started (some i) n = n + 1

  -- An error of one admission ends the sweep.
  unfoldable pub admit_each : List ℕ → ℕ → Action ℕ
  unfolding admit_and_start_plan
  admit_each [] n = give n
  admit_each (i ∷ rest) n = do
    admission ← admit_and_start_plan formats preparer fuel now (invocation_of i) starter i
    admit_each rest (count_started admission.invocation_id n)

  unfoldable pub auto_admit_blocked_plans_for_environment : ℕ → ℕ → Action ℕ
  unfolding admit_each list_blocked_environment_run_plan_ids
  auto_admit_blocked_plans_for_environment p e = do
    plans ← gets (list_blocked_environment_run_plan_ids p e)
    admit_each plans 0

  unfoldable pub sweep_each : List Scope → ℕ → Action ℕ
  unfolding auto_admit_blocked_plans_for_environment
  sweep_each [] n = give n
  sweep_each ((p, e) ∷ rest) n = do
    k ← auto_admit_blocked_plans_for_environment p e
    sweep_each rest (n + k)

  unfoldable pub sweep_blocked_plans_once : Action ℕ
  unfolding sweep_each list_blocked_environment_scopes
  sweep_blocked_plans_once = do scopes ← gets list_blocked_environment_scopes; sweep_each scopes 0
