-- ===== src/Plan/Examples.antt =====
-- Concrete plans and calls, and the theorems of the plan modules at them.
use dbtx.Prelude.{
  coalesce, any, ℕ, ◌+◌, ◌*◌, ◌≤◌, String, true, false, ◌&&◌, not, ◌≡◌, ◌≢◌, ◌↔◌, ◌⊎◌, ◌==◌, nat_eq,
  refl, inl, inr, arith, none, some, List, [], ◌∷◌, All, Elem, IsSorted, leb, if◌then◌else◌,
}
use dbtx.Error.{ok, err, sqlx}
use dbtx.Status.PlanStatus.{admitted, completed, is_terminal}
use dbtx.Status.PlanStatus
use dbtx.Status.LifecycleStatus
use dbtx.Status.LifecycleStatus.{failed}
use dbtx.Invocation.Examples.{row_5, row_6}
use dbtx.Invocation.Deadline.{second}
use dbtx.Plan.{EnvironmentRunPlan, PlanDb}
use dbtx.Plan.Lease.{acquire_environment_reconcile_lease}
use dbtx.Plan.Lifecycle.{
  CreatePlanInput, new_plan, superseded_row, supersede_pending_environment_run_plans,
  automatic_retry_backoff, is_plan,
}
use dbtx.Plan.Outcome.{
  admitted_row, mark_environment_run_plan_admitted, complete_environment_run_plan, is_success,
}
use dbtx.Plan.Conflict.{list_active_conflicting_invocations}
use dbtx.Plan.Exclusion.{acquire, release, call_leases, lease_excludes}
use dbtx.Plan.Backoff.{backoff_bounds}
use dbtx.Plan.Progress.{
  plan_at, is_live_in, IsAdmission, supersede_leaves_one, complete_branches, admit_branches,
}
use dbtx.Plan.Overlap.{Reserves, Rivals, conflict_list}
use dbtx.Plan.Blocking.{admitted_blocks_others}

abbrev pub plan_input : List String → CreatePlanInput
plan_input resources = record {
  project_id = 1;
  environment_id = 2;
  git_branch = some "main";
  git_commit_sha = some "deadbeef";
  reason = "code_change";
  input_fingerprint = "code:1";
  baseline_run_id = none;
  selection_spec = none;
  selected_resources = resources;
  source_event_id = none;
  metadata = "{}";
}

abbrev pub plan_a : EnvironmentRunPlan
plan_a = new_plan 10 31 (plan_input ("model.a" ∷ "model.b" ∷ []))

abbrev pub plan_b : EnvironmentRunPlan
plan_b = new_plan 11 32 (plan_input ("model.b" ∷ []))

abbrev pub plan_db : PlanDb
plan_db = record {
  plans = plan_a ∷ plan_b ∷ [];
  leases = [];
  selected_resources = [];
  actual_states = [];
  invocations = row_5 ∷ row_6 ∷ [];
}

lease_excludes_example :
    (let held =
        call_leases
          ((20, release 2 "b") ∷ (30, acquire 2 "c" 5) ∷ [])
          (acquire_environment_reconcile_lease 10 2 "a" 100 []).1 in
      acquire_environment_reconcile_lease 50 2 "b" 100 held ≡ (false, held))
unfolding acquire_environment_reconcile_lease
lease_excludes_example =
    lease_excludes 10 2 100 "a" [] ((20, release 2 "b") ∷ (30, acquire 2 "c" 5) ∷ []) 50 100 "b"
      refl (omega arith, refl, (omega arith, refl, tt)) (omega arith) refl

backoff_bounds_example :
    (5 * second ≤ automatic_retry_backoff 2)
    × (automatic_retry_backoff 2 ≤ automatic_retry_backoff 9)
    × (automatic_retry_backoff 9 ≤ 300 * second)
    × (7 ≤ 9 → automatic_retry_backoff 9 ≡ 300 * second)
backoff_bounds_example = backoff_bounds 2 9 (omega arith)

supersede_leaves_one_example :
    (any (is_plan 32) plan_db.plans ≡ true
      → (n : ℕ) × (db' : PlanDb) × (supersede_pending_environment_run_plans 12 1 2 32 plan_db
          ≡ ok (n, db'))
        × All (λ r. is_live_in 1 2 r ≡ true → r.plan_id ≡ 32) db'.plans
        × ((i : ℕ) (r : EnvironmentRunPlan)
            → plan_at i plan_db.plans ≡ some r
            → plan_at i db'.plans
              ≡ some (
                  if is_live_in 1 2 r && not (r.plan_id == 32) then superseded_row 12 32 r else r)))
    × (any (is_plan 32) plan_db.plans ≡ false
        → any (is_live_in 1 2) plan_db.plans ≡ true
        → supersede_pending_environment_run_plans 12 1 2 32 plan_db ≡ err sqlx)
    × (any (is_plan 32) plan_db.plans ≡ false
        → any (is_live_in 1 2) plan_db.plans ≡ false
        → (n : ℕ) × (supersede_pending_environment_run_plans 12 1 2 32 plan_db ≡ ok (n, plan_db)))
supersede_leaves_one_example = supersede_leaves_one 12 1 2 32 plan_db

-- The plan 33 is not in the table.
unknown_plan : supersede_pending_environment_run_plans 12 1 2 33 plan_db ≡ err sqlx
unknown_plan = let (_, unknown, _) = supersede_leaves_one 12 1 2 33 plan_db in unknown refl refl

complete_branches_example :
    (q : EnvironmentRunPlan) × (plan_at 31
        (complete_environment_run_plan 12 31 failed (some "boom") plan_db).plans
      ≡ some q)
    × (is_terminal q.status ≡ true)
    × (is_success failed ≡ true
        → (q.status ≡ completed)
          × (q.error ≡ none)
          × (q.failure_count ≡ 0)
          × (q.next_attempt_at ≡ none))
    × (is_success failed ≡ false
        → (failed ≡ LifecycleStatus.canceled → q.status ≡ PlanStatus.canceled)
          × (failed ≢ LifecycleStatus.canceled → q.status ≡ PlanStatus.failed)
          × (q.error ≡ coalesce (some "boom") plan_a.error)
          × (q.failure_count ≡ plan_a.failure_count + 1)
          × ((t : ℕ) × (q.next_attempt_at ≡ some t)
              × (12 + 5 * second ≤ t)
              × (t ≤ 12 + 300 * second)))
complete_branches_example = complete_branches 12 31 failed (some "boom") plan_db plan_a refl

admit_branches_example :
    (q : EnvironmentRunPlan) × (db' : PlanDb) × (mark_environment_run_plan_admitted 12 31 5 plan_db
      ≡ ok (q, db'))
    × IsAdmission 31 plan_a q db'
    × (q.status ≡ admitted)
    × (q.admitted_invocation_id ≡ some 5)
admit_branches_example = (admit_branches 12 31 5 plan_db plan_a refl).0 refl refl refl

-- There is no invocation 8.
unknown_invocation : mark_environment_run_plan_admitted 12 31 8 plan_db ≡ err sqlx
unknown_invocation =
    let (_, _, _, unknown, _) = admit_branches 12 31 8 plan_db plan_a refl in unknown refl refl

conflict_list_example :
    IsSorted leb (list_active_conflicting_invocations 32 plan_db)
    × ((j : ℕ)
        → Elem j (list_active_conflicting_invocations 32 plan_db)
          ↔ (Reserves j plan_b plan_db.selected_resources ⊎ Rivals j plan_b plan_db))
conflict_list_example = conflict_list 32 plan_db plan_b refl

admitted_blocks_others_example :
    (db' : PlanDb) × (mark_environment_run_plan_admitted 12 31 5 plan_db
      ≡ ok (admitted_row 12 5 plan_a, db'))
    × Elem 5 (list_active_conflicting_invocations 32 db')
admitted_blocks_others_example =
    admitted_blocks_others 12 31 32 5 plan_db plan_a plan_b refl refl refl refl refl refl refl refl
      ("model.b", inr (inl refl), inl refl)
