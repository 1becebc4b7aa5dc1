-- ===== src/Plan/Blocking.antt =====
-- What an admission adds to the conflict lists of other plans.
use dbtx.Prelude.{
  is_blank, [], ◌∷◌, ℕ, true, false, ◌≡◌, refl, some, List, ◌==◌, nat_eq, string_eq, arith, inr,
  any, find-eq-some, Elem, update_rows,
}
use dbtx.Error.{ok}
use dbtx.Invocation.{Invocation}
use dbtx.Invocation.Queue.{has_id}
use dbtx.Plan.{EnvironmentRunPlan, PlanDb}
use dbtx.Plan.Lifecycle.{is_plan, is_admissible_or_admitted}
use dbtx.Plan.Outcome.{mark_environment_run_plan_admitted, admitted_row, admit_row, admitted_db}
use dbtx.Plan.Conflict.{is_in_progress, list_active_conflicting_invocations}
use dbtx.Plan.Progress.{plan_at, plan_at-update_rows}
use dbtx.Plan.Overlap.{Shared, conflict_list}

plan_id_of :
    (i : ℕ) (rows : List EnvironmentRunPlan) (p : EnvironmentRunPlan)
    → plan_at i rows ≡ some p
    → p.plan_id ≡ i
plan_id_of i rows p at = ground (arith, find-eq-some (is_plan i) rows at)

known_if_busy :
    (j : ℕ) (rows : List Invocation)
    → any (is_in_progress j) rows ≡ true
    → any (has_id j) rows ≡ true
known_if_busy j [] h = h
known_if_busy j (x ∷ rest) h = ground (arith, known_if_busy j rest)

admit_row_id : (now j : ℕ) (a : EnvironmentRunPlan) → (admit_row now j a).plan_id ≡ a.plan_id
admit_row_id now j a = ground arith

-- Once a planned, blocked or admitted plan, none of whose resources is blank, is admitted for an
-- invocation that is in progress, that invocation is in the conflict list of every other plan of the environment that shares a resource
-- with it.
pub admitted_blocks_others :
    (now i i' j : ℕ) (db : PlanDb) (p q : EnvironmentRunPlan)
    → plan_at i db.plans ≡ some p
    → is_admissible_or_admitted p.status ≡ true
    → any (is_in_progress j) db.invocations ≡ true
    → any is_blank p.selected_resources ≡ false
    → plan_at i' db.plans ≡ some q
    → (i' == i) ≡ false
    → p.project_id ≡ q.project_id
    → p.environment_id ≡ q.environment_id
    → Shared p.selected_resources q.selected_resources
    → (db' : PlanDb) × (mark_environment_run_plan_admitted now i j db
        ≡ ok (admitted_row now j p, db'))
      × Elem j (list_active_conflicting_invocations i' db')
unfolding mark_environment_run_plan_admitted
admitted_blocks_others now i i' j db p q at fit busy named at' ne sp se shared =
    let own = plan_id_of i db.plans p at in
    let his = plan_id_of i' db.plans q at' in
    let mine : plan_at i (update_rows (is_plan i) (admit_row now j) db.plans)
        ≡ some (admitted_row now j p) =
      rw (plan_at-update_rows i (is_plan i) (admit_row now j) db.plans p (admit_row_id now j) at)
        (rw (find-eq-some (is_plan i) db.plans at).1 (rw fit refl)) in
    let other : plan_at i' (update_rows (is_plan i) (admit_row now j) db.plans) ≡ some q =
      rw (plan_at-update_rows i' (is_plan i) (admit_row now j) db.plans q (admit_row_id now j) at')
        (rw his (rw ne refl)) in
    (
      admitted_db now i j p db,
      rw at (rw (known_if_busy j db.invocations busy) (rw named (rw fit refl))),
      ((conflict_list i' (admitted_db now i j p db) q other).1 j).1 (
          inr (
            admitted_row now j p,
            (find-eq-some (is_plan i) _ mine).0,
            sp,
            se,
            λ same. ground arith,
            refl,
            refl,
            busy,
            shared,
          )),
    )
