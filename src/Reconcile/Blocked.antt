-- ===== src/Reconcile/Blocked.antt =====
-- A plan with conflicting invocations is not started.
use Prim.Native.String.{◌++◌ as append}
use mathlib.Core.Path.{subst, sym}
use dbtx.Prelude.{
  arith, update_rows, ℕ, String, true, false, ◌≡◌, refl, Option, none, some, List, ◌∷◌, eq_self,
  find-eq-some,
}
use dbtx.Status.PlanStatus.{is_admissible}
use dbtx.Error.{ok}
use dbtx.Plan.{EnvironmentRunPlan, PlanDb}
use dbtx.Plan.Lease.{acquire_environment_reconcile_lease}
use dbtx.Plan.Lifecycle.{
  is_plan, blocked_row, get_environment_run_plan, mark_environment_run_plan_blocked,
}
use dbtx.Plan.Conflict.{list_active_conflicting_invocations}
use dbtx.Plan.Progress.{plan_at, plan_at-update_rows}
use dbtx.Reconcile.{ReconcileDb}
use dbtx.Reconcile.Formats.{Formats}
use dbtx.Reconcile.Action.{returned}
use dbtx.Reconcile.Admission.{
  with_leases, reconcile_lease_duration, release_reconcile_lease, Preparer, start_if_prepared,
  block_or_prepare, then_release, InvocationStarter, is_completed, not_prepared, admit_replanned,
  admit_plan_with_lease, admit_plan, admit_and_start_plan,
}
use dbtx.Reconcile.Guarded.{lease_guards_call}
use dbtx.Reconcile.Replan.{replan_pending_plan}
use dbtx.Reconcile.Stored.{IsStored, replan-IsStored}

abbrev pub overlap_message : String
overlap_message = "plan is blocked by active resource overlap"

module _ {Prepared : Type 0} (formats : Formats) (preparer : Preparer Prepared) (fuel now : ℕ)
    (invocation : ℕ) where
  -- The row is blocked in the table, and the lease is given back.
  blocked_under_lease :
      (q : EnvironmentRunPlan) (db : ReconcileDb) (i j : ℕ) (js : List ℕ)
      → IsStored i q db
      → is_completed q.status ≡ false
      → list_active_conflicting_invocations q.plan_id db.plan_db ≡ j ∷ js
      → (db' : ReconcileDb) × (admit_replanned formats preparer fuel now invocation q db
          ≡ returned
              (not_prepared formats preparer fuel now invocation
                (blocked_row now (some j) overlap_message q))
              db')
        × (plan_at i db'.plan_db.plans ≡ some (blocked_row now (some j) overlap_message q))
  unfolding admit_replanned block_or_prepare mark_environment_run_plan_blocked
  blocked_under_lease q db i j js (own, at) open' conflicts =
      let set = blocked_row now (some j) overlap_message in
      let here : plan_at q.plan_id db.plan_db.plans ≡ some q =
        subst (λ k. plan_at k db.plan_db.plans ≡ some q) (sym own) at in
      let after : plan_at q.plan_id (update_rows (is_plan q.plan_id) set db.plan_db.plans)
          ≡ some (set q) =
        rw
          (plan_at-update_rows q.plan_id (is_plan q.plan_id) set db.plan_db.plans q (λ a. refl)
            here)
          (rw (eq_self q.plan_id) refl) in
      rw open' (
        rw conflicts (
          rw here (
            _,
            refl,
            subst
                (λ k.
                  plan_at k (update_rows (is_plan q.plan_id) set db.plan_db.plans) ≡ some (set q))
                own after,
          )))

  -- Under the lease, an admissible plan is replanned and then admitted as the plan that comes back.
  admitted_as :
      (p q : EnvironmentRunPlan) (db db' : ReconcileDb)
      → replan_pending_plan formats now fuel p db ≡ returned q db'
      → is_admissible p.status ≡ true
      → admit_plan_with_lease formats preparer fuel now invocation p db
        ≡ admit_replanned formats preparer fuel now invocation q db'
  unfolding admit_plan_with_lease
  admitted_as p q db db' replanned fit = rw fit (rw replanned refl)

found_plan :
    (i : ℕ) (p : EnvironmentRunPlan) (db : PlanDb)
    → plan_at i db.plans ≡ some p
    → get_environment_run_plan i db ≡ ok p
unfolding get_environment_run_plan
found_plan i p db at = rw at refl

released_keeps :
    (e : ℕ) (owner : String) (db : ReconcileDb) (i : ℕ) (o : Option EnvironmentRunPlan)
    → plan_at i db.plan_db.plans ≡ o
    → plan_at i (release_reconcile_lease e owner db).plan_db.plans ≡ o
unfolding release_reconcile_lease
released_keeps e owner db i o h = h

-- A planned or blocked plan whose lease is granted, which replanning leaves with work to do and with
-- conflicting invocations: admission returns it without an invocation, whatever preparing and
-- starting would do. The table then holds it as blocked by the first of the conflicting invocations.
pub conflict_prevents_start :
    {Prepared : Type 0} (formats : Formats) (preparer : Preparer Prepared)
    (starter : InvocationStarter Prepared) (fuel now invocation i j : ℕ) (js : List ℕ)
    (db db' : ReconcileDb) (p q : EnvironmentRunPlan)
    → plan_at i db.plan_db.plans ≡ some p
    → is_admissible p.status ≡ true
    → (let owner = append "admit:" (formats.uuid_text invocation) in
        let answer =
          acquire_environment_reconcile_lease now p.environment_id owner reconcile_lease_duration
            db.plan_db.leases in
        (answer.0 ≡ true)
        × (replan_pending_plan formats now fuel p (with_leases answer.1 db) ≡ returned q db'))
    → is_completed q.status ≡ false
    → list_active_conflicting_invocations q.plan_id db'.plan_db ≡ j ∷ js
    → (db'' : ReconcileDb) × (admit_and_start_plan formats preparer fuel now invocation starter i db
        ≡ returned
            (record { plan = blocked_row now (some j) overlap_message q; invocation_id = none })
            db'')
      × (plan_at i db''.plan_db.plans ≡ some (blocked_row now (some j) overlap_message q))
unfolding admit_and_start_plan admit_plan start_if_prepared then_release
conflict_prevents_start formats preparer starter fuel now invocation i j js db db' p q at fit
      (granted, replanned) open' conflicts =
    let owner = append "admit:" (formats.uuid_text invocation) in
    let answer =
      acquire_environment_reconcile_lease now p.environment_id owner reconcile_lease_duration
        db.plan_db.leases in
    let locked = with_leases answer.1 db in
    let body = admit_plan_with_lease formats preparer fuel now invocation p in
    let same : p.plan_id ≡ i = ground (arith, find-eq-some (is_plan i) db.plan_db.plans at) in
    let there : plan_at p.plan_id locked.plan_db.plans ≡ some p =
      subst (λ k. plan_at k locked.plan_db.plans ≡ some p) (sym same) at in
    let stored : IsStored p.plan_id q db' =
      rw replanned at (replan-IsStored formats now p locked there fuel) in
    let (db'', e, blocked) =
      blocked_under_lease formats preparer fuel now invocation q db' p.plan_id j js stored open'
        conflicts in
    let guarded = ((lease_guards_call now p.environment_id owner body db).1 granted).0 in
    let ended = admitted_as formats preparer fuel now invocation p q locked db' replanned fit in
    rw (found_plan i p db.plan_db at) (
      rw guarded (
        rw ended (
          rw e (
            release_reconcile_lease p.environment_id owner db'',
            refl,
            released_keeps p.environment_id owner db'' i _ (
                subst
                  (λ k.
                    plan_at k db''.plan_db.plans
                    ≡ some (blocked_row now (some j) overlap_message q))
                  same blocked),
          ))))
