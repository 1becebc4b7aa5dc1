-- ===== src/Reconcile/Stored.antt =====
-- The plan that a replanning returns is the one that is stored.
use dbtx.Prelude.{
  ℕ, String, Bool, true, false, ◌&&◌, ◌||◌, not, ◌≡◌, refl, inl, inr, Option, none, some, List, [],
  ◌∷◌, ◌==◌, nat_eq, option_eq, string_eq, eq_iff, arith, Bool-cases, update_rows, eq_self,
}
use dbtx.Status.ReconcileReason.{ReconcileReason, parse, code_change, source_state_change}
use dbtx.Plan.{EnvironmentRunPlan}
use dbtx.Plan.Lifecycle.{is_plan, texts_beq, selection_row, update_environment_run_plan_selection}
use dbtx.Plan.Outcome.{noop_row, mark_environment_run_plan_completed_noop}
use dbtx.Plan.Progress.{plan_at, plan_at-update_rows}
use dbtx.Planning.Select.{is_empty}
use dbtx.Reconcile.{ReconcileDb}
use dbtx.Reconcile.Formats.{Formats}
use dbtx.Reconcile.Action.{Outcome, returned, continue_with, from_result, from_fuel}
use dbtx.Error.{AppResult, ok, err}
use dbtx.Reconcile.Derive.{StalenessOracle, db_oracle, select_resources}
use dbtx.Reconcile.Keeps.{Gives}
use dbtx.Reconcile.Replan.{
  noop, reselect, store_selection, replan_to_target, replan_code_change_plan, store_stale,
  stale_nodes, replan_unless_satisfied, replan_for_events, replan_source_state_change_plan,
  replan_for, replan_from, replan_pending_plan,
}

pub texts_eq : (us vs : List String) → texts_beq us vs ≡ true → us ≡ vs
texts_eq [] [] h = refl
texts_eq [] (v ∷ vs) h = absurd (cc h)
texts_eq (u ∷ us) [] h = absurd (cc h)
texts_eq (u ∷ us) (v ∷ vs) h =
    let both = parts (u == v) (texts_beq us vs) h in
    let same = (eq_iff u v).0 both.0 in let rest = texts_eq us vs both.1 in cc
  where
    parts : (a b : Bool) → (a && b) ≡ true → (a ≡ true) × (b ≡ true)
    parts a b h = ground arith

-- The row that the table holds under the plan's id is the one returned.
abbrev pub IsStored : ℕ → EnvironmentRunPlan → ReconcileDb → Type 0
IsStored i q db = (q.plan_id ≡ i) × (plan_at i db.plan_db.plans ≡ some q)

returned-Gives :
    {A : Type 0} (Q : A → ReconcileDb → Type 0) (o : Outcome A) (a : A)
    → (db' : ReconcileDb) × (o ≡ returned a db') × Q a db'
    → Gives Q o
returned-Gives Q o a (db', e, h) = rw e h

module _ (formats : Formats) (now : ℕ) (p : EnvironmentRunPlan) (db : ReconcileDb)
    (at : plan_at p.plan_id db.plan_db.plans ≡ some p) where
  updated_at :
      (f : EnvironmentRunPlan → EnvironmentRunPlan)
      → ((a : EnvironmentRunPlan) → (f a).plan_id ≡ a.plan_id)
      → plan_at p.plan_id (update_rows (is_plan p.plan_id) f db.plan_db.plans) ≡ some (f p)
  updated_at f keep =
      rw (plan_at-update_rows p.plan_id (is_plan p.plan_id) f db.plan_db.plans p keep at)
        (rw (eq_self p.plan_id) refl)

  pub noop_returns :
      (message metadata : String)
      → (db' : ReconcileDb) × (noop formats now p message metadata db
          ≡ returned (noop_row now message metadata p) db')
        × IsStored p.plan_id (noop_row now message metadata p) db'
  unfolding mark_environment_run_plan_completed_noop
  noop_returns message metadata =
      rw at (_, refl, (refl, updated_at (noop_row now message metadata) λ a. refl))

  pub reselect_returns :
      (spec : Option String) (resources : List String) (metadata : String)
      → (db' : ReconcileDb) × (reselect formats now p spec resources metadata db
          ≡ returned (selection_row now spec resources metadata p) db')
        × IsStored p.plan_id (selection_row now spec resources metadata p) db'
  unfolding update_environment_run_plan_selection
  reselect_returns spec resources metadata =
      rw at (_, refl, (refl, updated_at (selection_row now spec resources metadata) λ a. refl))

  noop-IsStored :
      (message metadata : String)
      → Gives (IsStored p.plan_id) (noop formats now p message metadata db)
  noop-IsStored message metadata =
      returned-Gives (IsStored p.plan_id) _ _ (noop_returns message metadata)

  reselect-IsStored :
      (spec : Option String) (resources : List String) (metadata : String)
      → Gives (IsStored p.plan_id) (reselect formats now p spec resources metadata db)
  reselect-IsStored spec resources metadata =
      returned-Gives (IsStored p.plan_id) _ _ (reselect_returns spec resources metadata)

  selection-IsStored :
      (us : List String) → Gives (IsStored p.plan_id) (store_selection formats now p us db)
  unfolding store_selection
  selection-IsStored us = elim (Bool-cases (is_empty us)) [
    | inl none' ↦ rw none' (noop-IsStored _ _)
    | inr some' ↦
        elim (Bool-cases (
          not (texts_beq us p.selected_resources)
          || not (some "state_modified_live_plus" == p.selection_spec))) [
            | inl changed ↦ rw some' (rw changed (reselect-IsStored _ _ _))
            | inr same ↦ rw some' (rw same (reselect-IsStored _ _ _))
          ]
  ]

  stale-IsStored : (us : List String) → Gives (IsStored p.plan_id) (store_stale formats now p us db)
  unfolding store_stale
  stale-IsStored us = elim (Bool-cases (is_empty us)) [
    | inl none' ↦ rw none' (noop-IsStored _ _)
    | inr some' ↦ elim (Bool-cases (texts_beq us p.selected_resources)) [
      | inl same ↦ rw some' (rw same (reselect-IsStored _ _ _))
      | inr changed ↦ rw some' (rw changed (reselect-IsStored _ _ _))
    ]
  ]

  unless_satisfied-IsStored :
      (staleness : StalenessOracle) (ids : List ℕ) (baseline : ℕ) (b : Bool)
      → Gives
          (IsStored p.plan_id)
          (replan_unless_satisfied formats now staleness p ids baseline b db)
  unless_satisfied-IsStored staleness ids baseline true = noop-IsStored _ _
  unless_satisfied-IsStored staleness ids baseline false =
      by_keys (formats.texts_at "source_keys" p.metadata)
    where
      by_answer :
          (r : AppResult (List String))
          → Gives
              (IsStored p.plan_id)
              (continue_with (store_stale formats now p) (from_result r db))
      by_answer (ok us) = stale-IsStored us
      by_answer (err e) = tt

      by_keys :
          (keys : List String)
          → Gives (IsStored p.plan_id) (
              continue_with
                (store_stale formats now p)
                (stale_nodes formats now staleness p keys ids baseline db))
      by_keys [] = stale-IsStored p.selected_resources
      by_keys (k ∷ ks) = by_answer _

  events-IsStored :
      (staleness : StalenessOracle) (ids : List ℕ) (baseline : ℕ)
      → Gives (IsStored p.plan_id) (replan_for_events formats now staleness p ids baseline db)
  unfolding replan_for_events
  events-IsStored staleness [] baseline = (refl, at)
  events-IsStored staleness (i ∷ is) baseline =
      unless_satisfied-IsStored staleness (i ∷ is) baseline _

  target-IsStored :
      (fuel baseline : ℕ) (target : Option ℕ)
      → Gives (IsStored p.plan_id) (replan_to_target formats now fuel p baseline target db)
  unfolding replan_to_target
  target-IsStored fuel baseline none = (refl, at)
  target-IsStored fuel baseline (some target) =
      by_fuel (select_resources fuel p.project_id p.environment_id baseline target db)
    where
      by_fuel :
          (o : Option (List String))
          → Gives
              (IsStored p.plan_id)
              (continue_with (store_selection formats now p) (from_fuel o db))
      by_fuel none = tt
      by_fuel (some us) = selection-IsStored us

  code_change-IsStored :
      (fuel baseline : ℕ) (sha : Option String)
      → Gives (IsStored p.plan_id) (replan_code_change_plan formats now fuel p baseline sha db)
  unfolding replan_code_change_plan
  code_change-IsStored fuel baseline none = (refl, at)
  code_change-IsStored fuel baseline (some sha) = target-IsStored fuel baseline _

  reason-IsStored :
      (fuel baseline : ℕ) (reason : Option ReconcileReason)
      → Gives (IsStored p.plan_id) (replan_for formats now fuel p baseline reason db)
  unfolding replan_for replan_source_state_change_plan
  reason-IsStored fuel baseline none = (refl, at)
  reason-IsStored fuel baseline (some code_change) =
      code_change-IsStored fuel baseline p.target_git_commit_sha
  reason-IsStored fuel baseline (some source_state_change) =
      events-IsStored (db_oracle db.source_db) _ baseline

  -- The plan that replanning returns is the one in the table then, under the same id.
  pub replan-IsStored :
      (fuel : ℕ) → Gives (IsStored p.plan_id) (replan_pending_plan formats now fuel p db)
  unfolding replan_pending_plan
  replan-IsStored fuel = by_baseline p.baseline_run_id
    where
      by_baseline :
          (b : Option ℕ) → Gives (IsStored p.plan_id) (replan_from formats now fuel p b db)
      by_baseline none = (refl, at)
      by_baseline (some baseline) = reason-IsStored fuel baseline (parse p.reason)
