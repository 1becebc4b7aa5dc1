-- ===== src/Reconcile/Replanned.antt =====
-- What replanning does to the plan that it is given.
use dbtx.Prelude.{
  ℕ, String, Bool, true, false, ◌||◌, not, ◌≡◌, ◌≢◌, refl, sym, inl, inr, some, List, [], ◌∷◌, ◌==◌,
  nat_eq, option_eq, string_eq, arith, Bool-cases, option_beq_iff,
}
use dbtx.Status.PlanStatus.{completed}
use dbtx.Status.ReconcileReason.{parse, code_change}
use dbtx.Plan.{EnvironmentRunPlan}
use dbtx.Plan.Lifecycle.{texts_beq}
use dbtx.Plan.Progress.{plan_at}
use dbtx.Reconcile.{ReconcileDb}
use dbtx.Reconcile.Formats.{Formats}
use dbtx.Reconcile.Action.{returned}
use dbtx.Reconcile.Queries.{latest_manifest_run_id_for_commit}
use dbtx.Reconcile.Derive.{live_spec, select_resources}
use dbtx.Reconcile.Replan.{
  replanned_metadata, store_selection, replan_to_target, replan_code_change_plan, replan_for,
  replan_pending_plan,
}
use dbtx.Reconcile.Stored.{IsStored, noop_returns, reselect_returns, texts_eq}

unchanged : (a b : Bool) → (not a || not b) ≡ false → (a ≡ true) × (b ≡ true)
unchanged a b h = ground arith

store_selection_ends :
    (formats : Formats) (now : ℕ) (p : EnvironmentRunPlan) (db : ReconcileDb)
    → plan_at p.plan_id db.plan_db.plans ≡ some p
    → (us : List String)
    → (q : EnvironmentRunPlan) × (db' : ReconcileDb) × (store_selection formats now p us db
        ≡ returned q db')
      × IsStored p.plan_id q db'
      × (q.selected_resources ≡ us)
      × (us ≡ [] → q.status ≡ completed)
      × (us ≢ [] → (q.status ≡ p.status) × (q.selection_spec ≡ some (live_spec us)))
unfolding store_selection
store_selection_ends formats now p db at [] =
    let (db', e, stored) =
      noop_returns formats now p db at "plan already reconciled by prior run progress"
        (replanned_metadata formats now p "live_state_diff") in
    (_, db', e, stored, refl, (λ _. refl), λ some'. absurd (some' refl))
store_selection_ends formats now p db at (u ∷ us) =
    let metadata = replanned_metadata formats now p "live_state_diff" in
    let rule : String = "state_modified_live_plus" in
    elim (Bool-cases
      (not (texts_beq (u ∷ us) p.selected_resources) || not (some rule == p.selection_spec))) [
        | inl changed ↦
            let (db', e, stored) =
              reselect_returns formats now p db at (some rule) (u ∷ us) metadata in
            (_, db', rw changed e, stored, refl, (λ none'. absurd (cc none')), λ _. (refl, refl))
        | inr same ↦
            let (db', e, stored) =
              reselect_returns formats now p db at p.selection_spec p.selected_resources metadata in
            let (texts, spec) = unchanged _ _ same in
            (
              _,
              db',
              rw same e,
              stored,
              sym (texts_eq (u ∷ us) p.selected_resources texts),
              (λ none'. absurd (cc none')),
              λ _. (refl, sym ((option_beq_iff string_eq (some rule) p.selection_spec).0 spec)),
            )
      ]

-- Replanning a stored code change plan with a baseline, when the target commit has a manifest and the
-- selection comes back. With nothing selected, the plan is completed with no resources. Else it keeps
-- its status and has the selection, and the selection rule of a live diff. In both cases the table
-- then holds the plan that is returned.
pub replan_selects :
    (formats : Formats) (fuel now : ℕ) (p : EnvironmentRunPlan) (db : ReconcileDb) (sha : String)
    (baseline target : ℕ) (us : List String)
    → plan_at p.plan_id db.plan_db.plans ≡ some p
    → p.baseline_run_id ≡ some baseline
    → parse p.reason ≡ some code_change
    → p.target_git_commit_sha ≡ some sha
    → latest_manifest_run_id_for_commit p.project_id p.environment_id sha db ≡ some target
    → select_resources fuel p.project_id p.environment_id baseline target db ≡ some us
    → (q : EnvironmentRunPlan) × (db' : ReconcileDb) × (replan_pending_plan formats now fuel p db
        ≡ returned q db')
      × IsStored p.plan_id q db'
      × (q.selected_resources ≡ us)
      × (us ≡ [] → q.status ≡ completed)
      × (us ≢ [] → (q.status ≡ p.status) × (q.selection_spec ≡ some (live_spec us)))
unfolding replan_pending_plan replan_for replan_code_change_plan replan_to_target
replan_selects formats fuel now p db sha baseline target us at has reason commit known selected =
    let (q, db', e, stored, resources, emptied, kept) =
      store_selection_ends formats now p db at us in
    (q, db', cc (e, has, reason, commit, known, selected), stored, resources, emptied, kept)
