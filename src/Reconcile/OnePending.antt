-- ===== src/Reconcile/OnePending.antt =====
-- `reconcile` and the pending plans of an environment.
use dbtx.Prelude.{
  any_of_Elem, eq_self, refl, ℕ, String, Bool, true, false, ◌&&◌, ◌≡◌, inl, inr, Option, none, some,
  List, [], ◌∷◌, ◌++◌, ◌==◌, nat_eq, arith, any, All-Elem, Elem, Elem-append, Elem-update_rows,
  Bool-cases,
}
use dbtx.Plan.{EnvironmentRunPlan, PlanDb}
use dbtx.Plan.Lifecycle.{
  is_plan, new_plan, is_superseded_by, superseded_row, create_environment_run_plan, superseded_db,
  find_equivalent_live_environment_run_plan,
}
use dbtx.Planning.Select.{is_empty}
use dbtx.Plan.Progress.{is_live_in, All-superseding, supersede_returns}
use dbtx.Source.Events.{list_unsatisfied_source_state_events}
use dbtx.Reconcile.{Environment, ReconcileDb}
use dbtx.Reconcile.Formats.{Formats}
use dbtx.Reconcile.Action.{gets, tries}
use dbtx.Reconcile.Queries.{get_environment, get_environment_actual_state}
use dbtx.Reconcile.Derive.{EnvironmentPlanDraft, derive_environment_plan}
use dbtx.Reconcile.Service.{
  lookup_of, reuse_or_create, input_of, advance_commit, create_and_supersede, store_draft,
  reconcile_with_lease, reconcile,
}
use dbtx.Reconcile.Keeps.{Gives, returned-Gives, Holds, Keeps, bind-Keeps, tries-Keeps}
use dbtx.Reconcile.PlansKept.{AtMostOne, IsOnePending, derive-Keeps, under_lease-Keeps}

-- Creating a plan and superseding the others.
module _ (now plan_id : ℕ) (env : Environment) (draft : EnvironmentPlanDraft) (p e : ℕ) where
  created : EnvironmentRunPlan
  created = new_plan now plan_id (input_of env draft)

  after_creation : PlanDb → List EnvironmentRunPlan
  unfolding created
  after_creation db =
      (superseded_db now env.project_id env.id plan_id
        (record db { plans = db.plans ++ created ∷ [] })).plans

  clash : {b : Bool} → b ≡ true → b ≡ false → ⊥
  clash h h' = cc

  superseded_not_live :
      (x : EnvironmentRunPlan) → is_live_in p e (superseded_row now plan_id x) ≡ false
  superseded_not_live x = ground arith

  created_not_live : (env.project_id == p && env.id == e) ≡ false → is_live_in p e created ≡ false
  unfolding created
  created_not_live h = ground arith

  -- A plan that is still live in another environment was there before.
  live_elsewhere :
      (db : PlanDb) (a : EnvironmentRunPlan)
      → (env.project_id == p && env.id == e) ≡ false
      → Elem a (after_creation db)
      → is_live_in p e a ≡ true
      → Elem a db.plans
  unfolding after_creation
  live_elsewhere db a other m live =
      let (x, at, same) =
        Elem-update_rows (is_superseded_by env.project_id env.id plan_id)
          (superseded_row now plan_id) (db.plans ++ created ∷ []) a m in
      elim (Bool-cases (is_superseded_by env.project_id env.id plan_id x)) [
        | inl hit ↦ absurd (clash (rw (rw hit at same) at live) (superseded_not_live x))
        | inr miss ↦ elim ((Elem-append x db.plans (created ∷ [])).0 at) [
          | inl old ↦ rw (rw miss at same) old
          | inr new' ↦ elim new' [
            | inl first ↦
                absurd (clash (rw first at (rw (rw miss at same) at live)) (created_not_live other))
            | inr none' ↦ absurd none'
          ]
        ]
      ]

  created_keeps :
      (db : ReconcileDb)
      → IsOnePending p e db
      → (a b : EnvironmentRunPlan) → Elem a (after_creation db.plan_db)
      → Elem b (after_creation db.plan_db)
      → is_live_in p e a ≡ true
      → is_live_in p e b ≡ true
      → a.plan_id ≡ b.plan_id
  unfolding after_creation
  created_keeps db h a b ma mb la lb = elim (Bool-cases (env.project_id == p && env.id == e)) [
    | inl here ↦
        let all =
          All-superseding now env.project_id env.id plan_id (db.plan_db.plans ++ created ∷ []) in
        let known =
          All-Elem (λ r. is_live_in env.project_id env.id r ≡ true → r.plan_id ≡ plan_id) _ all in
        let (ep, ee) = scope_of env.project_id env.id here in
        cc (known a ma (rw ep (rw ee la)), known b mb (rw ep (rw ee lb)))
    | inr other ↦
        h a b (live_elsewhere db.plan_db a other ma la) (live_elsewhere db.plan_db b other mb lb) la
          lb
  ]
    where
      scope_of : (x y : ℕ) → (x == p && y == e) ≡ true → (x ≡ p) × (y ≡ e)
      scope_of x y h = ground arith

  create_and_supersede-Keeps : Keeps (IsOnePending p e) (create_and_supersede now plan_id env draft)
  unfolding create_and_supersede create_environment_run_plan after_creation created
  create_and_supersede-Keeps db h = elim (Bool-cases (any (is_plan plan_id) db.plan_db.plans)) [
    | inl taken ↦ rw taken h
    | inr fresh ↦
        let there : any (is_plan plan_id) (db.plan_db.plans ++ created ∷ []) ≡ true =
          any_of_Elem (is_plan plan_id) (db.plan_db.plans ++ created ∷ []) created
            ((Elem-append created db.plan_db.plans (created ∷ [])).1 (inr (inl refl)))
            (eq_self plan_id) in
        rw fresh (
          rw
            (supersede_returns now env.project_id env.id plan_id
              (record (db.plan_db) { plans = db.plan_db.plans ++ created ∷ [] }) there)
            (created_keeps db h))
  ]

module _ (formats : Formats) (fuel now : ℕ) (p e : ℕ) where
  store_draft-Keeps :
      (plan_id : ℕ) (env : Environment) (draft : EnvironmentPlanDraft)
      → Keeps (IsOnePending p e) (store_draft now plan_id env draft)
  unfolding store_draft
  store_draft-Keeps plan_id env draft db h = elim (Bool-cases (is_empty draft.selected_resources)) [
    | inl none' ↦ rw none' (advanced env.git_commit_sha draft.code_drift)
    | inr some' ↦
        rw some'
          (reused (find_equivalent_live_environment_run_plan (lookup_of env draft) db.plan_db))
  ]
    where
      advanced :
          (sha : Option String) (drift : Bool)
          → IsOnePending p e (advance_commit now plan_id env draft sha drift db)
      advanced none drift = h
      advanced (some sha) true = h
      advanced (some sha) false = h

      reused :
          (o : Option EnvironmentRunPlan)
          → Holds (IsOnePending p e) (reuse_or_create now plan_id env draft o db)
      reused (some r) = h
      reused none = create_and_supersede-Keeps now plan_id env draft p e db h

  reconcile-Keeps :
      (lease_id plan_id : ℕ) (project slug : String) (db : ReconcileDb)
      → IsOnePending p e db
      → Holds (IsOnePending p e) (reconcile formats fuel now lease_id plan_id project slug db)
  unfolding reconcile reconcile_with_lease
  reconcile-Keeps lease_id plan_id project slug =
      let kept = IsOnePending p e in
      bind-Keeps kept (tries (get_environment project slug)) _
        (tries-Keeps kept (get_environment project slug))
        λ env.
          under_lease-Keeps (AtMostOne p e) now env.id _
            (reconcile_with_lease formats fuel now plan_id project slug env)
            (bind-Keeps kept (tries (get_environment_actual_state now project slug)) _
              (tries-Keeps kept (get_environment_actual_state now project slug))
              λ actual.
                bind-Keeps kept
                  (gets
                    (λ db. list_unsatisfied_source_state_events env.project_id env.id db.source_db))
                  _ (λ db h. h)
                  λ events.
                    bind-Keeps kept (derive_environment_plan formats fuel env actual events) _
                      (derive-Keeps kept formats fuel env actual events)
                      λ draft. store_draft-Keeps plan_id env draft)

  -- When a reconcile call returns a plan, an environment that had at most one planned or blocked plan
  -- still has at most one: the reconciled environment and every other.
  pub reconcile_keeps_one :
      (lease_id plan_id : ℕ) (project slug : String) (db : ReconcileDb)
      → IsOnePending p e db
      → Gives
          (λ r db'. IsOnePending p e db')
          (reconcile formats fuel now lease_id plan_id project slug db)
  reconcile_keeps_one lease_id plan_id project slug db h =
      returned-Gives (IsOnePending p e)
        (reconcile formats fuel now lease_id plan_id project slug db)
        (reconcile-Keeps lease_id plan_id project slug db h)
