-- ===== src/Reconcile/PlansKept.antt =====
-- What a call under the lease, and the derivation of a plan, leave alone: the environment's pending
-- plans.
use dbtx.Prelude.{
  ℕ, String, Bool, true, false, ◌≡◌, inl, inr, Option, none, some, List, nat_eq, Elem, Bool-cases,
}
use dbtx.Plan.{EnvironmentRunPlan, ActualState, ReconcileLease}
use dbtx.Plan.Lease.{acquire_environment_reconcile_lease}
use dbtx.Plan.Progress.{is_live_in}
use dbtx.Source.{SourceStateEvent}
use dbtx.Reconcile.{Environment, ReconcileDb}
use dbtx.Reconcile.Formats.{Formats}
use dbtx.Reconcile.Action.{Action, Outcome, returned, failed, endless, give, from_result}
use dbtx.Reconcile.Derive.{
  derive_environment_plan, derive_code_change_plan, derive_by_manifests,
  derive_source_state_change_plan, keys_of, ids_of, source_draft, select_resources, StalenessOracle,
  db_oracle, has_drift, no_events,
}
use dbtx.Reconcile.Admission.{
  acquired, reconcile_lease_duration, acquire_reconcile_lease, release_reconcile_lease,
  then_release, under_lease,
}
use dbtx.Reconcile.Keeps.{Holds, Keeps, bind-Keeps, from_result-Keeps, from_fuel-Keeps}

-- An environment has at most one plan that is planned or blocked.
abbrev pub AtMostOne : ℕ → ℕ → List EnvironmentRunPlan → Type 0
AtMostOne p e plans =
    (a b : EnvironmentRunPlan)
    → Elem a plans
    → Elem b plans
    → is_live_in p e a ≡ true
    → is_live_in p e b ≡ true
    → a.plan_id ≡ b.plan_id

abbrev pub IsOnePending : ℕ → ℕ → ReconcileDb → Type 0
IsOnePending p e db = AtMostOne p e db.plan_db.plans

-- A property of the plans alone goes through a lease.
module _ (P : List EnvironmentRunPlan → Type 0) where
  abbrev OfPlans : ReconcileDb → Type 0
  OfPlans db = P db.plan_db.plans

  then_release-Holds :
      {A : Type 0} (e : ℕ) (owner : String) (o : Outcome A)
      → Holds OfPlans o
      → Holds OfPlans (then_release e owner o)
  unfolding then_release release_reconcile_lease
  then_release-Holds e owner (returned a db) h = h
  then_release-Holds e owner (failed x db) h = h
  then_release-Holds e owner endless h = tt

  acquired-Holds :
      (answer : Bool × List ReconcileLease) (db : ReconcileDb)
      → OfPlans db
      → Holds OfPlans (acquired answer db)
  acquired-Holds (true, leases) db h = h
  acquired-Holds (false, leases) db h = h

  pub under_lease-Keeps :
      {A : Type 0} (now e : ℕ) (owner : String) (m : Action A)
      → Keeps OfPlans m
      → Keeps OfPlans (under_lease now e owner m)
  unfolding under_lease acquire_reconcile_lease
  under_lease-Keeps now e owner m keep =
      bind-Keeps OfPlans (acquire_reconcile_lease now e owner) _
        (λ db h.
          acquired-Holds
            (acquire_environment_reconcile_lease now e owner reconcile_lease_duration
              db.plan_db.leases)
            db h)
        λ _ db h. then_release-Holds e owner (m db) (keep db h)

-- A derivation only reads.
module _ (P : ReconcileDb → Type 0) (formats : Formats) (fuel : ℕ) (env : Environment)
    (actual : ActualState) (events : List SourceStateEvent) where
  by_manifests-Keeps :
      (sha : String) (target baseline : Option ℕ)
      → Keeps P (derive_by_manifests formats fuel env actual events sha target baseline)
  unfolding derive_by_manifests
  by_manifests-Keeps sha (some target) (some baseline) db h =
      bind-Keeps P _ _
        (from_fuel-Keeps P (select_resources fuel env.project_id env.id baseline target))
        (λ a db h. h) db h
  by_manifests-Keeps sha (some target) none db h = h
  by_manifests-Keeps sha none (some baseline) db h = h
  by_manifests-Keeps sha none none db h = h

  code_change-Keeps :
      (sha : Option String) (baseline : Option ℕ)
      → Keeps P (derive_code_change_plan formats fuel env actual events sha baseline)
  unfolding derive_code_change_plan
  code_change-Keeps none baseline db h = h
  code_change-Keeps (some sha) baseline db h = by_manifests-Keeps sha _ baseline db h

  source_change-Keeps :
      (staleness : StalenessOracle) (baseline : Option ℕ)
      → Keeps P (derive_source_state_change_plan formats fuel env actual events staleness baseline)
  unfolding derive_source_state_change_plan
  source_change-Keeps staleness none db h = h
  source_change-Keeps staleness (some baseline) db h =
      bind-Keeps P
        (from_result (
          staleness.list_stale_downstream_nodes env.project_id env.id (keys_of events)
            (ids_of events) baseline))
        (λ us. give (source_draft formats fuel env actual events (some baseline) us))
        (from_result-Keeps P _) (λ us db h. h) db h

  pub derive-Keeps : Keeps P (derive_environment_plan formats fuel env actual events)
  unfolding derive_environment_plan
  derive-Keeps db h = elim (Bool-cases (has_drift env actual)) [
    | inl drift ↦ rw drift (code_change-Keeps env.git_commit_sha actual.last_successful_run_id db h)
    | inr same ↦ elim (Bool-cases (no_events events)) [
      | inl nothing ↦ rw same (rw nothing h)
      | inr more ↦ rw same (
          rw more (source_change-Keeps (db_oracle db.source_db) actual.last_successful_run_id db h))
    ]
  ]
