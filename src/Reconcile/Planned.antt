-- ===== src/Reconcile/Planned.antt =====
-- The plan that `reconcile` returns.
use dbtx.Prelude.{
  any_of_Elem, ℕ, String, Bool, true, false, ◌&&◌, ◌≡◌, ◌≢◌, refl, inl, inr, some, List, [], ◌∷◌,
  ◌++◌, ◌==◌, nat_eq, arith, any, Elem, Elem-append, Elem-where_rows, Bool-cases, Option-cases,
  update_rows, if◌then◌else◌, eq_self, option_beq_iff, option_eq, string_eq,
}
use dbtx.Error.{ok}
use dbtx.Plan.{EnvironmentRunPlan}
use dbtx.Plan.Lifecycle.{
  is_plan, new_plan, EquivalentPlanLookup, texts_beq, newest, is_newer, is_equivalent,
  is_superseded_by, superseded_row, create_environment_run_plan,
  find_equivalent_live_environment_run_plan,
}
use dbtx.Plan.Progress.{is_live_in, supersede_returns}
use dbtx.Planning.Select.{is_empty}
use dbtx.Reconcile.{Environment, ReconcileDb}
use dbtx.Reconcile.Formats.{Formats}
use dbtx.Reconcile.Action.{Action, Outcome, returned, failed, endless, tries}
use dbtx.Reconcile.Queries.{get_environment, get_environment_actual_state}
use dbtx.Source.Events.{list_unsatisfied_source_state_events}
use dbtx.Reconcile.Derive.{EnvironmentPlanDraft, derive_environment_plan}
use dbtx.Reconcile.Service.{
  lookup_of, input_of, create_and_supersede, store_draft, reconcile_with_lease, reconcile,
}
use dbtx.Reconcile.Keeps.{Gives, bind-Gives, tries-Gives, anything-Gives, weaken-Gives}
use dbtx.Reconcile.Admission.{
  acquire_reconcile_lease, release_reconcile_lease, then_release, under_lease,
}

newest-Elem :
    (rows : List EnvironmentRunPlan) (r : EnvironmentRunPlan) → newest rows ≡ some r → Elem r rows
unfolding newest
newest-Elem [] r h = absurd (cc h)
newest-Elem (p ∷ rest) r h = elim (Option-cases (newest rest)) [
  | inl none' ↦ inl (cc (rw none' at h))
  | inr (q, at) ↦ elim (Bool-cases (is_newer p q)) [
    | inl mine ↦ inl (cc (rw mine at (rw at at h)))
    | inr his ↦
        let same : q ≡ r = cc (rw his at (rw at at h)) in inr (newest-Elem rest r (rw same at at))
  ]
]

-- A pending plan of the environment, for its branch and commit, with the draft's selection.
abbrev pub IsPlanAmong : Environment → EnvironmentRunPlan → List EnvironmentRunPlan → Type 0
IsPlanAmong env r plans =
    Elem r plans
    × (is_live_in env.project_id env.id r ≡ true)
    × (r.target_git_branch ≡ env.git_branch)
    × (r.target_git_commit_sha ≡ env.git_commit_sha)
    × (r.selected_resources ≢ [])

abbrev pub IsPlanFor : Environment → EnvironmentRunPlan → ReconcileDb → Type 0
IsPlanFor env r db = IsPlanAmong env r db.plan_db.plans

-- What is said of the plans goes through a lease.
module _ {A : Type 0} (Q : A → List EnvironmentRunPlan → Type 0) where
  then_release-Gives :
      (e : ℕ) (owner : String) (o : Outcome A)
      → Gives (λ a db. Q a db.plan_db.plans) o
      → Gives (λ a db. Q a db.plan_db.plans) (then_release e owner o)
  unfolding then_release release_reconcile_lease
  then_release-Gives e owner (returned a db) h = h
  then_release-Gives e owner (failed x db) h = tt
  then_release-Gives e owner endless h = tt

  under_lease-Gives :
      (now e : ℕ) (owner : String) (m : Action A)
      → ((db : ReconcileDb) → Gives (λ a db. Q a db.plan_db.plans) (m db))
      → (db : ReconcileDb) → Gives (λ a db. Q a db.plan_db.plans) (under_lease now e owner m db)
  unfolding under_lease
  under_lease-Gives now e owner m body db =
      bind-Gives (λ u db. Unit) (λ a db. Q a db.plan_db.plans) (λ _ db. then_release e owner (m db))
        (acquire_reconcile_lease now e owner db)
        (anything-Gives (acquire_reconcile_lease now e owner db))
        λ _ db' h. then_release-Gives e owner (m db') (body db')

-- The tests of `is_equivalent` that say which plan it is.
equivalent_parts :
    (q : EquivalentPlanLookup) (r : EnvironmentRunPlan)
    → is_equivalent q r ≡ true
    → (is_live_in q.project_id q.environment_id r ≡ true)
      × ((r.target_git_branch == q.target_git_branch) ≡ true)
      × ((r.target_git_commit_sha == q.target_git_commit_sha) ≡ true)
      × (texts_beq r.selected_resources q.selected_resources ≡ true)
equivalent_parts q r h =
    conjuncts (is_live_in q.project_id q.environment_id r) (r.reason == q.reason)
      (r.input_fingerprint == some q.input_fingerprint) (r.target_git_branch == q.target_git_branch)
      (r.target_git_commit_sha == q.target_git_commit_sha) (r.baseline_run_id == q.baseline_run_id)
      (r.selection_spec == q.selection_spec) (texts_beq r.selected_resources q.selected_resources) h
  where
    conjuncts :
        (a b c d e f g i : Bool)
        → (a && b && c && d && e && f && g && i) ≡ true
        → (a ≡ true) × (d ≡ true) × (e ≡ true) × (i ≡ true)
    conjuncts a b c d e f g i all = ground arith

some_resource : (us : List String) → is_empty us ≡ false → us ≢ []
some_resource [] h e = cc
some_resource (u ∷ us) h e = cc

not_empty : (us vs : List String) → texts_beq us vs ≡ true → is_empty vs ≡ false → us ≢ []
not_empty [] [] h some' e = cc
not_empty [] (v ∷ vs) h some' e = cc
not_empty (u ∷ us) vs h some' e = cc

module _ (now plan_id : ℕ) (env : Environment) (draft : EnvironmentPlanDraft) where
  live_is_for :
      (db : ReconcileDb) (r : EnvironmentRunPlan)
      → is_empty draft.selected_resources ≡ false
      → find_equivalent_live_environment_run_plan (lookup_of env draft) db.plan_db ≡ some r
      → IsPlanFor env r db
  unfolding find_equivalent_live_environment_run_plan
  live_is_for db r some' at =
      let test = is_equivalent (lookup_of env draft) in
      let (m, fits) = (Elem-where_rows test r db.plan_db.plans).0 (newest-Elem _ r at) in
      let (live, branch, commit, resources) = equivalent_parts (lookup_of env draft) r fits in
      (
        m,
        live,
        (option_beq_iff string_eq r.target_git_branch env.git_branch).0 branch,
        (option_beq_iff string_eq r.target_git_commit_sha env.git_commit_sha).0 commit,
        not_empty r.selected_resources draft.selected_resources resources some',
      )

  -- The plan itself is not superseded by itself.
  itself :
      (x : EnvironmentRunPlan)
      → x.plan_id ≡ plan_id
      → (if is_superseded_by env.project_id env.id plan_id x
          then superseded_row now plan_id x
          else x)
        ≡ x
  itself x own = rw own (ground (arith, eq_self plan_id))

  stays :
      (rows : List EnvironmentRunPlan) (r : EnvironmentRunPlan)
      → Elem r rows
      → r.plan_id ≡ plan_id
      → Elem r (
          update_rows
            (is_superseded_by env.project_id env.id plan_id)
            (superseded_row now plan_id)
            rows)
  stays [] r m own = m
  stays (x ∷ rest) r (inl e) own = inl (rw (itself x (cc (own, e))) e)
  stays (x ∷ rest) r (inr m) own = inr (stays rest r m own)

  created_is_for :
      (db : ReconcileDb)
      → is_empty draft.selected_resources ≡ false
      → Gives (IsPlanFor env) (create_and_supersede now plan_id env draft db)
  unfolding create_and_supersede create_environment_run_plan
  created_is_for db some' = elim (Bool-cases (any (is_plan plan_id) db.plan_db.plans)) [
    | inl taken ↦ rw taken tt
    | inr fresh ↦
        let row = new_plan now plan_id (input_of env draft) in
        let plans = db.plan_db.plans ++ row ∷ [] in
        let listed = (Elem-append row db.plan_db.plans (row ∷ [])).1 (inr (inl refl)) in
        let there = any_of_Elem (is_plan plan_id) plans row listed (eq_self plan_id) in
        rw
          (
            fresh,
            supersede_returns now env.project_id env.id plan_id
                (record (db.plan_db) { plans = plans }) there,
          )
          (
            stays (db.plan_db.plans ++ row ∷ []) row
                ((Elem-append row db.plan_db.plans (row ∷ [])).1 (inr (inl refl))) refl,
            rw (eq_self env.project_id) (rw (eq_self env.id) refl),
            refl,
            refl,
            some_resource draft.selected_resources some',
          )
  ]

  stored_is_for : (db : ReconcileDb) → Gives (IsPlanFor env) (store_draft now plan_id env draft db)
  unfolding store_draft
  stored_is_for db = elim (Bool-cases (is_empty draft.selected_resources)) [
    | inl none' ↦ rw none' tt
    | inr some' ↦
        rw some'
          (elim (Option-cases
            (find_equivalent_live_environment_run_plan (lookup_of env draft) db.plan_db)) [
              | inl none' ↦ rw none' (created_is_for db some')
              | inr (r, at) ↦ rw at (live_is_for db r some' at)
            ])
  ]

planned_for :
    (formats : Formats) (fuel now plan_id : ℕ) (project slug : String) (env : Environment)
    (db : ReconcileDb)
    → Gives (IsPlanFor env) (reconcile_with_lease formats fuel now plan_id project slug env db)
unfolding reconcile_with_lease
planned_for formats fuel now plan_id project slug env db =
    let answer = tries (get_environment_actual_state now project slug) db in
    bind-Gives (λ a db. Unit) (IsPlanFor env) _ answer (anything-Gives answer)
      λ actual db' _.
        let events = list_unsatisfied_source_state_events env.project_id env.id db'.source_db in
        let derived = derive_environment_plan formats fuel env actual events db' in
        bind-Gives (λ a db. Unit) (IsPlanFor env) (store_draft now plan_id env) derived
          (anything-Gives derived) λ draft db'' _. stored_is_for now plan_id env draft db''

-- When a reconcile call returns a plan, the environment exists, and the plan is in the table then,
-- planned or blocked, for the environment and its target branch and commit, and selects at least one
-- resource.
pub reconcile_returns :
    (formats : Formats) (fuel now lease_id plan_id : ℕ) (project slug : String) (db : ReconcileDb)
    → Gives
        (λ r db'.
          (env : Environment) × (get_environment project slug db ≡ ok env) × IsPlanFor env r db')
        (reconcile formats fuel now lease_id plan_id project slug db)
unfolding reconcile
reconcile_returns formats fuel now lease_id plan_id project slug db =
    bind-Gives (λ env db'. (get_environment project slug db ≡ ok env) × (db' ≡ db)) _ _
      (tries (get_environment project slug) db) (tries-Gives (get_environment project slug) db)
      λ env db' found.
        weaken-Gives (IsPlanFor env) _ _ (λ r db'' h. (env, found.0, h))
          (under_lease-Gives (IsPlanAmong env) now env.id _
            (reconcile_with_lease formats fuel now plan_id project slug env)
            (planned_for formats fuel now plan_id project slug env) db')
