-- ===== src/Reconcile/Errors.antt =====
-- When the derivation of a plan fails, and as what.
use mathlib.Core.Path.{subst}
use dbtx.Prelude.{
  ℕ, String, true, false, ◌≡◌, ◌↔◌, ◌⊎◌, refl, inl, inr, Option, none, some, List, [], ◌∷◌,
  Bool-cases, Option-cases,
}
use dbtx.Error.{
  AppError, environment_already_reconciled, reconciliation_requires_commit_sha,
  reconciliation_requires_baseline,
}
use dbtx.Plan.{ActualState}
use dbtx.Source.{SourceStateEvent}
use dbtx.Reconcile.{Environment, ReconcileDb}
use dbtx.Reconcile.Formats.{Formats}
use dbtx.Reconcile.Action.{Outcome, returned, failed, from_fuel, continue_with}
use dbtx.Reconcile.Queries.{latest_manifest_run_id_for_commit}
use dbtx.Reconcile.Derive.{
  has_drift, select_resources, derive_by_manifests, derive_code_change_plan,
  derive_source_state_change_plan, db_oracle, derive_environment_plan,
}

-- The causes of an error: nothing to do, a target without a commit, no baseline and no manifest to
-- take a full graph from, or source events without a baseline.
pub data DeriveFails (env : Environment) (actual : ActualState) (events : List SourceStateEvent)
    (db : ReconcileDb) : AppError → Type 0 where
  nothing_to_do :
      has_drift env actual ≡ false
      → events ≡ []
      → DeriveFails env actual events db environment_already_reconciled
  no_commit :
      has_drift env actual ≡ true
      → env.git_commit_sha ≡ none
      → DeriveFails env actual events db reconciliation_requires_commit_sha
  no_manifest :
      (sha : String)
      → has_drift env actual ≡ true
      → env.git_commit_sha ≡ some sha
      → latest_manifest_run_id_for_commit env.project_id env.id sha db ≡ none
      → actual.last_successful_run_id ≡ none
      → DeriveFails env actual events db reconciliation_requires_baseline
  no_baseline :
      (ev : SourceStateEvent) (rest : List SourceStateEvent)
      → has_drift env actual ≡ false
      → events ≡ ev ∷ rest
      → actual.last_successful_run_id ≡ none
      → DeriveFails env actual events db reconciliation_requires_baseline

failed_parts :
    {A : Type 0} (e e' : AppError) (db db' : ReconcileDb)
    → Path (Outcome A) (failed e db) (failed e' db')
    → (e ≡ e') × (db ≡ db')
failed_parts e e' db db' h = (cc, cc)

fuel_does_not_fail :
    {A B : Type 0} (o : Option A) (db db' : ReconcileDb) (e : AppError) (f : A → B)
    → Path (Outcome B) (continue_with (λ a. returned (f a)) (from_fuel o db)) (failed e db')
    → ⊥
fuel_does_not_fail none db db' e f h = cc
fuel_does_not_fail (some a) db db' e f h = cc

module _ (formats : Formats) (fuel : ℕ) (env : Environment) (actual : ActualState) where
  -- A code change fails with the cause of one of two errors.
  code_change_errors :
      (events : List SourceStateEvent) (db db' : ReconcileDb) (e : AppError)
      → has_drift env actual ≡ true
      → derive_code_change_plan formats fuel env actual events env.git_commit_sha
          actual.last_successful_run_id db
        ≡ failed e db'
      → DeriveFails env actual events db e × (db ≡ db')
  unfolding derive_code_change_plan derive_by_manifests
  code_change_errors events db db' e drift h = elim (Option-cases env.git_commit_sha) [
    | inl none' ↦
        let (same, same') = failed_parts _ e db db' (rw none' at h) in
        (subst (DeriveFails env actual events db) same (no_commit drift none'), same')
    | inr (sha, at) ↦
        elim (Option-cases (latest_manifest_run_id_for_commit env.project_id env.id sha db)) [
          | inl missing ↦ elim (Option-cases actual.last_successful_run_id) [
            | inl none' ↦
                let (same, same') =
                  failed_parts _ e db db' (rw none' at (rw missing at (rw at at h))) in
                (
                  subst (DeriveFails env actual events db) same
                      (no_manifest sha drift at missing none'),
                  same',
                )
            | inr (run, has) ↦ absurd (cc (rw has at (rw missing at (rw at at h))))
          ]
          | inr (target, known) ↦ elim (Option-cases actual.last_successful_run_id) [
            | inl none' ↦ absurd (cc (rw none' at (rw known at (rw at at h))))
            | inr (run, has) ↦ absurd (
                fuel_does_not_fail (select_resources fuel env.project_id env.id run target db) db
                  db' e _ (rw has at (rw known at (rw at at h))))
          ]
        ]
  ]

  source_errors :
      (events : List SourceStateEvent) (db db' : ReconcileDb) (e : AppError)
      → has_drift env actual ≡ false
      → (ev : SourceStateEvent) (rest : List SourceStateEvent) → events ≡ ev ∷ rest
      → derive_source_state_change_plan formats fuel env actual
          (ev ∷ rest)
          (db_oracle db.source_db)
          actual.last_successful_run_id
          db
        ≡ failed e db'
      → DeriveFails env actual events db e × (db ≡ db')
  unfolding derive_source_state_change_plan db_oracle
  source_errors events db db' e none' ev rest some' h =
      elim (Option-cases actual.last_successful_run_id) [
        | inl missing ↦
            let (same, same') = failed_parts _ e db db' (rw missing at h) in
            (
              subst (DeriveFails env actual events db) same
                  (no_baseline ev rest none' some' missing),
              same',
            )
        | inr (run, has) ↦ absurd (cc (rw has at h))
      ]

  cause_fails :
      (events : List SourceStateEvent) (db : ReconcileDb) (e : AppError)
      → DeriveFails env actual events db e
      → derive_environment_plan formats fuel env actual events db ≡ failed e db
  unfolding derive_environment_plan derive_code_change_plan derive_by_manifests
      derive_source_state_change_plan
  cause_fails events db _ (nothing_to_do same nothing) = rw same (rw nothing refl)
  cause_fails events db _ (no_commit drift none') = rw drift (rw none' refl)
  cause_fails events db _ (no_manifest sha drift at missing none') =
      rw drift (rw at (rw missing (rw none' refl)))
  cause_fails events db _ (no_baseline ev rest same some' none') =
      rw same (rw some' (rw none' refl))

  List-cases :
      (xs : List SourceStateEvent)
      → (xs ≡ []) ⊎ ((ev : SourceStateEvent) × (rest : List SourceStateEvent) × (xs ≡ ev ∷ rest))
  List-cases [] = inl refl
  List-cases (ev ∷ rest) = inr (ev, rest, refl)

  -- Deriving a plan fails with an error exactly when the error has one of its causes, and then
  -- changes nothing.
  pub derive_errors :
      (events : List SourceStateEvent) (db db' : ReconcileDb) (e : AppError)
      → (derive_environment_plan formats fuel env actual events db ≡ failed e db')
        ↔ (DeriveFails env actual events db e × (db ≡ db'))
  unfolding derive_environment_plan
  derive_errors events db db' e = (
    λ h. elim (Bool-cases (has_drift env actual)) [
      | inl drift ↦ code_change_errors events db db' e drift (rw drift at h)
      | inr none' ↦ elim (List-cases events) [
        | inl nothing ↦
            let (same, same') = failed_parts _ e db db' (rw nothing at (rw none' at h)) in
            (subst (DeriveFails env actual events db) same (nothing_to_do none' nothing), same')
        | inr (ev, rest, some') ↦
            source_errors events db db' e none' ev rest some' (rw none' at (rw some' at h))
      ]
    ],
    λ (cause, same).
        subst (λ d. derive_environment_plan formats fuel env actual events db ≡ failed e d) same
          (cause_fails events db e cause),
  )
