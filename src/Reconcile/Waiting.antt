-- ===== src/Reconcile/Waiting.antt =====
-- When a turn of the cycle waits, and when it starts the preparation of a manifest.
use mathlib.Core.Path.{subst}
use dbtx.Prelude.{
  ℕ, String, Bool, true, false, ◌≡◌, ◌⊎◌, refl, inl, inr, Option, none, some, List, [], ◌∷◌, any,
  updated-Elem, Elem, Elem-append, Elem-of_any, Bool-cases, eq_self, is_some, some_and, string_eq,
}
use dbtx.Error.{ok}
use dbtx.Status.PreparationStatus.{running}
use dbtx.Plan.{ActualState}
use dbtx.Reconcile.{Environment, ReconcilePreparation, ReconcileDb}
use dbtx.Reconcile.Formats.{Formats}
use dbtx.Reconcile.Action.{tries}
use dbtx.Reconcile.Queries.{get_environment_actual_state, latest_manifest_run_id_for_commit}
use dbtx.Reconcile.Keeps.{Gives, bind-Gives, tries-Gives, anything-Gives, weaken-Gives}
use dbtx.Reconcile.Prepare.{
  get_environment_reconcile_preparation_by_scope, has_active_manifest_prepare_for_commit,
  new_preparation, restarted, is_manifest_preparation_of, mark_manifest_prepare_running,
  ManifestPreparationOutcome, already_available, in_progress, started, is_backing_off,
  ManifestStarter, start_preparation, prepare_for, manifest_fingerprint, prepare_commit,
  ensure_manifest_preparation,
}

abbrev has_manifest : Environment → String → ReconcileDb → Bool
has_manifest env sha db = is_some (latest_manifest_run_id_for_commit env.project_id env.id sha db)

abbrev has_active_prepare : Environment → String → ReconcileDb → Bool
has_active_prepare env sha db = has_active_manifest_prepare_for_commit env.project_id env.id sha db

abbrev is_put_off : ℕ → Environment → String → ReconcileDb → Bool
is_put_off now env fingerprint db =
    some_and (is_backing_off now fingerprint)
      (get_environment_reconcile_preparation_by_scope env.project_id env.id db)

-- The row of a preparation that runs as the invocation.
abbrev IsRunningFor : Environment → String → ℕ → ReconcilePreparation → Type 0
IsRunningFor env sha invocation r =
    (is_manifest_preparation_of env.project_id env.id r ≡ true)
    × (r.status ≡ running)
    × (r.invocation_id ≡ some invocation)
    × (r.target_git_commit_sha ≡ some sha)

-- What each outcome says of the database before and after.
abbrev pub IsPreparedBy :
    ℕ
    → Environment
    → String
    → String
    → ReconcileDb
    → ManifestPreparationOutcome
    → ReconcileDb
    → Type 0
IsPreparedBy now env fingerprint sha db already_available db' =
    (db' ≡ db) × (has_manifest env sha db ≡ true)
IsPreparedBy now env fingerprint sha db in_progress db' =
    (db' ≡ db)
    × (has_manifest env sha db ≡ false)
    × ((has_active_prepare env sha db ≡ true) ⊎ (is_put_off now env fingerprint db ≡ true))
IsPreparedBy now env fingerprint sha db (started i) db' =
    (has_manifest env sha db ≡ false)
    × (has_active_prepare env sha db ≡ false)
    × (is_put_off now env fingerprint db ≡ false)
    × (r : ReconcilePreparation) × Elem r db'.preparations
    × IsRunningFor env sha i r

-- What a call for the commit that `desired` holds says.
abbrev pub IsEnsured :
    Formats
    → ℕ
    → Environment
    → Option String
    → ReconcileDb
    → ManifestPreparationOutcome
    → ReconcileDb
    → Type 0
IsEnsured formats now env desired db outcome db' =
    (sha : String) × (actual : ActualState) × (desired ≡ some sha)
    × (get_environment_actual_state now env.project_ref env.slug db ≡ ok actual)
    × IsPreparedBy now env (manifest_fingerprint formats sha actual) sha db outcome db'

module _ {Prepared : Type 0} (formats : Formats) (starter : ManifestStarter Prepared) (now : ℕ)
    (invocation : ℕ) (env : Environment) where
  abbrev preparations_after : String → String → ReconcileDb → List ReconcilePreparation
  preparations_after fingerprint sha db =
      (mark_manifest_prepare_running now env.project_id env.id fingerprint sha invocation
        db).preparations

  -- The upsert leaves a row that runs as the invocation.
  marked :
      (fingerprint sha : String) (db : ReconcileDb)
      → (r : ReconcilePreparation) × Elem r (preparations_after fingerprint sha db)
        × IsRunningFor env sha invocation r
  unfolding mark_manifest_prepare_running
  marked fingerprint sha db =
      let test = is_manifest_preparation_of env.project_id env.id in
      let set = restarted now fingerprint sha invocation in
      elim (Bool-cases (any test db.preparations)) [
        | inl there ↦
            let (r, m, hit) = Elem-of_any test db.preparations there in
            rw there (
              set r,
              rw hit at (updated-Elem test set db.preparations r m),
              (hit, refl, refl, refl),
            )
        | inr absent ↦
            let row = new_preparation now env.project_id env.id fingerprint sha invocation in
            rw absent (
              row,
              (Elem-append row db.preparations (row ∷ [])).1 (inr (inl refl)),
              (rw (eq_self env.project_id) (rw (eq_self env.id) refl), refl, refl, refl),
            )
      ]

  starting :
      (fingerprint sha : String) (db db' : ReconcileDb)
      → has_manifest env sha db ≡ false
      → has_active_prepare env sha db ≡ false
      → is_put_off now env fingerprint db ≡ false
      → Gives
          (IsPreparedBy now env fingerprint sha db)
          (start_preparation formats starter now invocation env fingerprint sha db')
  unfolding start_preparation
  starting fingerprint sha db db' h h' h'' =
      let prepared =
        starter.prepare_remote_manifest_capture invocation env.project_ref env.slug db' in
      bind-Gives (λ a d. Unit) (IsPreparedBy now env fingerprint sha db) _ prepared
        (anything-Gives prepared)
        λ p d _.
          let answer = starter.start invocation p d in
          bind-Gives (λ a d. Unit) (IsPreparedBy now env fingerprint sha db) _ answer
            (anything-Gives answer)
            λ i d' _. let (r, m, runs) = marked fingerprint sha d' in (h, h', h'', r, m, runs)

  prepared_for :
      (fingerprint sha : String) (db : ReconcileDb)
      → Gives
          (IsPreparedBy now env fingerprint sha db)
          (prepare_for formats starter now invocation env fingerprint sha db)
  unfolding prepare_for
  prepared_for fingerprint sha db = elim (Bool-cases (has_manifest env sha db)) [
    | inl so ↦ rw so (refl, so)
    | inr no' ↦ rw no' (elim (Bool-cases (has_active_prepare env sha db)) [
      | inl so ↦ rw so (refl, no', inl so)
      | inr no'' ↦ rw no'' (elim (Bool-cases (is_put_off now env fingerprint db)) [
        | inl so ↦ rw so (refl, no', inr so)
        | inr no''' ↦ rw no''' (starting fingerprint sha db db no' no'' no''')
      ])
    ])
  ]

  commit-IsEnsured :
      (desired : Option String) (db : ReconcileDb)
      → Gives
          (IsEnsured formats now env desired db)
          (prepare_commit formats starter now invocation env desired db)
  unfolding prepare_commit
  commit-IsEnsured none db = tt
  commit-IsEnsured (some sha) db =
      let query = get_environment_actual_state now env.project_ref env.slug in
      bind-Gives (λ actual db'. (query db ≡ ok actual) × (db' ≡ db))
        (IsEnsured formats now env (some sha) db) _ (tries query db) (tries-Gives query db)
        λ actual db' found.
          weaken-Gives (IsPreparedBy now env (manifest_fingerprint formats sha actual) sha db') _ _
            (λ outcome db'' h. (
              sha,
              actual,
              refl,
              found.0,
              subst
                  (λ d.
                    IsPreparedBy now env (manifest_fingerprint formats sha actual) sha d outcome
                      db'')
                  found.1 h,
            ))
            (prepared_for (manifest_fingerprint formats sha actual) sha db')

  -- When the call that ensures a manifest returns, the environment has a target commit, and the call
  -- says that the manifest is available exactly if some run of the commit has one; else that it is in
  -- progress exactly if an invocation prepares it now or a failed preparation of the same input is
  -- still put off; else that it was started. The first two change nothing. The last leaves a row
  -- of the environment that runs, for the commit, as the invocation that was started.
  pub preparation_outcome :
      (db : ReconcileDb)
      → Gives
          (IsEnsured formats now env env.git_commit_sha db)
          (ensure_manifest_preparation formats starter now invocation env db)
  unfolding ensure_manifest_preparation
  preparation_outcome db = commit-IsEnsured env.git_commit_sha db
