-- ===== src/Reconcile/BackOff.antt =====
-- src/reconciler/cycle.rs: when `automatic_reconcile_backoff_until` puts off a code change.
use dbtx.Prelude.{
  ℕ, ◌<◌, String, Bool, true, false, ◌≡◌, ◌≢◌, ◌⊎◌, refl, sym, ap, ◌∙◌, inl, inr, some, List, [],
  ◌∷◌, ◌==◌, nat_eq, string_eq, option_eq, option_beq_iff, eq_self, arith, Elem, Elem-where_rows,
  Elem-sort_by, sort_by, IsSorted, sort_by-IsSorted, All-Elem, find, find-eq-some, find-eq-none,
  where_rows, Bool-cases, Option-cases,
}
use dbtx.Status.PlanStatus.{PlanStatus}
use dbtx.Status.ReconcileReason.{parse}
use dbtx.Plan.{EnvironmentRunPlan, ActualState}
use dbtx.Plan.Lifecycle.{is_newer}
use dbtx.Source.{SourceStateEvent, SourceDb}
use dbtx.Reconcile.{Environment, ReconcilePreparation, ReconcileDb}
use dbtx.Reconcile.Formats.{Formats}
use dbtx.Reconcile.Identity.{
  code_change_identity, target_manifest_preparation_fingerprint, matches_plan,
}
use dbtx.Reconcile.Derive.{has_drift}
use dbtx.Status.PreparationStatus.{PreparationStatus}
use dbtx.Reconcile.Prepare.{is_failed, get_environment_reconcile_preparation_by_scope}
use dbtx.Reconcile.Cycle.{
  is_plan_of, list_environment_run_plans_by_scope, is_failed_plan, code_change_of, last_failed_plan,
  is_failed_preparation, plan_backoff, automatic_reconcile_backoff_until,
}

newer_total : (a b : EnvironmentRunPlan) → is_newer a b ≡ false → is_newer b a ≡ true
newer_total a b h = ground arith

newer_trans :
    (a b c : EnvironmentRunPlan) → is_newer a b ≡ true → is_newer b c ≡ true → is_newer a c ≡ true
newer_trans a b c h h' = ground arith

-- The first row of a sorted list that passes comes before every other one that does.
find_first :
    {A : Type 0} (le : A → A → Bool) (q : A → Bool) (xs : List A) (y z : A)
    → IsSorted le xs
    → find q xs ≡ some y
    → Elem z xs
    → q z ≡ true
    → (z ≡ y) ⊎ (le y z ≡ true)
find_first le q [] y z sorted h m hit = absurd m
find_first le q (x ∷ rest) y z sorted h m hit = elim (Bool-cases (q x)) [
  | inl own ↦
      let same : x ≡ y = cc (rw own at h) in
      elim m [
        | inl e ↦ inl (e ∙ same)
        | inr old ↦ inr (rw (← same) (All-Elem (λ w. le x w ≡ true) rest sorted.0 z old))
      ]
  | inr miss ↦ elim m [
    | inl e ↦ absurd (cc (rw (← e) at miss, hit))
    | inr old ↦ find_first le q rest y z sorted.1 (rw miss at h) old hit
  ]
]

-- The last plan of the environment that has failed or was canceled, by creation and id.
abbrev pub IsLastFailed : Environment → EnvironmentRunPlan → ReconcileDb → Type 0
IsLastFailed env p db =
    Elem p db.plan_db.plans
    × (p.project_id ≡ env.project_id)
    × (p.environment_id ≡ env.id)
    × ((p.status ≡ PlanStatus.failed) ⊎ (p.status ≡ PlanStatus.canceled))
    × ((q : EnvironmentRunPlan)
        → Elem q db.plan_db.plans
        → q.project_id ≡ env.project_id
        → q.environment_id ≡ env.id
        → (q.status ≡ PlanStatus.failed) ⊎ (q.status ≡ PlanStatus.canceled)
        → (q ≡ p)
          ⊎ (q.created_at < p.created_at)
          ⊎ ((q.created_at ≡ p.created_at) × (q.plan_id < p.plan_id)))

failed_iff :
    (p : EnvironmentRunPlan)
    → is_failed_plan p ≡ true
    → (p.status ≡ PlanStatus.failed) ⊎ (p.status ≡ PlanStatus.canceled)
failed_iff p h = ground arith

failed_if :
    (p : EnvironmentRunPlan)
    → (p.status ≡ PlanStatus.failed) ⊎ (p.status ≡ PlanStatus.canceled)
    → is_failed_plan p ≡ true
failed_if p (inl h) = rw h refl
failed_if p (inr h) = rw h refl

pub last_failed_lem :
    (formats : Formats) (now : ℕ) (env : Environment) (p : EnvironmentRunPlan) (db : ReconcileDb)
    → IsLastFailed env p db
    → last_failed_plan formats now env db ≡ some p
unfolding list_environment_run_plans_by_scope
last_failed_lem formats now env p db (m, hp, he, bad, last) =
    let plans = where_rows (is_plan_of env.project_id env.id) db.plan_db.plans in
    let here : is_plan_of env.project_id env.id p ≡ true =
      rw hp (rw he (rw (eq_self env.project_id) (eq_self env.id))) in
    let listed =
      (Elem-sort_by is_newer p plans).1
        ((Elem-where_rows (is_plan_of env.project_id env.id) p db.plan_db.plans).1 (m, here)) in
    elim (Option-cases (find is_failed_plan (sort_by is_newer plans))) [
      | inl none' ↦ absurd (
          cc (find-eq-none is_failed_plan (sort_by is_newer plans) p none' listed, failed_if p bad))
      | inr (q, at) ↦
          let (there, failing) = find-eq-some is_failed_plan (sort_by is_newer plans) at in
          let (old, of_scope) =
            (Elem-where_rows (is_plan_of env.project_id env.id) q db.plan_db.plans).0
              ((Elem-sort_by is_newer q plans).0 there) in
          let order =
            find_first is_newer is_failed_plan (sort_by is_newer plans) q p
              (sort_by-IsSorted is_newer newer_total newer_trans plans) at listed
              (failed_if p bad) in
          at
          ∙ ap some
              (is_it q order (last q old (ground arith) (ground arith) (failed_iff q failing)))
    ]
  where
    is_it :
        (q : EnvironmentRunPlan)
        → (p ≡ q) ⊎ (is_newer q p ≡ true)
        → (q ≡ p)
          ⊎ (q.created_at < p.created_at)
          ⊎ ((q.created_at ≡ p.created_at) × (q.plan_id < p.plan_id))
        → q ≡ p
    is_it q (inl e) h = sym e
    is_it q (inr le) (inl e) = e
    is_it q (inr le) (inr h) = absurd (ground arith)

-- What puts a code change to the commit off until an instant: a preparation of the commit's manifest
-- that failed, or, when the environment's preparation has not failed, the last plan that failed or was
-- canceled, if it was for the same change.
abbrev pub PutsOff : Formats → Environment → ActualState → String → ReconcileDb → ℕ → Type 0
PutsOff formats env actual sha db until =
    let change = code_change_identity formats sha actual.last_successful_run_id in
    ((r : ReconcilePreparation) × (get_environment_reconcile_preparation_by_scope env.project_id
          env.id db
        ≡ some r)
      × (r.kind ≡ "target_manifest")
      × (r.status ≡ PreparationStatus.failed)
      × (r.input_fingerprint ≡ some (target_manifest_preparation_fingerprint change))
      × (r.next_attempt_at ≡ some until))
    ⊎ (((r : ReconcilePreparation)
          → get_environment_reconcile_preparation_by_scope env.project_id env.id db ≡ some r
          → r.status ≢ PreparationStatus.failed)
        × ((p : EnvironmentRunPlan) × IsLastFailed env p db
            × (p.reason ≡ "code_change")
            × (p.input_fingerprint ≡ some change.fingerprint)
            × (p.next_attempt_at ≡ some until)))

module _ (formats : Formats) (now : ℕ) (env : Environment) (actual : ActualState)
    (sha : String) where
  drift_of :
      env.git_commit_sha ≡ some sha
      → actual.last_successful_commit_sha ≢ some sha
      → has_drift env actual ≡ true
  drift_of target other =
      elim (Bool-cases (env.git_commit_sha == actual.last_successful_commit_sha)) [
        | inl same ↦ absurd (
            other (
              sym (
                (option_beq_iff string_eq env.git_commit_sha actual.last_successful_commit_sha).0
                  same)
              ∙ target))
        | inr differs ↦ rw differs refl
      ]

  change_of :
      env.git_commit_sha ≡ some sha
      → actual.last_successful_commit_sha ≢ some sha
      → code_change_of formats now env actual
        ≡ some (code_change_identity formats sha actual.last_successful_run_id)
  change_of target other = rw (drift_of target other) (rw target refl)

  not_failed : (s : PreparationStatus) → s ≢ PreparationStatus.failed → is_failed s ≡ false
  not_failed s h = ground (arith, h)

  same_change :
      (p : EnvironmentRunPlan)
      → p.reason ≡ "code_change"
      → p.input_fingerprint
        ≡ some (code_change_identity formats sha actual.last_successful_run_id).fingerprint
      → matches_plan (code_change_identity formats sha actual.last_successful_run_id) p ≡ true
  unfolding parse
  same_change p reason fingerprint = rw reason (
      rw fingerprint
        (eq_self (code_change_identity formats sha actual.last_successful_run_id).fingerprint))

  pub backoff_lem :
      (events : List SourceStateEvent) (db : ReconcileDb) (s : SourceDb) (until : ℕ)
      → env.git_commit_sha ≡ some sha
      → actual.last_successful_commit_sha ≢ some sha
      → PutsOff formats env actual sha db until
      → automatic_reconcile_backoff_until formats now env actual events
          (record db { source_db = s })
        ≡ some until
  unfolding automatic_reconcile_backoff_until get_environment_reconcile_preparation_by_scope
  backoff_lem events db s until target other (inl (r, at, kind, bad, fingerprint, next)) =
      let change = code_change_identity formats sha actual.last_successful_run_id in
      let own : is_failed_preparation formats now (some change) r ≡ true =
        rw kind
          (rw bad (rw fingerprint (eq_self (target_manifest_preparation_fingerprint change)))) in
      rw (change_of target other) (rw at (rw own next))
  backoff_lem events db s until target other (inr (fine, (p, last, reason, fingerprint, next))) =
      let change = code_change_identity formats sha actual.last_successful_run_id in
      let planned : plan_backoff formats now (some change) events (some p) ≡ some until =
        rw (same_change p reason fingerprint) next in
      elim (Option-cases
        (get_environment_reconcile_preparation_by_scope env.project_id env.id db)) [
          | inl none' ↦ rw (change_of target other) (
              rw none'
                (rw (last_failed_lem formats now env p (record db { source_db = s }) last) planned))
          | inr (r, at) ↦
              let free : is_failed_preparation formats now (some change) r ≡ false =
                ground (arith, not_failed r.status (fine r at)) in
              rw (change_of target other) (
                rw at (
                  rw free (
                    rw (last_failed_lem formats now env p (record db { source_db = s }) last)
                      planned)))
        ]
