-- ===== src/Reconcile/Examples.antt =====
-- A project with one environment, and the theorems of the reconcile modules there.
use dbtx.Prelude.{
  ℕ, ◌+◌, String, true, false, ◌≡◌, ◌≢◌, ◌↔◌, refl, inl, inr, none, some, List, [], ◌∷◌, find,
}
use dbtx.Error.{ok, reconciliation_requires_baseline, reconciliation_in_progress}
use dbtx.Status.EnvironmentStatus.{active}
use dbtx.Status.PlanStatus.{completed}
use dbtx.Plan.{EnvironmentRunPlan, SelectedResource, ReconcileLease}
use dbtx.Plan.Examples.{plan_a, plan_b, plan_db}
use dbtx.Plan.Lease.{is_of_environment, acquire_environment_reconcile_lease}
use dbtx.Plan.Lifecycle.{blocked_row}
use dbtx.Plan.Progress.{plan_at}
use dbtx.Plan.Outcome.{blank_state}
use dbtx.Source.Examples.{source_db}
use dbtx.Reconcile.{Project, Environment, Run, ManifestSnapshotRow, ReconcileDb}
use dbtx.Reconcile.Formats.{Formats}
use dbtx.Reconcile.Identity.{decimal, source_state_change_input_fingerprint}
use dbtx.Reconcile.Action.{returned, failed, give, Action}
use dbtx.Reconcile.Queries.{get_environment, latest_manifest_run_id_for_commit}
use dbtx.Status.ReconcileReason.{parse}
use dbtx.Plan.Conflict.{list_active_conflicting_invocations}
use dbtx.Reconcile.Derive.{live_spec, select_resources, derive_environment_plan}
use dbtx.Reconcile.Replan.{replan_pending_plan}
use dbtx.Reconcile.Admission.{
  Preparer, InvocationStarter, reconcile_lease_duration, with_leases, then_release, under_lease,
  admit_and_start_plan,
}
use dbtx.Reconcile.Service.{reconcile_with_lease, reconcile}
use dbtx.Reconcile.Keeps.{Holds, Gives}
use dbtx.Reconcile.Guarded.{IsReleased, lease_guards_call}
use dbtx.Reconcile.Errors.{DeriveFails, derive_errors}
use dbtx.Reconcile.PlansKept.{IsOnePending}
use dbtx.Reconcile.OnePending.{reconcile_keeps_one}
use dbtx.Reconcile.Planned.{IsPlanFor, reconcile_returns}
use dbtx.Reconcile.Stored.{IsStored}
use dbtx.Reconcile.Replanned.{replan_selects}
use dbtx.Reconcile.Blocked.{overlap_message, conflict_prevents_start}

abbrev pub formats : Formats
formats = record {
  uuid_text = decimal;
  rfc3339 = decimal;
  object = λ fields. "{}";
  with_text = λ document key value. document;
  numbers_at = λ key document. [];
  texts_at = λ key document. [];
}

abbrev shop : Project
shop = record {
  id = 1;
  project_id = "shop";
  project_name = "shop";
  git_repo_url = "git@host:shop.git";
  default_branch = "main";
  project_root = ".";
  metadata = "{}";
}

abbrev pub prod : Environment
prod = record {
  id = 2;
  project_id = 1;
  project_ref = "shop";
  project_name = "shop";
  slug = "prod";
  profile_name = "shop";
  target_name = "prod";
  baseline_environment_id = none;
  baseline_environment_slug = none;
  git_branch = some "main";
  git_commit_sha = some "deadbeef";
  use_latest_commit = true;
  auto_reconcile = true;
  immutable = false;
  pr_number = none;
  status = active;
  adapter_type = "postgres";
  worker_queue = "default";
  schema_name = "shop";
  threads = none;
  profile_config = "{}";
  profile_secrets = "{}";
  metadata = "{}";
}

abbrev run_of : ℕ → String → Run
run_of i sha = record {
  id = i;
  run_id = i;
  project_id = 1;
  environment_id = 2;
  git_commit_sha = some sha;
  dbt_version = none;
  finished_at = none;
  exit_code = none;
  terminal_status = none;
}

abbrev snapshot_of : ℕ → ManifestSnapshotRow
snapshot_of i = record {
  run_id = i;
  manifest = "{}";
  manifest_size_bytes = 2;
  checksum = none;
  created_at = 0;
}

-- A resource of `plan_b` is being run by another invocation.
abbrev pub busy : SelectedResource
busy = record {
  invocation_id = 5;
  run_id = none;
  project_id = 1;
  environment_id = 2;
  unique_id = "model.b";
  resource_type = none;
  selected_at = 9;
  node_started_at = none;
  finished_at = none;
  close_reason = none;
  created_at = 9;
  updated_at = 9;
}

abbrev stored_plan : EnvironmentRunPlan
stored_plan = record plan_a { baseline_run_id = some 6; target_git_commit_sha = some "deadbeef" }

abbrev pub shop_db : ReconcileDb
shop_db = record {
  plan_db = record plan_db { plans = stored_plan ∷ plan_b ∷ []; selected_resources = busy ∷ [] };
  source_db = source_db;
  projects = shop ∷ [];
  environments = prod ∷ [];
  runs = run_of 6 "cafe" ∷ run_of 7 "deadbeef" ∷ [];
  manifest_snapshots = snapshot_of 6 ∷ snapshot_of 7 ∷ [];
  node_states = [];
  preparations = [];
}

-- With one plan only, and one with no manifests.
abbrev quiet_db : ReconcileDb
quiet_db = record shop_db { plan_db = record plan_db { plans = plan_b ∷ [] } }

abbrev pub bare_db : ReconcileDb
bare_db = record shop_db { manifest_snapshots = [] }

fingerprint_text :
    source_state_change_input_fingerprint (3 ∷ 1 ∷ 12 ∷ 1 ∷ []) ≡ "source_state_change:1,3,12"
unfolding source_state_change_input_fingerprint
fingerprint_text = refl

derive_errors_example :
    (derive_environment_plan formats 9 prod (blank_state 10 1 2) [] bare_db
      ≡ failed reconciliation_requires_baseline bare_db)
    ↔ (DeriveFails prod (blank_state 10 1 2) [] bare_db reconciliation_requires_baseline
        × (bare_db ≡ bare_db))
derive_errors_example =
    derive_errors formats 9 prod (blank_state 10 1 2) [] bare_db bare_db
      reconciliation_requires_baseline

abbrev body : Action EnvironmentRunPlan
body = reconcile_with_lease formats 9 10 40 "shop" "prod" prod

lease_guards_call_example :
    (let answer =
        acquire_environment_reconcile_lease 10 2 "a" reconcile_lease_duration
          shop_db.plan_db.leases in
      (answer.0 ≡ false
        → under_lease 10 2 "a" body shop_db ≡ failed reconciliation_in_progress shop_db)
      × (answer.0 ≡ true
          → (under_lease 10 2 "a" body shop_db
              ≡ then_release 2 "a" (body (with_leases answer.1 shop_db)))
            × ((l : ReconcileLease) × (find (is_of_environment 2) answer.1 ≡ some l)
                × (l.owner ≡ "a")
                × (l.leased_until ≡ 10 + reconcile_lease_duration))
            × Holds (IsReleased 2 "a") (under_lease 10 2 "a" body shop_db)))
lease_guards_call_example = lease_guards_call 10 2 "a" body shop_db

only_b : IsOnePending 1 2 quiet_db
only_b a b (inl e) (inl e') la lb = cc
only_b a b (inl e) (inr none') la lb = absurd none'
only_b a b (inr none') m la lb = absurd none'

reconcile_keeps_one_example :
    Gives (λ r db'. IsOnePending 1 2 db') (reconcile formats 9 50 900 40 "shop" "prod" quiet_db)
reconcile_keeps_one_example =
    reconcile_keeps_one formats 9 50 1 2 900 40 "shop" "prod" quiet_db only_b

reconcile_returns_example :
    Gives
      (λ r db'.
        (env : Environment) × (get_environment "shop" "prod" quiet_db ≡ ok env)
        × IsPlanFor env r db')
      (reconcile formats 9 50 900 40 "shop" "prod" quiet_db)
reconcile_returns_example = reconcile_returns formats 9 50 900 40 "shop" "prod" quiet_db

abbrev both_models : List String
both_models = "model.a" ∷ "model.b" ∷ []

replan_selects_example :
    (q : EnvironmentRunPlan) × (db' : ReconcileDb) × (replan_pending_plan formats 50 9 stored_plan
        shop_db
      ≡ returned q db')
    × IsStored 31 q db'
    × (q.selected_resources ≡ both_models)
    × (both_models ≡ [] → q.status ≡ completed)
    × (both_models ≢ []
        → (q.status ≡ stored_plan.status) × (q.selection_spec ≡ some (live_spec (both_models))))
unfolding parse latest_manifest_run_id_for_commit select_resources
replan_selects_example =
    replan_selects formats 9 50 stored_plan shop_db "deadbeef" 6 7 (both_models) refl refl refl refl
      refl refl

abbrev pub preparer : Preparer Unit
preparer = record { prepare_remote_execution = λ invocation command args project slug. give tt }

abbrev pub starter : InvocationStarter Unit
starter = record { start_prepared_invocation = λ invocation command plan prepared. give invocation }

abbrev leased_db : ReconcileDb
leased_db =
    with_leases (acquire_environment_reconcile_lease 50 2 "admit:77" reconcile_lease_duration []).1
      shop_db

conflict_prevents_start_example :
    (db'' : ReconcileDb) × (admit_and_start_plan formats preparer 9 50 77 starter 32 shop_db
      ≡ returned
          (record { plan = blocked_row 50 (some 5) overlap_message plan_b; invocation_id = none })
          db'')
    × (plan_at 32 db''.plan_db.plans ≡ some (blocked_row 50 (some 5) overlap_message plan_b))
unfolding acquire_environment_reconcile_lease replan_pending_plan
    list_active_conflicting_invocations
conflict_prevents_start_example =
    conflict_prevents_start formats preparer starter 9 50 77 32 5 [] shop_db leased_db plan_b plan_b
      refl refl (refl, refl) refl refl
