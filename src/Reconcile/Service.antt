-- ===== src/Reconcile/Service.antt =====
-- src/services/environments.rs: `reconcile`, which makes the plan that an environment needs.
use Prim.Native.String.{◌++◌ as append}
use dbtx.Prelude.{ℕ, String, Bool, true, false, Option, none, some, if◌then◌else◌}
use dbtx.Error.{reconciliation_empty_plan}
use dbtx.Plan.{EnvironmentRunPlan}
use dbtx.Plan.Lifecycle.{
  EquivalentPlanLookup, find_equivalent_live_environment_run_plan, CreatePlanInput,
  create_environment_run_plan, supersede_pending_environment_run_plans,
}
use dbtx.Planning.Select.{is_empty}
use dbtx.Source.Events.{list_unsatisfied_source_state_events}
use dbtx.Reconcile.{Environment, ReconcileDb}
use dbtx.Reconcile.Formats.{Formats}
use dbtx.Reconcile.Action.{Action, give, throw, gets, tries, on_plans, ◌>>=◌}
use dbtx.Reconcile.Queries.{
  get_environment, get_environment_actual_state, advance_environment_actual_state_commit,
}
use dbtx.Reconcile.Derive.{EnvironmentPlanDraft, derive_environment_plan}
use dbtx.Reconcile.Admission.{under_lease}

abbrev pub lookup_of : Environment → EnvironmentPlanDraft → EquivalentPlanLookup
lookup_of env draft = record {
  project_id = env.project_id;
  environment_id = env.id;
  reason = draft.reason;
  input_fingerprint = draft.input_fingerprint;
  target_git_branch = env.git_branch;
  target_git_commit_sha = env.git_commit_sha;
  baseline_run_id = draft.baseline_run_id;
  selection_spec = draft.selection_spec;
  selected_resources = draft.selected_resources;
}

abbrev pub input_of : Environment → EnvironmentPlanDraft → CreatePlanInput
input_of env draft = record {
  project_id = env.project_id;
  environment_id = env.id;
  git_branch = env.git_branch;
  git_commit_sha = env.git_commit_sha;
  reason = draft.reason;
  input_fingerprint = draft.input_fingerprint;
  baseline_run_id = draft.baseline_run_id;
  selection_spec = draft.selection_spec;
  selected_resources = draft.selected_resources;
  source_event_id = draft.source_event_id;
  metadata = draft.metadata;
}

-- `plan_id` is fresh.
module _ (now plan_id : ℕ) (env : Environment) (draft : EnvironmentPlanDraft) where
  -- A code change that selects nothing is taken as done.
  abbrev pub advance_commit : Option String → Bool → ReconcileDb → ReconcileDb
  advance_commit (some sha) true =
      advance_environment_actual_state_commit now env.project_id env.id sha
  advance_commit (some sha) false = λ db. db
  advance_commit none b = λ db. db

  abbrev pub reject_empty : Action EnvironmentRunPlan
  reject_empty db =
      throw reconciliation_empty_plan (advance_commit env.git_commit_sha draft.code_drift db)

  abbrev pub supersede_others : EnvironmentRunPlan → Action EnvironmentRunPlan
  unfolding supersede_pending_environment_run_plans
  supersede_others created = do
    _ ← on_plans (supersede_pending_environment_run_plans now env.project_id env.id created.plan_id)
    give created

  unfoldable pub create_and_supersede : Action EnvironmentRunPlan
  unfolding create_environment_run_plan supersede_pending_environment_run_plans
  create_and_supersede = do
    created ← on_plans (create_environment_run_plan now plan_id (input_of env draft))
    supersede_others created

  abbrev pub reuse_or_create : Option EnvironmentRunPlan → Action EnvironmentRunPlan
  unfolding create_and_supersede
  reuse_or_create (some p) = give p
  reuse_or_create none = create_and_supersede

  unfoldable pub store_draft : Action EnvironmentRunPlan
  unfolding create_and_supersede find_equivalent_live_environment_run_plan
  store_draft = if is_empty draft.selected_resources then reject_empty else do
    live ← gets (λ db. find_equivalent_live_environment_run_plan (lookup_of env draft) db.plan_db)
    reuse_or_create live

module _ (formats : Formats) (fuel now : ℕ) where
  unfoldable pub reconcile_with_lease :
      ℕ → String → String → Environment → Action EnvironmentRunPlan
  unfolding store_draft derive_environment_plan list_unsatisfied_source_state_events
  reconcile_with_lease plan_id project slug env = do
    actual ← tries (get_environment_actual_state now project slug)
    events ← gets (λ db. list_unsatisfied_source_state_events env.project_id env.id db.source_db)
    draft ← derive_environment_plan formats fuel env actual events
    store_draft now plan_id env draft

  -- `lease_id` is fresh too.
  unfoldable pub reconcile : ℕ → ℕ → String → String → Action EnvironmentRunPlan
  unfolding reconcile_with_lease under_lease
  reconcile lease_id plan_id project slug = do
    env ← tries (get_environment project slug)
    under_lease now env.id (append "reconcile:" (formats.uuid_text lease_id))
        (reconcile_with_lease plan_id project slug env)
