-- ===== src/Reconcile/Derive.antt =====
-- src/services/planning.rs: `derive_environment_plan`, the reconciliation that an environment needs.
use dbtx.Prelude.{
  ℕ, String, Bool, true, false, ◌&&◌, not, Option, none, some, List, [], ◌∷◌, ◌==◌, string_eq,
  option_eq, if◌then◌else◌, length, map,
}
use dbtx.Error.{
  AppResult, ok, environment_already_reconciled, reconciliation_requires_commit_sha,
  reconciliation_requires_baseline,
}
use dbtx.Status.ReconcileReason.{as_str}
use dbtx.Plan.{ActualState}
use dbtx.Planning.Select.{is_empty, plan_code_change_selected_resources}
use dbtx.Source.{SourceStateEvent, SourceDb}
use dbtx.Source.Stale.{list_stale_downstream_nodes}
use dbtx.Reconcile.{Environment, ReconcileDb}
use dbtx.Reconcile.Formats.{JsonField, flag, text, opt_text, number, id, numbers, texts, Formats}
use dbtx.Reconcile.Identity.{
  ReconcileInputIdentity, code_change_identity, source_state_change_identity,
}
use dbtx.Reconcile.Action.{Action, give, throw, gets, from_result, from_fuel, ◌>>=◌}
use dbtx.Reconcile.Queries.{
  list_manifest_node_unique_ids, load_planning_manifest_nodes, load_manifest_edges,
  load_current_node_state_for_planning, latest_manifest_run_id_for_commit,
}

pub record EnvironmentPlanDraft : Type 0 where
  pub reason : String
  pub input_fingerprint : String
  pub baseline_run_id : Option ℕ
  pub selection_spec : Option String
  pub selected_resources : List String
  pub source_event_id : Option ℕ
  pub metadata : String
  pub code_drift : Bool

-- The capability that planning asks, and its implementation by the database.
pub record StalenessOracle : Type 0 where
  pub list_stale_downstream_nodes : ℕ → ℕ → List String → List ℕ → ℕ → AppResult (List String)

unfoldable pub db_oracle : SourceDb → StalenessOracle
unfolding list_stale_downstream_nodes
db_oracle db = record {
  list_stale_downstream_nodes =
      λ p e keys ids run. ok (list_stale_downstream_nodes p e keys ids run db);
}

abbrev pub first_id : List SourceStateEvent → Option ℕ
first_id [] = none
first_id (ev ∷ rest) = some ev.id

abbrev pub ids_of : List SourceStateEvent → List ℕ
ids_of = map (λ (ev : SourceStateEvent). ev.id)

abbrev pub keys_of : List SourceStateEvent → List String
keys_of = map (λ (ev : SourceStateEvent). ev.source_key)

abbrev pub no_events : List SourceStateEvent → Bool
no_events [] = true
no_events (ev ∷ rest) = false

abbrev pub has_drift : Environment → ActualState → Bool
has_drift env actual = not (env.git_commit_sha == actual.last_successful_commit_sha)

abbrev pub live_spec : List String → String
live_spec us = if is_empty us then "state_modified_live" else "state_modified_live_plus"

-- `plan_code_change_selected_resources` on the manifests of two runs.
unfoldable pub select_resources : ℕ → ℕ → ℕ → ℕ → ℕ → ReconcileDb → Option (List String)
unfolding load_planning_manifest_nodes load_manifest_edges load_current_node_state_for_planning
    plan_code_change_selected_resources
select_resources fuel p e baseline target db =
    plan_code_change_selected_resources fuel (load_planning_manifest_nodes baseline db)
      (load_planning_manifest_nodes target db) (load_manifest_edges target db)
      (load_current_node_state_for_planning p e db)

module _ (formats : Formats) where
  -- The metadata of the three modes, `run` being the target manifest's run.
  abbrev pub drift_fields : ActualState → String → List SourceStateEvent → List (String × JsonField)
  drift_fields actual sha events =
      ("code_drift", flag true)
      ∷ ("actual_commit_sha", opt_text actual.last_successful_commit_sha)
      ∷ ("desired_commit_sha", text sha)
      ∷ ("source_event_count", number (length events))
      ∷ []

  abbrev pub drift_draft :
      ActualState
      → String
      → List SourceStateEvent
      → ReconcileInputIdentity
      → Option ℕ
      → String
      → List String
      → List (String × JsonField)
      → EnvironmentPlanDraft
  drift_draft actual sha events identity baseline spec resources fields = record {
    reason = as_str identity.reason;
    input_fingerprint = identity.fingerprint;
    baseline_run_id = baseline;
    selection_spec = some spec;
    selected_resources = resources;
    source_event_id = none;
    metadata = formats.object (append_fields (drift_fields actual sha events) fields);
    code_drift = true;
  }
    where
      append_fields :
          List (String × JsonField) → List (String × JsonField) → List (String × JsonField)
      append_fields [] ys = ys
      append_fields (x ∷ xs) ys = x ∷ append_fields xs ys

  module _ (fuel : ℕ) (env : Environment) (actual : ActualState)
      (events : List SourceStateEvent) where
    -- By whether the target commit has a manifest, and the environment a baseline.
    unfoldable pub derive_by_manifests : String → Option ℕ → Option ℕ → Action EnvironmentPlanDraft
    unfolding select_resources list_manifest_node_unique_ids
    derive_by_manifests sha (some target) (some baseline) = do
      resources ←
          λ db. from_fuel (select_resources fuel env.project_id env.id baseline target db) db
      give (
          drift_draft actual sha events (code_change_identity formats sha (some baseline))
            (some baseline) (live_spec resources) resources
            (("target_manifest_run_id", id target)
              ∷ ("planning_mode", text "live_state_diff")
              ∷ []))
    derive_by_manifests sha (some target) none = do
      resources ← gets (list_manifest_node_unique_ids target)
      give (
          drift_draft actual sha events (code_change_identity formats sha none) none "full_graph"
            resources
            (("target_manifest_run_id", id target)
              ∷ ("planning_mode", text "initial_full_graph_no_baseline")
              ∷ []))
    derive_by_manifests sha none (some baseline) = do
      resources ← gets (list_manifest_node_unique_ids baseline)
      give (
          drift_draft actual sha events (code_change_identity formats sha (some baseline))
            (some baseline) "full_graph" resources
            (("planning_mode", text "full_graph_fallback_no_target_manifest") ∷ []))
    derive_by_manifests sha none none = throw reconciliation_requires_baseline

    unfoldable pub derive_code_change_plan : Option String → Option ℕ → Action EnvironmentPlanDraft
    unfolding derive_by_manifests latest_manifest_run_id_for_commit
    derive_code_change_plan none baseline = throw reconciliation_requires_commit_sha
    derive_code_change_plan (some sha) baseline = do
      target ← gets (latest_manifest_run_id_for_commit env.project_id env.id sha)
      derive_by_manifests sha target baseline

    abbrev pub source_draft : Option ℕ → List String → EnvironmentPlanDraft
    unfolding source_state_change_identity
    source_draft baseline resources = record {
      reason = as_str (source_state_change_identity (ids_of events)).reason;
      input_fingerprint = (source_state_change_identity (ids_of events)).fingerprint;
      baseline_run_id = baseline;
      selection_spec = some "source_downstream_stale";
      selected_resources = resources;
      source_event_id = first_id events;
      metadata = formats.object (
          ("source_keys", texts (keys_of events))
          ∷ ("source_event_ids", numbers (ids_of events))
          ∷ ("source_event_count", number (length events))
          ∷ ("planning_mode", text "watermark_stale")
          ∷ []);
      code_drift = false;
    }

    unfoldable pub derive_source_state_change_plan :
        StalenessOracle → Option ℕ → Action EnvironmentPlanDraft
    derive_source_state_change_plan staleness none = throw reconciliation_requires_baseline
    derive_source_state_change_plan staleness (some baseline) = do
      resources ← from_result (
          staleness.list_stale_downstream_nodes env.project_id env.id (keys_of events)
            (ids_of events) baseline)
      give (source_draft (some baseline) resources)

    unfoldable pub derive_environment_plan : Action EnvironmentPlanDraft
    unfolding derive_code_change_plan derive_source_state_change_plan db_oracle
    derive_environment_plan db =
        if not (has_drift env actual) && no_events events
        then throw environment_already_reconciled db
        else if has_drift env actual
        then derive_code_change_plan env.git_commit_sha actual.last_successful_run_id db
        else derive_source_state_change_plan (db_oracle db.source_db) actual.last_successful_run_id
            db
