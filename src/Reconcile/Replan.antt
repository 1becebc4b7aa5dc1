-- ===== src/Reconcile/Replan.antt =====
-- src/services/planning.rs: `replan_pending_plan`, which brings the selection of a plan up to date
-- before it is admitted.
use dbtx.Prelude.{
  ℕ, String, Bool, true, false, ◌||◌, not, Option, none, some, List, [], ◌∷◌, ◌==◌, string_eq,
  option_eq, if◌then◌else◌,
}
use dbtx.Status.ReconcileReason.{ReconcileReason, parse, code_change, source_state_change}
use dbtx.Plan.{EnvironmentRunPlan}
use dbtx.Plan.Lifecycle.{texts_beq, update_environment_run_plan_selection}
use dbtx.Plan.Outcome.{mark_environment_run_plan_completed_noop}
use dbtx.Planning.Select.{is_empty}
use dbtx.Source.Events.{are_source_state_events_satisfied}
use dbtx.Reconcile.Formats.{Formats}
use dbtx.Reconcile.Identity.{plan_source_event_ids}
use dbtx.Reconcile.Action.{Action, give, gets, from_result, from_fuel, on_plans, ◌>>=◌}
use dbtx.Reconcile.Queries.{latest_manifest_run_id_for_commit}
use dbtx.Reconcile.Derive.{StalenessOracle, db_oracle, live_spec, select_resources}

module _ (formats : Formats) (now : ℕ) where
  abbrev pub replanned_metadata : EnvironmentRunPlan → String → String
  replanned_metadata p mode =
      formats.with_text (formats.with_text p.metadata "last_replanned_at" (formats.rfc3339 now))
        "replanning_mode" mode

  abbrev pub noop : EnvironmentRunPlan → String → String → Action EnvironmentRunPlan
  noop p message metadata =
      on_plans (mark_environment_run_plan_completed_noop now p.plan_id message metadata)

  abbrev pub reselect :
      EnvironmentRunPlan → Option String → List String → String → Action EnvironmentRunPlan
  reselect p spec resources metadata =
      on_plans (update_environment_run_plan_selection now p.plan_id spec resources metadata)

  -- No resource left, another selection, or the same one.
  unfoldable pub store_selection : EnvironmentRunPlan → List String → Action EnvironmentRunPlan
  unfolding mark_environment_run_plan_completed_noop update_environment_run_plan_selection
  store_selection p resources =
      if is_empty resources
      then noop p "plan already reconciled by prior run progress"
          (replanned_metadata p "live_state_diff")
      else if not (texts_beq resources p.selected_resources)
          || not (some (live_spec resources) == p.selection_spec)
      then reselect p (some (live_spec resources)) resources
          (replanned_metadata p "live_state_diff")
      else reselect p p.selection_spec p.selected_resources (replanned_metadata p "live_state_diff")

  unfoldable pub replan_to_target :
      ℕ → EnvironmentRunPlan → ℕ → Option ℕ → Action EnvironmentRunPlan
  unfolding select_resources store_selection
  replan_to_target fuel p baseline none = give p
  replan_to_target fuel p baseline (some target) = do
    resources ←
        λ db. from_fuel (select_resources fuel p.project_id p.environment_id baseline target db) db
    store_selection p resources

  unfoldable pub replan_code_change_plan :
      ℕ → EnvironmentRunPlan → ℕ → Option String → Action EnvironmentRunPlan
  unfolding replan_to_target latest_manifest_run_id_for_commit
  replan_code_change_plan fuel p baseline none = give p
  replan_code_change_plan fuel p baseline (some sha) = do
    target ← gets (latest_manifest_run_id_for_commit p.project_id p.environment_id sha)
    replan_to_target fuel p baseline target

  unfoldable pub store_stale : EnvironmentRunPlan → List String → Action EnvironmentRunPlan
  unfolding mark_environment_run_plan_completed_noop update_environment_run_plan_selection
  store_stale p stale =
      if is_empty stale
      then noop p "all downstream nodes already satisfy source watermarks"
          (replanned_metadata p "watermark_stale_replan")
      else if not (texts_beq stale p.selected_resources)
      then reselect p (some "source_downstream_stale") stale
          (replanned_metadata p "watermark_stale_replan")
      else reselect p p.selection_spec p.selected_resources
          (replanned_metadata p "watermark_stale_replan")

  abbrev pub stale_nodes :
      StalenessOracle → EnvironmentRunPlan → List String → List ℕ → ℕ → Action (List String)
  stale_nodes staleness p [] ids baseline = give p.selected_resources
  stale_nodes staleness p (k ∷ ks) ids baseline =
      from_result
        (staleness.list_stale_downstream_nodes p.project_id p.environment_id (k ∷ ks) ids baseline)

  abbrev pub replan_unless_satisfied :
      StalenessOracle → EnvironmentRunPlan → List ℕ → ℕ → Bool → Action EnvironmentRunPlan
  replan_unless_satisfied staleness p ids baseline true =
      noop p "source-triggered plan already satisfied by a successful plan"
        (replanned_metadata p "watermark_stale_replan")
  replan_unless_satisfied staleness p ids baseline false = do
    stale ← stale_nodes staleness p (formats.texts_at "source_keys" p.metadata) ids baseline
    store_stale p stale

  unfoldable pub replan_for_events :
      StalenessOracle → EnvironmentRunPlan → List ℕ → ℕ → Action EnvironmentRunPlan
  unfolding store_stale are_source_state_events_satisfied
  replan_for_events staleness p [] baseline = give p
  replan_for_events staleness p (i ∷ is) baseline = do
    satisfied ← gets (λ db.
        are_source_state_events_satisfied p.project_id p.environment_id (i ∷ is) db.source_db)
    replan_unless_satisfied staleness p (i ∷ is) baseline satisfied

  unfoldable pub replan_source_state_change_plan :
      StalenessOracle → EnvironmentRunPlan → ℕ → Action EnvironmentRunPlan
  unfolding replan_for_events plan_source_event_ids
  replan_source_state_change_plan staleness p baseline =
      replan_for_events staleness p (plan_source_event_ids formats p.source_event_id p.metadata)
        baseline

  unfoldable pub replan_for :
      ℕ → EnvironmentRunPlan → ℕ → Option ReconcileReason → Action EnvironmentRunPlan
  unfolding replan_code_change_plan replan_source_state_change_plan db_oracle
  replan_for fuel p baseline none db = give p db
  replan_for fuel p baseline (some code_change) db =
      replan_code_change_plan fuel p baseline p.target_git_commit_sha db
  replan_for fuel p baseline (some source_state_change) db =
      replan_source_state_change_plan (db_oracle db.source_db) p baseline db

  abbrev pub replan_from : ℕ → EnvironmentRunPlan → Option ℕ → Action EnvironmentRunPlan
  unfolding parse
  replan_from fuel p none = give p
  replan_from fuel p (some baseline) = replan_for fuel p baseline (parse p.reason)

  unfoldable pub replan_pending_plan : ℕ → EnvironmentRunPlan → Action EnvironmentRunPlan
  unfolding replan_for parse
  replan_pending_plan fuel p = replan_from fuel p p.baseline_run_id
