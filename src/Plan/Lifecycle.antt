-- ===== src/Plan/Lifecycle.antt =====
-- src/db/reconciliation.rs and src/db/runs.rs: how a plan row is created and moves through its
-- statuses; `automatic_retry_backoff` of src/db/mod.rs.
use dbtx.Prelude.{
  ℕ, ◌+◌, ◌-◌, ◌*◌, ◌^◌, min, String, Bool, true, false, ◌&&◌, ◌||◌, not, Option, none, some, List,
  [], ◌∷◌, ◌++◌, ◌==◌, nat_eq, string_eq, option_eq, ltb, leb, if◌then◌else◌, length, coalesce, any,
  find, where_rows, update_rows,
}
use dbtx.Error.{AppResult, ok, err, sqlx, plan_not_found}
use dbtx.Status.PlanStatus.{PlanStatus, planned, blocked, admitted, superseded}
use dbtx.Plan.{EnvironmentRunPlan, PlanDb}
use dbtx.Invocation.Deadline.{second}

abbrev pub is_plan : ℕ → EnvironmentRunPlan → Bool
is_plan i p = p.plan_id == i

-- `status IN ('planned', 'blocked')`.
abbrev pub is_pending : PlanStatus → Bool
is_pending planned = true
is_pending blocked = true
is_pending _ = false

abbrev pub is_admissible_or_admitted : PlanStatus → Bool
is_admissible_or_admitted planned = true
is_admissible_or_admitted blocked = true
is_admissible_or_admitted admitted = true
is_admissible_or_admitted _ = false

abbrev pub plan_found : ℕ → Option EnvironmentRunPlan → AppResult EnvironmentRunPlan
plan_found i none = err (plan_not_found i)
plan_found i (some p) = ok p

unfoldable pub get_environment_run_plan : ℕ → PlanDb → AppResult EnvironmentRunPlan
get_environment_run_plan i db = plan_found i (find (is_plan i) db.plans)

-- What `create_environment_run_plan` takes, with the four fields of the environment that it reads.
pub record CreatePlanInput : Type 0 where
  pub project_id : ℕ
  pub environment_id : ℕ
  pub git_branch : Option String
  pub git_commit_sha : Option String
  pub reason : String
  pub input_fingerprint : String
  pub baseline_run_id : Option ℕ
  pub selection_spec : Option String
  pub selected_resources : List String
  pub source_event_id : Option ℕ
  pub metadata : String

abbrev pub new_plan : ℕ → ℕ → CreatePlanInput → EnvironmentRunPlan
new_plan now i input = record {
  plan_id = i;
  project_id = input.project_id;
  environment_id = input.environment_id;
  status = planned;
  reason = input.reason;
  input_fingerprint = some input.input_fingerprint;
  target_git_branch = input.git_branch;
  target_git_commit_sha = input.git_commit_sha;
  baseline_run_id = input.baseline_run_id;
  selection_spec = input.selection_spec;
  selected_resources = input.selected_resources;
  resource_count = length input.selected_resources;
  superseded_by_plan_id = none;
  retry_count = 0;
  blocked_by_invocation_id = none;
  admitted_invocation_id = none;
  source_event_id = input.source_event_id;
  error = none;
  failure_count = 0;
  next_attempt_at = none;
  first_blocked_at = none;
  last_blocked_at = none;
  last_checked_at = none;
  admitted_at = none;
  completed_at = none;
  created_at = now;
  updated_at = now;
  metadata = input.metadata;
}

-- `i` is the fresh id; the primary key refuses a second row with it.
unfoldable pub create_environment_run_plan :
    ℕ → ℕ → CreatePlanInput → PlanDb → AppResult (EnvironmentRunPlan × PlanDb)
create_environment_run_plan now i input db =
    if any (is_plan i) db.plans
    then err sqlx
    else ok (new_plan now i input, record db { plans = db.plans ++ new_plan now i input ∷ [] })

pub record EquivalentPlanLookup : Type 0 where
  pub project_id : ℕ
  pub environment_id : ℕ
  pub reason : String
  pub input_fingerprint : String
  pub target_git_branch : Option String
  pub target_git_commit_sha : Option String
  pub baseline_run_id : Option ℕ
  pub selection_spec : Option String
  pub selected_resources : List String

-- `=` of two JSON arrays of texts.
abbrev pub texts_beq : List String → List String → Bool
texts_beq [] [] = true
texts_beq [] (y ∷ ys) = false
texts_beq (x ∷ xs) [] = false
texts_beq (x ∷ xs) (y ∷ ys) = x == y && texts_beq xs ys

abbrev pub is_equivalent : EquivalentPlanLookup → EnvironmentRunPlan → Bool
is_equivalent q p =
    p.project_id == q.project_id
    && p.environment_id == q.environment_id
    && is_pending p.status
    && p.reason == q.reason
    && p.input_fingerprint == some q.input_fingerprint
    && p.target_git_branch == q.target_git_branch
    && p.target_git_commit_sha == q.target_git_commit_sha
    && p.baseline_run_id == q.baseline_run_id
    && p.selection_spec == q.selection_spec
    && texts_beq p.selected_resources q.selected_resources

-- `ORDER BY created_at DESC, plan_id DESC LIMIT 1`.
abbrev pub is_newer : EnvironmentRunPlan → EnvironmentRunPlan → Bool
is_newer a b =
    ltb b.created_at a.created_at || (a.created_at == b.created_at && leb b.plan_id a.plan_id)

abbrev pub newer_of : EnvironmentRunPlan → Option EnvironmentRunPlan → EnvironmentRunPlan
newer_of a none = a
newer_of a (some b) = if is_newer a b then a else b

unfoldable pub newest : List EnvironmentRunPlan → Option EnvironmentRunPlan
newest [] = none
newest (p ∷ rest) = some (newer_of p (newest rest))

unfoldable pub find_equivalent_live_environment_run_plan :
    EquivalentPlanLookup → PlanDb → Option EnvironmentRunPlan
unfolding newest
find_equivalent_live_environment_run_plan q db = newest (where_rows (is_equivalent q) db.plans)

abbrev pub is_superseded_by : ℕ → ℕ → ℕ → EnvironmentRunPlan → Bool
is_superseded_by project_id environment_id by p =
    p.project_id == project_id
    && p.environment_id == environment_id
    && is_pending p.status
    && not (p.plan_id == by)

abbrev pub superseded_row : ℕ → ℕ → EnvironmentRunPlan → EnvironmentRunPlan
superseded_row now by p = record p {
  status = superseded;
  superseded_by_plan_id = some by;
  error = some "superseded by newer reconciliation plan";
  updated_at = now;
}

abbrev pub superseded_db : ℕ → ℕ → ℕ → ℕ → PlanDb → PlanDb
superseded_db now project_id environment_id by db = record db {
  plans =
      update_rows (is_superseded_by project_id environment_id by) (superseded_row now by) db.plans;
}

-- `superseded_by_plan_id` refers to a plan, so that the first row that is to name a plan that is not
-- there ends the statement.
unfoldable pub supersede_pending_environment_run_plans :
    ℕ → ℕ → ℕ → ℕ → PlanDb → AppResult (ℕ × PlanDb)
supersede_pending_environment_run_plans now project_id environment_id by db =
    let pending = is_superseded_by project_id environment_id by in
    if any pending db.plans && not (any (is_plan by) db.plans)
    then err sqlx
    else ok
        (length (where_rows pending db.plans), superseded_db now project_id environment_id by db)

-- An `UPDATE … WHERE plan_id = $1 RETURNING`, read by `fetch_one`.
abbrev pub set_found :
    ℕ
    → (EnvironmentRunPlan → EnvironmentRunPlan)
    → Option EnvironmentRunPlan
    → PlanDb
    → AppResult (EnvironmentRunPlan × PlanDb)
set_found i f none db = err sqlx
set_found i f (some p) db = ok (f p, record db { plans = update_rows (is_plan i) f db.plans })

abbrev pub set_plan :
    ℕ → (EnvironmentRunPlan → EnvironmentRunPlan) → PlanDb → AppResult (EnvironmentRunPlan × PlanDb)
set_plan i f db = set_found i f (find (is_plan i) db.plans) db

abbrev pub blocked_row : ℕ → Option ℕ → String → EnvironmentRunPlan → EnvironmentRunPlan
blocked_row now by message p = record p {
  status = blocked;
  blocked_by_invocation_id = by;
  error = some message;
  retry_count = p.retry_count + 1;
  next_attempt_at = none;
  first_blocked_at = coalesce p.first_blocked_at (some now);
  last_blocked_at = some now;
  last_checked_at = some now;
  updated_at = now;
}

unfoldable pub mark_environment_run_plan_blocked :
    ℕ → ℕ → Option ℕ → String → PlanDb → AppResult (EnvironmentRunPlan × PlanDb)
mark_environment_run_plan_blocked now i by message = set_plan i (blocked_row now by message)

abbrev pub selection_row :
    ℕ → Option String → List String → String → EnvironmentRunPlan → EnvironmentRunPlan
selection_row now spec resources metadata p = record p {
  selection_spec = spec;
  selected_resources = resources;
  resource_count = length resources;
  metadata = metadata;
  next_attempt_at = none;
  last_checked_at = some now;
  updated_at = now;
}

unfoldable pub update_environment_run_plan_selection :
    ℕ → ℕ → Option String → List String → String → PlanDb → AppResult (EnvironmentRunPlan × PlanDb)
update_environment_run_plan_selection now i spec resources metadata =
    set_plan i (selection_row now spec resources metadata)

-- `5 * 2 ^ clamp(n - 1, 0, 6)` seconds and at most 300. A subtraction that would go below 0 is
-- clamped to 0, so the one that stops there gives the same.
unfoldable pub automatic_retry_backoff : ℕ → ℕ
automatic_retry_backoff failure_count = min (5 * 2 ^ min (failure_count - 1) 6) 300 * second
