-- ===== src/Plan/Conflict.antt =====
-- src/db/reconciliation.rs: `list_active_conflicting_invocations`.
use dbtx.Prelude.{
  ℕ, String, Bool, true, false, ◌&&◌, not, Option, none, some, List, [], ◌∷◌, ◌++◌, ◌==◌, nat_eq,
  string_eq, leb, is_none, some_and, contains, map, any, find, where_rows, delete_rows, sort_by,
}
use dbtx.Status.PlanStatus.{PlanStatus, admitted}
use dbtx.Invocation.{Invocation, is_running}
use dbtx.Invocation.Queue.{has_id}
use dbtx.Plan.{EnvironmentRunPlan, SelectedResource, PlanDb}
use dbtx.Plan.Lifecycle.{is_plan}

-- `active_resource_conflicts`: a resource of the plan that an invocation has not finished.
abbrev pub is_reserved : EnvironmentRunPlan → SelectedResource → Bool
is_reserved p s =
    s.project_id == p.project_id
    && s.environment_id == p.environment_id
    && contains s.unique_id p.selected_resources
    && is_none s.finished_at

abbrev pub is_admitted : PlanStatus → Bool
is_admitted admitted = true
is_admitted _ = false

abbrev pub is_in_progress : ℕ → Invocation → Bool
is_in_progress j inv = has_id j inv && is_running inv.status && is_none inv.completed_at

abbrev pub overlaps : List String → List String → Bool
overlaps us vs = any (λ u. contains u vs) us

-- `admitted_plan_conflicts`: an admitted plan of the environment with a common resource, whose
-- invocation still runs.
abbrev pub is_rival : List Invocation → EnvironmentRunPlan → EnvironmentRunPlan → Bool
is_rival invocations p other =
    other.project_id == p.project_id
    && other.environment_id == p.environment_id
    && not (other.plan_id == p.plan_id)
    && is_admitted other.status
    && some_and (λ j. any (is_in_progress j) invocations) other.admitted_invocation_id
    && overlaps other.selected_resources p.selected_resources

-- `DISTINCT`.
unfoldable pub distinct : List ℕ → List ℕ
distinct [] = []
distinct (x ∷ rest) = x ∷ delete_rows (λ y. y == x) (distinct rest)

abbrev pub cons_some : Option ℕ → List ℕ → List ℕ
cons_some none xs = xs
cons_some (some j) xs = j ∷ xs

abbrev pub some_ids : List EnvironmentRunPlan → List ℕ
some_ids [] = []
some_ids (p ∷ rest) = cons_some p.admitted_invocation_id (some_ids rest)

abbrev pub conflicts_of : EnvironmentRunPlan → PlanDb → List ℕ
conflicts_of p db =
    map (λ (s : SelectedResource). s.invocation_id)
      (where_rows (is_reserved p) db.selected_resources)
    ++ some_ids (where_rows (is_rival db.invocations p) db.plans)

abbrev pub conflicts_found : Option EnvironmentRunPlan → PlanDb → List ℕ
conflicts_found none db = []
conflicts_found (some p) db = conflicts_of p db

-- The ids in ascending order.
unfoldable pub list_active_conflicting_invocations : ℕ → PlanDb → List ℕ
unfolding distinct sort_by
list_active_conflicting_invocations i db =
    sort_by leb (distinct (conflicts_found (find (is_plan i) db.plans) db))
