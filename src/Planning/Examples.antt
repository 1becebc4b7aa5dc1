-- ===== src/Planning/Examples.antt =====
-- A manifest of two models, and the theorems of the planning modules at it.
use dbtx.Prelude.{
  ℕ, ◌<◌, String, ◌≡◌, ◌↔◌, refl, true, none, ap, inl, inr, some, List, [], ◌∷◌, ◌==◌, string_eq,
  arith, if◌then◌else◌, Elem,
}
use dbtx.Planning.{PlanningManifestNode, CurrentNodeState}
use dbtx.Planning.Closure.{candidates, directly_modified}
use dbtx.Planning.Ancestor.{AncestorRequirement, compute_ancestor_requirement}
use dbtx.Planning.MemoTable.{Requires, IsExact, memo-IsExact}
use dbtx.Planning.Select.{plan_code_change_selected_resources}
use dbtx.Planning.Reach.{Reaches}
use dbtx.Planning.Candidates.{candidates_are_downstream}
use dbtx.Planning.Selected.{IsOutdated, selected_by_change, selection_returns}

abbrev model : String → String → PlanningManifestNode
model u c = record { unique_id = u; resource_type = some "model"; checksum = some c }

abbrev old_nodes : List PlanningManifestNode
old_nodes = model "model.a" "1" ∷ model "model.b" "1" ∷ []

abbrev new_nodes : List PlanningManifestNode
new_nodes = model "model.a" "2" ∷ model "model.b" "1" ∷ []

abbrev a_to_b : List (String × String)
a_to_b = ("model.a", "model.b") ∷ []

abbrev ran_once : List CurrentNodeState
ran_once =
    record { unique_id = "model.a"; checksum = some "1"; last_success_at = some 5 }
    ∷ record { unique_id = "model.b"; checksum = some "1"; last_success_at = some 6 }
    ∷ []

abbrev place : String → ℕ
place u = if u == "model.a" then 0 else 1

place_falls : (p u : String) → Elem (p, u) a_to_b → place p < place u
place_falls p u (inl same) =
    let first : p ≡ "model.a" = ap (λ (e : String × String). e.0) same in
    let second : u ≡ "model.b" = ap (λ (e : String × String). e.1) same in
    rw first (rw second (omega arith))
place_falls p u (inr none') = absurd none'

place_is_low : (u : String) → place u < 2
place_is_low u = ground arith

-- The change of the first model reaches the second.
both_run :
    plan_code_change_selected_resources 2 old_nodes new_nodes a_to_b ran_once
    ≡ some ("model.a" ∷ "model.b" ∷ [])
unfolding plan_code_change_selected_resources
both_run = refl

candidates_are_downstream_example :
    (r : List String) × (candidates old_nodes new_nodes a_to_b ≡ some r)
    × ((u : String) → Elem u r ↔ Reaches new_nodes a_to_b (directly_modified old_nodes new_nodes) u)
candidates_are_downstream_example = candidates_are_downstream old_nodes new_nodes a_to_b

selected_by_change_example :
    ((u : String)
      → Elem u ("model.a" ∷ "model.b" ∷ [])
      → Reaches new_nodes a_to_b (directly_modified old_nodes new_nodes) u)
    × ((u : String)
        → Reaches new_nodes a_to_b (directly_modified old_nodes new_nodes) u
        → IsOutdated new_nodes ran_once u
        → Elem u ("model.a" ∷ "model.b" ∷ []))
selected_by_change_example =
    selected_by_change 2 old_nodes new_nodes a_to_b ran_once ("model.a" ∷ "model.b" ∷ []) both_run

selection_returns_example :
    (us : List String) × (plan_code_change_selected_resources 2 old_nodes new_nodes a_to_b ran_once
      ≡ some us)
selection_returns_example =
    selection_returns 2 old_nodes new_nodes a_to_b ran_once place place_falls place_is_low

abbrev unreconciled : AncestorRequirement
unreconciled = record {
  has_unreconciled_ancestor = true;
  latest_reconciled_ancestor_success_at = none;
}

abbrev changed_a : List String
changed_a = "model.a" ∷ []

abbrev both : List String
both = "model.a" ∷ "model.b" ∷ []

memo-IsExact_example :
    Requires changed_a both a_to_b new_nodes ran_once "model.b" unreconciled
    × ((s : AncestorRequirement)
        → Requires changed_a both a_to_b new_nodes ran_once "model.b" s
        → s ≡ unreconciled)
    × IsExact changed_a both a_to_b new_nodes ran_once
        (("model.b", unreconciled) ∷ ("model.a", unreconciled) ∷ [])
unfolding compute_ancestor_requirement
memo-IsExact_example =
    memo-IsExact changed_a both a_to_b new_nodes ran_once 2 "model.b" []
      (("model.b", unreconciled) ∷ ("model.a", unreconciled) ∷ []) unreconciled tt refl
