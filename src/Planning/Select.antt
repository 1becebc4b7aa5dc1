-- ===== src/Planning/Select.antt =====
-- src/services/planning.rs: the rest of `plan_code_change_selected_resources`.
use dbtx.Prelude.{
  ℕ, String, Bool, true, false, ◌||◌, not, Option, none, some, List, [], ◌∷◌, ◌==◌, string_eq,
  option_eq, ltb, if◌then◌else◌, none_or, some_and, sort_by,
}
use dbtx.Planning.{PlanningManifestNode, CurrentNodeState}
use dbtx.Planning.Closure.{text_le, find_last, is_node, directly_modified, candidates}
use dbtx.Planning.Ancestor.{
  AncestorRequirement, Memo, Answer, is_current, current_checksum, current_success_at,
  compute_ancestor_requirement,
}

-- The three ways to be stale. A node that never succeeded is older than any reconciled ancestor.
abbrev pub is_stale : PlanningManifestNode → Option CurrentNodeState → AncestorRequirement → Bool
is_stale n found req =
    not (current_checksum found == n.checksum)
    || req.has_unreconciled_ancestor
    || some_and (λ t. none_or (λ mine. ltb mine t) (current_success_at found))
        req.latest_reconciled_ancestor_success_at

abbrev pub kept_if : Bool → String → Option (List String) → Option (List String)
kept_if b u none = none
kept_if true u (some us) = some (u ∷ us)
kept_if false u (some us) = some us

-- `target_by_id.get(unique_id)?` passes over what is no node of the target.
abbrev pub verdict :
    Option PlanningManifestNode → Option CurrentNodeState → Memo → Answer → Option (Bool × Memo)
verdict none found memo answer = some (false, memo)
verdict (some n) found memo none = none
verdict (some n) found memo (some (req, memo')) = some (is_stale n found req, memo')

abbrev pub then_keep :
    Option (Bool × Memo) → String → (Memo → Option (List String)) → Option (List String)
then_keep none u next = none
then_keep (some (b, memo)) u next = kept_if b u (next memo)

module _ (fuel : ℕ) (modified candidate : List String) (edges : List (String × String))
    (target : List PlanningManifestNode) (current : List CurrentNodeState) where
  -- The `filter_map` over the candidates, with the memo table passed along.
  unfoldable pub select : List String → Memo → Option (List String)
  unfolding compute_ancestor_requirement
  select [] memo = some []
  select (u ∷ rest) memo =
      then_keep
        (verdict (find_last (is_node u) target) (find_last (is_current u) current) memo
          (compute_ancestor_requirement modified candidate edges target current fuel u memo))
        u (λ memo'. select rest memo')

unfoldable pub sorted : Option (List String) → Option (List String)
unfolding sort_by
sorted none = none
sorted (some us) = some (sort_by text_le us)

unfoldable pub selection_found :
    ℕ
    → List String
    → List (String × String)
    → List PlanningManifestNode
    → List CurrentNodeState
    → Option (List String)
    → Option (List String)
unfolding select sorted
selection_found fuel modified edges target current none = none
selection_found fuel modified edges target current (some candidate) =
    sorted (select fuel modified candidate edges target current (sort_by text_le candidate) [])

abbrev pub is_empty : List String → Bool
is_empty [] = true
is_empty (u ∷ us) = false

-- `fuel` bounds the depth of the recursion over ancestors.
unfoldable pub plan_code_change_selected_resources :
    ℕ
    → List PlanningManifestNode
    → List PlanningManifestNode
    → List (String × String)
    → List CurrentNodeState
    → Option (List String)
unfolding candidates selection_found
plan_code_change_selected_resources fuel baseline target edges current =
    if is_empty (directly_modified baseline target)
    then some []
    else selection_found fuel (directly_modified baseline target) edges target current
        (candidates baseline target edges)
