-- ===== src/Planning/Closure.antt =====
-- src/services/planning.rs: the directly modified nodes, and the loop that adds what is downstream
-- of them. A `BTreeMap` that is collected from a list keeps the last entry of a key. The top of the
-- stack is the head of its list.
use Prim.Native.Nat.{Ordering}
use Prim.Native.String.{compare}
use dbtx.Prelude.{
  ℕ, zero, suc, ◌+◌, String, Bool, true, false, ◌&&◌, ◌||◌, not, Option, none, some, List, [], ◌∷◌,
  ◌==◌, string_eq, option_eq, if◌then◌else◌, is_some, coalesce, contains, map, where_rows,
  delete_rows, sort_by, length,
}
use dbtx.Planning.{PlanningManifestNode}

abbrev pub text_le : String → String → Bool
text_le a b = elim (compare a b) [ Ordering.gt ↦ false | _ ↦ true ]

abbrev pub find_last {ℓ} : {A : Type ℓ} → (A → Bool) → List A → Option A
find_last p [] = none
find_last p (x ∷ rest) = coalesce (find_last p rest) (if p x then some x else none)

abbrev pub is_node : String → PlanningManifestNode → Bool
is_node u n = n.unique_id == u

abbrev pub checksum_of : Option PlanningManifestNode → Option String
checksum_of none = none
checksum_of (some n) = n.checksum

abbrev pub is_build_plannable_resource_type : Option String → Bool
is_build_plannable_resource_type none = false
is_build_plannable_resource_type (some t) =
    t == "model" || t == "seed" || t == "snapshot" || t == "test" || t == "unit_test"

abbrev pub is_modified : List PlanningManifestNode → PlanningManifestNode → Bool
is_modified baseline n =
    is_build_plannable_resource_type n.resource_type
    && not (checksum_of (find_last (is_node n.unique_id) baseline) == n.checksum)

-- A `BTreeSet` holds an element once; its order matters only where it is iterated.
abbrev pub set_of : List String → List String
set_of [] = []
set_of (u ∷ rest) = u ∷ delete_rows (λ v. v == u) (set_of rest)

abbrev pub directly_modified : List PlanningManifestNode → List PlanningManifestNode → List String
directly_modified baseline target =
    set_of
      (map (λ (n : PlanningManifestNode). n.unique_id) (where_rows (is_modified baseline) target))

abbrev pub is_target : List PlanningManifestNode → String → Bool
is_target target u = is_some (find_last (is_node u) target)

abbrev pub children : List (String × String) → String → List String
children edges u = map (λ (e : String × String). e.1) (where_rows (λ e. e.0 == u) edges)

abbrev pub parents : List (String × String) → String → List String
parents edges u = map (λ (e : String × String). e.0) (where_rows (λ e. e.1 == u) edges)

-- `target_by_id.contains_key(child) && candidate.insert(child)`.
abbrev pub is_new : List PlanningManifestNode → List String → String → Bool
is_new target candidate u = is_target target u && not (contains u candidate)

abbrev pub cons_if : Bool → String → List String → List String
cons_if b u us = if b then u ∷ us else us

-- The inner loop, over the children of one node.
unfoldable pub push_children :
    List PlanningManifestNode → List String → List String → List String → List String × List String
push_children target [] candidate stack = (candidate, stack)
push_children target (u ∷ rest) candidate stack =
    push_children target rest (cons_if (is_new target candidate u) u candidate)
      (cons_if (is_new target candidate u) u stack)

-- The outer loop; `none` when the fuel runs out.
unfoldable pub close :
    ℕ
    → List PlanningManifestNode
    → List (String × String)
    → List String
    → List String
    → Option (List String)
unfolding push_children
close fuel target edges candidate [] = some candidate
close zero target edges candidate (u ∷ stack) = none
close (suc fuel) target edges candidate (u ∷ stack) =
    let next = push_children target (children edges u) candidate stack in
    close fuel target edges next.0 next.1

-- The stack starts with the modified nodes in their order, the last of them on top.
unfoldable pub candidates :
    List PlanningManifestNode
    → List PlanningManifestNode
    → List (String × String)
    → Option (List String)
unfolding close sort_by
candidates baseline target edges =
    let roots = directly_modified baseline target in
    close (length roots + length target) target edges roots (sort_by (λ a b. text_le b a) roots)
