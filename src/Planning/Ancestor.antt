-- ===== src/Planning/Ancestor.antt =====
-- src/services/planning.rs: `compute_ancestor_requirement`, with its memo table passed along.
use dbtx.Prelude.{
  ℕ, zero, suc, max, String, Bool, true, false, ◌&&◌, ◌||◌, Option, none, some, List, [], ◌∷◌, ◌==◌,
  string_eq, option_eq, if◌then◌else◌, is_some, contains,
}
use dbtx.Planning.{PlanningManifestNode, CurrentNodeState}
use dbtx.Planning.Closure.{find_last, is_node, checksum_of, parents}

pub record AncestorRequirement : Type 0 where
  pub has_unreconciled_ancestor : Bool
  pub latest_reconciled_ancestor_success_at : Option ℕ

abbrev pub Memo : Type 0
Memo = List (String × AncestorRequirement)

abbrev pub is_current : String → CurrentNodeState → Bool
is_current u n = n.unique_id == u

abbrev pub current_checksum : Option CurrentNodeState → Option String
current_checksum none = none
current_checksum (some n) = n.checksum

abbrev pub current_success_at : Option CurrentNodeState → Option ℕ
current_success_at none = none
current_success_at (some n) = n.last_success_at

-- What the node itself asks for.
abbrev pub own_requirement :
    List String → List PlanningManifestNode → List CurrentNodeState → String → AncestorRequirement
own_requirement modified target current u =
    let found = find_last (is_current u) current in
    let reconciled =
      current_checksum found == checksum_of (find_last (is_node u) target)
      && is_some (current_success_at found) in
    if contains u modified
    then if reconciled
      then record {
        has_unreconciled_ancestor = false;
        latest_reconciled_ancestor_success_at = current_success_at found;
      }
      else record { has_unreconciled_ancestor = true; latest_reconciled_ancestor_success_at = none }
    else record { has_unreconciled_ancestor = false; latest_reconciled_ancestor_success_at = none }

abbrev pub later_of : Option ℕ → Option ℕ → Option ℕ
later_of (some a) (some b) = some (max a b)
later_of (some a) none = some a
later_of none (some b) = some b
later_of none none = none

abbrev pub merged : AncestorRequirement → AncestorRequirement → AncestorRequirement
merged a b = record {
  has_unreconciled_ancestor = a.has_unreconciled_ancestor || b.has_unreconciled_ancestor;
  latest_reconciled_ancestor_success_at =
      later_of a.latest_reconciled_ancestor_success_at b.latest_reconciled_ancestor_success_at;
}

abbrev pub lookup : String → Memo → Option AncestorRequirement
lookup u [] = none
lookup u ((v, r) ∷ rest) = if v == u then some r else lookup u rest

-- `none` when the recursion is deeper than the fuel.
abbrev pub Answer : Type 0
Answer = Option (AncestorRequirement × Memo)

abbrev pub then_parent : Answer → (AncestorRequirement → Memo → Answer) → Answer
then_parent none next = none
then_parent (some (r, memo)) next = next r memo

-- A parent that is no candidate is passed over.
abbrev pub visited : Bool → AncestorRequirement → Memo → Answer → Answer
visited false req memo answer = some (req, memo)
visited true req memo none = none
visited true req memo (some (r, memo')) = some (merged req r, memo')

-- The loop over the parents, with the recursive call as an argument.
unfoldable pub each_parent :
    (String → Memo → Answer) → List String → List String → AncestorRequirement → Memo → Answer
each_parent call candidate [] req memo = some (req, memo)
each_parent call candidate (p ∷ rest) req memo =
    then_parent (visited (contains p candidate) req memo (call p memo))
      (λ req' memo'. each_parent call candidate rest req' memo')

-- The early return, or the answer that is put into the table.
abbrev pub remembered : String → Option AncestorRequirement → Memo → Answer → Answer
remembered u (some existing) memo answer = some (existing, memo)
remembered u none memo none = none
remembered u none memo (some (req, memo')) = some (req, (u, req) ∷ memo')

module _ (modified candidate : List String) (edges : List (String × String))
    (target : List PlanningManifestNode) (current : List CurrentNodeState) where
  unfoldable pub compute_ancestor_requirement : ℕ → String → Memo → Answer
  unfolding each_parent
  compute_ancestor_requirement zero u memo = none
  compute_ancestor_requirement (suc fuel) u memo = remembered u (lookup u memo) memo (
      each_parent (compute_ancestor_requirement fuel) candidate (parents edges u)
        (own_requirement modified target current u) memo)
