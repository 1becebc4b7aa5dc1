-- ===== src/Planning/Chosen.antt =====
-- What `plan_code_change_selected_resources` returns, and that it returns.
use dbtx.Prelude.{
  ℕ, zero, suc, ◌<◌, String, Bool, true, false, ◌≡◌, refl, inl, inr, Option, none, some, List, [],
  ◌∷◌, ◌==◌, string_eq, option_eq, arith, eq_iff, contains, where_rows, Elem, Elem-map,
  Elem-where_rows,
}
use dbtx.Planning.{PlanningManifestNode, CurrentNodeState}
use dbtx.Planning.Closure.{find_last, is_node, parents}
use dbtx.Planning.Ancestor.{
  AncestorRequirement, Memo, Answer, is_current, own_requirement, merged, lookup, each_parent,
  visited, remembered, compute_ancestor_requirement,
}
use dbtx.Planning.Select.{is_stale, kept_if, verdict, select}

abbrev pub IsReturned : {A : Type 0} → Option A → Type 0
IsReturned {A} o = (a : A) × (o ≡ some a)

module _ (modified candidate : List String) (edges : List (String × String))
    (target : List PlanningManifestNode) (current : List CurrentNodeState) where
  visited_returns :
      (b : Bool) (req : AncestorRequirement) (memo : Memo) (a : Answer)
      → IsReturned a
      → IsReturned (visited b req memo a)
  visited_returns false req memo a h = ((req, memo), refl)
  visited_returns true req memo a ((r, memo'), e) = rw e ((merged req r, memo'), refl)

  -- The recursion over ancestors returns when a rank falls along the edges.
  each_parent_returns :
      (call : String → Memo → Answer) (ps : List String) (req : AncestorRequirement) (memo : Memo)
      → ((p : String) (memo : Memo) → Elem p ps → IsReturned (call p memo))
      → IsReturned (each_parent call candidate ps req memo)
  unfolding each_parent
  each_parent_returns call [] req memo h = ((req, memo), refl)
  each_parent_returns call (p ∷ rest) req memo h =
      let ((req', memo'), e) =
        visited_returns (contains p candidate) req memo (call p memo) (h p memo (inl refl)) in
      rw e (each_parent_returns call rest req' memo' (λ q m i. h q m (inr i)))

  remembered_returns :
      (u : String) (o : Option AncestorRequirement) (memo : Memo) (a : Answer)
      → IsReturned a
      → IsReturned (remembered u o memo a)
  remembered_returns u (some existing) memo a h = ((existing, memo), refl)
  remembered_returns u none memo a ((req, memo'), e) = rw e ((req, (u, req) ∷ memo'), refl)

  module _ (rank : String → ℕ) (falls : (p u : String) → Elem (p, u) edges → rank p < rank u) where
    parent_falls : (p u : String) → Elem p (parents edges u) → rank p < rank u
    parent_falls p u m =
        let (e, there, same) =
          (Elem-map (λ (e : String × String). e.0) p (where_rows (λ e. e.1 == u) edges)).0 m in
        let (there', hit) = (Elem-where_rows (λ (e : String × String). e.1 == u) e edges).0 there in
        falls p u (rw same (rw (← (eq_iff e.1 u).0 hit) there'))

    requirement_returns :
        (fuel : ℕ) (u : String) (memo : Memo)
        → rank u < fuel
        → IsReturned
            (compute_ancestor_requirement modified candidate edges target current fuel u memo)
    unfolding compute_ancestor_requirement
    requirement_returns zero u memo h = absurd (omega arith)
    requirement_returns (suc fuel) u memo h = remembered_returns u (lookup u memo) memo _ (
        each_parent_returns
          (compute_ancestor_requirement modified candidate edges target current fuel)
          (parents edges u) (own_requirement modified target current u) memo
          λ p memo' m.
            let down = parent_falls p u m in requirement_returns fuel p memo' (omega arith))

    verdict_returns :
        (n : Option PlanningManifestNode) (found : Option CurrentNodeState) (memo : Memo)
        (a : Answer)
        → IsReturned a
        → IsReturned (verdict n found memo a)
    verdict_returns none found memo a h = ((false, memo), refl)
    verdict_returns (some n) found memo a ((req, memo'), e) =
        rw e ((is_stale n found req, memo'), refl)

    kept_returns :
        (b : Bool) (u : String) (o : Option (List String))
        → IsReturned o
        → IsReturned (kept_if b u o)
    kept_returns true u o (us, e) = rw e (u ∷ us, refl)
    kept_returns false u o (us, e) = rw e (us, refl)

    pub select_returns :
        (fuel : ℕ) (us : List String) (memo : Memo)
        → ((u : String) → rank u < fuel)
        → IsReturned (select fuel modified candidate edges target current us memo)
    unfolding select
    select_returns fuel [] memo deep = ([], refl)
    select_returns fuel (u ∷ rest) memo deep =
        let ((b, memo'), e) =
          verdict_returns (find_last (is_node u) target) (find_last (is_current u) current) memo _
            (requirement_returns fuel u memo (deep u)) in
        rw e (kept_returns b u _ (select_returns fuel rest memo' deep))
