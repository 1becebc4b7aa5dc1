-- ===== src/Planning/Selected.antt =====
-- What `plan_code_change_selected_resources` returns: it returns on acyclic manifests, selects only
-- what is downstream of a change, and leaves no change out.
use dbtx.Prelude.{
  ℕ, ◌<◌, String, Bool, true, false, ◌≡◌, ◌⊎◌, refl, inl, inr, Option, none, some, List, [], ◌∷◌,
  ◌==◌, option_eq, string_eq, arith, sort_by, Elem, Elem-sort_by, Option-cases, Bool-cases,
}
use dbtx.Planning.{PlanningManifestNode, CurrentNodeState}
use dbtx.Planning.Closure.{text_le, find_last, is_node, directly_modified}
use dbtx.Planning.Ancestor.{
  Memo, Answer, is_current, current_checksum, compute_ancestor_requirement,
}
use dbtx.Planning.Select.{
  kept_if, verdict, select, sorted, selection_found, is_empty, plan_code_change_selected_resources,
}
use dbtx.Planning.Reach.{Reaches, root, step}
use dbtx.Planning.Candidates.{candidates_are_downstream}
use dbtx.Planning.Chosen.{IsReturned, select_returns}

-- The node's current checksum is not the target's.
abbrev pub IsOutdated : List PlanningManifestNode → List CurrentNodeState → String → Type 0
IsOutdated target current u =
    (n : PlanningManifestNode) × (find_last (is_node u) target ≡ some n)
    × ((current_checksum (find_last (is_current u) current) == n.checksum) ≡ false)

-- What one step adds.
kept_inside :
    (b : Bool) (u : String) (o : Option (List String)) (r : List String)
    → kept_if b u o ≡ some r
    → (o' : List String) × (o ≡ some o')
      × ((v : String) → Elem v r → (v ≡ u) ⊎ Elem v o')
      × ((v : String) → Elem v o' → Elem v r)
      × (b ≡ true → Elem u r)
kept_inside b u none r h = absurd (cc h)
kept_inside true u (some o') r h =
    let e : (u ∷ o') ≡ r = cc in rw (← e) (o', refl, (λ v m. m), (λ v m. inr m), (λ t. inl refl))
kept_inside false u (some o') r h =
    let e : o' ≡ r = cc in rw (← e) (o', refl, (λ v m. inr m), (λ v m. m), (λ t. absurd (cc t)))

verdict_of_outdated :
    (target : List PlanningManifestNode) (current : List CurrentNodeState) (u : String)
    (memo memo' : Memo) (a : Answer) (b : Bool)
    → IsOutdated target current u
    → verdict (find_last (is_node u) target) (find_last (is_current u) current) memo a
      ≡ some (b, memo')
    → b ≡ true
verdict_of_outdated target current u memo memo' none b (n, at, differs) h = absurd (cc (rw at at h))
verdict_of_outdated target current u memo memo' (some (req, m)) b (n, at, differs) h =
    ground (arith, rw at at h)

module _ (fuel : ℕ) (modified candidate : List String) (edges : List (String × String))
    (target : List PlanningManifestNode) (current : List CurrentNodeState) where
  select_inside :
      (us r : List String) (memo : Memo)
      → select fuel modified candidate edges target current us memo ≡ some r
      → ((v : String) → Elem v r → Elem v us)
        × ((v : String) → Elem v us → IsOutdated target current v → Elem v r)
  unfolding select
  select_inside [] r memo h = let e : [] ≡ r = cc in rw (← e) ((λ v m. m), (λ v m _. m))
  select_inside (u ∷ rest) r memo h =
      elim (Option-cases (
        verdict (find_last (is_node u) target) (find_last (is_current u) current) memo
          (compute_ancestor_requirement modified candidate edges target current fuel u memo))) [
            | inl e ↦ absurd (cc (rw e at h))
            | inr ((b, memo'), e) ↦
                let (o, at, only, all, keep) =
                  kept_inside b u (select fuel modified candidate edges target current rest memo') r
                    (rw e at h) in
                let (inside, complete) = select_inside rest o memo' at in
                (
                  λ v m. elim (only v m) [ inl same ↦ inl same | inr old ↦ inr (inside v old) ],
                  λ v m out. elim m [
                    | inl same ↦ rw same (
                        keep
                          (verdict_of_outdated target current u memo memo' _ b (rw same at out) e))
                    | inr old ↦ all v (complete v old out)
                  ],
                )
          ]

nothing_reached :
    (target : List PlanningManifestNode) (edges : List (String × String)) (roots : List String)
    (u : String)
    → is_empty roots ≡ true
    → Reaches target edges roots u
    → ⊥
nothing_reached target edges [] u h (root m) = m
nothing_reached target edges (x ∷ rest) u h (root m) = cc h
nothing_reached target edges roots u h (step before along t) =
    nothing_reached target edges roots _ h before

sorted_inside :
    (o : Option (List String)) (us : List String)
    → sorted o ≡ some us
    → (r : List String) × (o ≡ some r) × (us ≡ sort_by text_le r)
unfolding sorted
sorted_inside none us h = absurd (cc h)
sorted_inside (some r) us h = (r, refl, cc)

-- Whenever the selection returns, it selects only nodes downstream of a directly modified node, and
-- it selects every such node whose checksum in the environment is not that of the target manifest.
pub selected_by_change :
    (fuel : ℕ) (baseline target : List PlanningManifestNode) (edges : List (String × String))
    (current : List CurrentNodeState) (us : List String)
    → plan_code_change_selected_resources fuel baseline target edges current ≡ some us
    → ((u : String) → Elem u us → Reaches target edges (directly_modified baseline target) u)
      × ((u : String)
          → Reaches target edges (directly_modified baseline target) u
          → IsOutdated target current u
          → Elem u us)
unfolding plan_code_change_selected_resources selection_found
selected_by_change fuel baseline target edges current us h =
    let roots = directly_modified baseline target in
    elim (Bool-cases (is_empty roots)) [
      | inl none' ↦
          let e : [] ≡ us = cc (rw none' at h) in
          rw (← e) (
            (λ u m. absurd m),
            (λ u reach out. absurd (nothing_reached target edges roots u none' reach)),
          )
      | inr more ↦
          let (c, found, exact) = candidates_are_downstream baseline target edges in
          let (r, made, same) = sorted_inside _ us (rw found at (rw more at h)) in
          let (inside, complete) =
            select_inside fuel roots c edges target current (sort_by text_le c) r [] made in
          (
            λ u m. (exact u).0 (
                (Elem-sort_by text_le u c).0
                  (inside u ((Elem-sort_by text_le u r).0 (rw same at m)))),
            λ u reach out. rw same (
                (Elem-sort_by text_le u r).1
                  (complete u ((Elem-sort_by text_le u c).1 ((exact u).1 reach)) out)),
          )
    ]

sorted_returns : (o : Option (List String)) → IsReturned o → IsReturned (sorted o)
unfolding sorted
sorted_returns o (us, e) = rw e (sort_by text_le us, refl)

-- When a rank falls along the edges of the manifest, which says that they have no cycle, and the
-- fuel is above all ranks, the selection returns.
pub selection_returns :
    (fuel : ℕ) (baseline target : List PlanningManifestNode) (edges : List (String × String))
    (current : List CurrentNodeState) (rank : String → ℕ)
    → ((p u : String) → Elem (p, u) edges → rank p < rank u)
    → ((u : String) → rank u < fuel)
    → (us : List String) × (plan_code_change_selected_resources fuel baseline target edges current
        ≡ some us)
unfolding plan_code_change_selected_resources selection_found
selection_returns fuel baseline target edges current rank falls deep =
    let roots = directly_modified baseline target in
    elim (Bool-cases (is_empty roots)) [
      | inl none' ↦ rw none' ([], refl)
      | inr more ↦
          let (c, found, exact) = candidates_are_downstream baseline target edges in
          rw more (
            rw found (
              sorted_returns _ (
                select_returns roots c edges target current rank falls fuel (sort_by text_le c) []
                  deep)))
    ]
