-- ===== src/Source/Closing.antt =====
-- The rounds of the recursive query end with all that is downstream of the keys.
use dbtx.Prelude.{
  ℕ, zero, suc, ◌+◌, ◌≤◌, String, true, false, not, ◌≡◌, ◌↔◌, ◌⊎◌, refl, inl, inr, List, [], ◌∷◌,
  ◌++◌, ◌==◌, string_eq, arith, contains, contains_iff, length, where_rows, Elem, Elem-append,
  Elem-where_rows, Elem-delete_rows, eq_iff, Elem-map, Elem-sort_by, Bool-cases,
}
use dbtx.Planning.Closure.{text_le, set_of}
use dbtx.Source.{ManifestEdge, SourceDb}
use dbtx.Source.Downstream.{
  edges_of, leads_on, new_children, rounds, reachable, is_node_not_source,
  list_downstream_manifest_node_unique_ids,
}

-- A key, or the child of an edge whose parent is downstream.
pub data IsDownstream (edges : List ManifestEdge) (keys : List String) : String → Type 0 where
  start : {u : String} → Elem u keys → IsDownstream edges keys u
  further :
      (e : ManifestEdge)
      → Elem e edges
      → IsDownstream edges keys e.parent_unique_id
      → IsDownstream edges keys e.child_unique_id

-- Edges whose child has not been seen.
abbrev uncovered : List ManifestEdge → List String → ℕ
uncovered edges seen =
    length (where_rows (λ (e : ManifestEdge). not (contains e.child_unique_id seen)) edges)

abbrev IsClosed : List ManifestEdge → List String → Type 0
IsClosed edges seen =
    (e : ManifestEdge) → Elem e edges → Elem e.parent_unique_id seen → Elem e.child_unique_id seen

uncovered_less :
    (edges : List ManifestEdge) (seen seen' : List String)
    → ((a : String) → contains a seen ≡ true → contains a seen' ≡ true)
    → uncovered edges seen' ≤ uncovered edges seen
uncovered_less [] seen seen' more = omega arith
uncovered_less (e ∷ rest) seen seen' more =
    ground (arith, more e.child_unique_id, uncovered_less rest seen seen' more)

uncovered_step :
    (edges : List ManifestEdge) (seen seen' : List String) (e : ManifestEdge)
    → ((a : String) → contains a seen ≡ true → contains a seen' ≡ true)
    → Elem e edges
    → contains e.child_unique_id seen ≡ false
    → contains e.child_unique_id seen' ≡ true
    → uncovered edges seen' + 1 ≤ uncovered edges seen
uncovered_step [] seen seen' e more m out in' = absurd m
uncovered_step (x ∷ rest) seen seen' e more (inl same) out in' =
    let less = uncovered_less rest seen seen' more in
    let out' : contains x.child_unique_id seen ≡ false = rw (← same) out in
    let in'' : contains x.child_unique_id seen' ≡ true = rw (← same) in' in
    rw out' (rw in'' (omega arith))
uncovered_step (x ∷ rest) seen seen' e more (inr m) out in' =
    let less = uncovered_step rest seen seen' e more m out in' in
    ground (arith, more x.child_unique_id)

-- What a new child is.
new_child :
    (edges : List ManifestEdge) (seen : List String) (u : String)
    → Elem u (new_children edges seen)
      ↔ ((e : ManifestEdge) × Elem e edges × (leads_on seen e ≡ true) × (u ≡ e.child_unique_id))
new_child edges seen u =
    let (there, back) =
      Elem-map (λ (e : ManifestEdge). e.child_unique_id) u (where_rows (leads_on seen) edges) in
    (
      λ m.
          let (e, at, same) = there m in
          let (in', on) = (Elem-where_rows (leads_on seen) e edges).0 at in (e, in', on, same),
      λ (e, in', on, same). back (e, (Elem-where_rows (leads_on seen) e edges).1 (in', on), same),
    )

no_new-IsClosed :
    (edges : List ManifestEdge) (seen : List String)
    → new_children edges seen ≡ []
    → IsClosed edges seen
no_new-IsClosed edges seen none' e m p = elim (Bool-cases (contains e.child_unique_id seen)) [
  | inl old ↦ (contains_iff e.child_unique_id seen).0 old
  | inr out ↦
      let on : leads_on seen e ≡ true =
        rw ((contains_iff e.parent_unique_id seen).1 p) (rw out refl) in
      absurd (rw none' at ((new_child edges seen e.child_unique_id).1 (e, m, on, refl)))
]

round_covers :
    (edges : List ManifestEdge) (seen : List String) (u : String) (us : List String)
    → new_children edges seen ≡ u ∷ us
    → uncovered edges (u ∷ us ++ seen) + 1 ≤ uncovered edges seen
round_covers edges seen u us more =
    let (e, m, on, same) = (new_child edges seen u).0 (rw more (inl refl)) in
    uncovered_step edges seen (u ∷ us ++ seen) e
      (λ a h.
        (contains_iff a (u ∷ us ++ seen)).1
          ((Elem-append a (u ∷ us) seen).1 (inr ((contains_iff a seen).0 h))))
      m (ground arith) ((contains_iff e.child_unique_id (u ∷ us ++ seen)).1 (inl (sym' same)))
  where
    sym' : {a b : String} → a ≡ b → b ≡ a
    sym' e = cc

List-cases : (xs : List String) → (xs ≡ []) ⊎ ((u : String) × (us : List String) × (xs ≡ u ∷ us))
List-cases [] = inl refl
List-cases (u ∷ us) = inr (u, us, refl)

rounds-IsClosed :
    (edges : List ManifestEdge) (n : ℕ) (seen : List String)
    → uncovered edges seen ≤ n
    → IsClosed edges (rounds edges n seen)
unfolding rounds
rounds-IsClosed edges zero seen h = elim (List-cases (new_children edges seen)) [
  | inl none' ↦ no_new-IsClosed edges seen none'
  | inr (u, us, more) ↦ let less = round_covers edges seen u us more in absurd (omega arith)
]
rounds-IsClosed edges (suc n) seen h = elim (List-cases (new_children edges seen)) [
  | inl none' ↦ rw none' (no_new-IsClosed edges seen none')
  | inr (u, us, more) ↦
      let less = round_covers edges seen u us more in
      rw more (rounds-IsClosed edges n (u ∷ us ++ seen) (omega arith))
]

rounds_keep :
    (edges : List ManifestEdge) (n : ℕ) (seen : List String) (a : String)
    → Elem a seen
    → Elem a (rounds edges n seen)
unfolding rounds
rounds_keep edges zero seen a m = m
rounds_keep edges (suc n) seen a m = elim (List-cases (new_children edges seen)) [
  | inl none' ↦ rw none' m
  | inr (u, us, more) ↦
      rw more (rounds_keep edges n (u ∷ us ++ seen) a ((Elem-append a (u ∷ us) seen).1 (inr m)))
]

module _ (edges : List ManifestEdge) (keys : List String) where
  rounds_inside :
      (n : ℕ) (seen : List String)
      → ((a : String) → Elem a seen → IsDownstream edges keys a)
      → (a : String) → Elem a (rounds edges n seen)
      → IsDownstream edges keys a
  unfolding rounds
  rounds_inside zero seen sound a m = sound a m
  rounds_inside (suc n) seen sound a m = elim (List-cases (new_children edges seen)) [
    | inl none' ↦ sound a (rw none' at m)
    | inr (u, us, more) ↦
        rounds_inside n (u ∷ us ++ seen)
          (λ b mb. elim ((Elem-append b (u ∷ us) seen).0 mb) [
            | inl new' ↦
                let (e, at, on, same) = (new_child edges seen b).0 (rw more new') in
                rw same (
                  further e at (
                    sound e.parent_unique_id
                      ((contains_iff e.parent_unique_id seen).0 (ground arith))))
            | inr old ↦ sound b old
          ])
          a (rw more at m)
  ]

  inside_closed :
      (c : List String)
      → IsClosed edges c
      → ((a : String) → Elem a keys → Elem a c)
      → (a : String) → IsDownstream edges keys a
      → Elem a c
  inside_closed c closed base a (start m) = base a m
  inside_closed c closed base a (further e m d) =
      closed e m (inside_closed c closed base e.parent_unique_id d)

  pub Elem-reachable : (u : String) → Elem u (reachable edges keys) ↔ IsDownstream edges keys u
  unfolding reachable
  Elem-reachable u = (
    rounds_inside (length edges) keys (λ a m. start m) u,
    inside_closed (rounds edges (length edges) keys)
        (rounds-IsClosed edges (length edges) keys (uncovered_all edges))
        (rounds_keep edges (length edges) keys) u,
  )
    where
      uncovered_all : (es : List ManifestEdge) → uncovered es keys ≤ length es
      uncovered_all [] = omega arith
      uncovered_all (e ∷ rest) = ground (arith, uncovered_all rest)

pub Elem-set_of : (a : String) (us : List String) → Elem a (set_of us) ↔ Elem a us
Elem-set_of a [] = (λ h. h, λ h. h)
Elem-set_of a (u ∷ us) =
    ground (arith, Elem-delete_rows (λ v. v == u) a (set_of us), Elem-set_of a us, eq_iff a u)

nothing_downstream : (edges : List ManifestEdge) (u : String) → IsDownstream edges [] u → ⊥
nothing_downstream edges u (start m) = m
nothing_downstream edges u (further e m d) = nothing_downstream edges e.parent_unique_id d

-- The query returns exactly the nodes of the run's manifest that are no sources and that are one of
-- the keys or downstream of one along the run's edges, which may have cycles.
pub below_is_exact :
    (run : ℕ) (keys : List String) (db : SourceDb) (u : String)
    → Elem u (list_downstream_manifest_node_unique_ids run keys db) ↔ (
        IsDownstream (edges_of run db.manifest_edges) keys u
        × (is_node_not_source db.manifest_nodes run u ≡ true))
unfolding list_downstream_manifest_node_unique_ids
below_is_exact run [] db u = (λ m. absurd m, λ (d, h). nothing_downstream _ u d)
below_is_exact run (k ∷ keys) db u =
    let edges = edges_of run db.manifest_edges in
    let found = reachable edges (k ∷ keys) in
    let test = is_node_not_source db.manifest_nodes run in
    let sorted = Elem-sort_by text_le u (set_of (where_rows test found)) in
    let once = Elem-set_of u (where_rows test found) in
    let passed = Elem-where_rows test u found in
    let exact = Elem-reachable edges (k ∷ keys) u in
    (
      λ m. let (r, h) = passed.0 (once.0 (sorted.0 m)) in (exact.0 r, h),
      λ (d, h). sorted.1 (once.1 (passed.1 (exact.1 d, h))),
    )
