-- ===== src/Planning/Candidates.antt =====
-- The loop's result, whole: it ends, and finds what is downstream of the modified nodes.
use dbtx.Prelude.{
  ℕ, zero, suc, ◌+◌, ◌≤◌, String, Bool, true, false, ◌≡◌, ◌↔◌, refl, inl, inr, some, List, [], ◌∷◌,
  ◌==◌, string_eq, arith, eq_iff, eq_self, length, where_rows, sort_by, length-sort_by, Elem,
  Elem-map, Elem-where_rows, Elem-sort_by,
}
use dbtx.Planning.{PlanningManifestNode}
use dbtx.Planning.Closure.{
  text_le, children, is_new, cons_if, push_children, close, directly_modified, candidates,
}
use dbtx.Planning.Reach.{
  Reaches, root, step, fresh, close_ends, IsSound, IsClosed, push-IsSound, push_keeps, push_adds,
  push_stacks,
}

module _ (target : List PlanningManifestNode) (edges : List (String × String))
    (roots : List String) where
  abbrev Covers : List String → List String → Type 0
  Covers c s = (w : String) → Elem w s → Elem w c

  cons_if-Covers :
      (b : Bool) (v : String) (c s : List String)
      → Covers c s
      → Covers (cons_if b v c) (cons_if b v s)
  cons_if-Covers true v c s h w (inl same) = inl same
  cons_if-Covers true v c s h w (inr old) = inr (h w old)
  cons_if-Covers false v c s h w m = h w m

  push-Covers :
      (us c s : List String)
      → Covers c s
      → Covers (push_children target us c s).0 (push_children target us c s).1
  unfolding push_children
  push-Covers [] c s h = h
  push-Covers (v ∷ rest) c s h =
      push-Covers rest (cons_if (is_new target c v) v c) (cons_if (is_new target c v) v s)
        (cons_if-Covers (is_new target c v) v c s h)

  Elem-children : (u v : String) → Elem v (children edges u) ↔ Elem (u, v) edges
  Elem-children u v = (
    λ m.
        let (e, there, same) =
          (Elem-map (λ (e : String × String). e.1) v (where_rows (λ e. e.0 == u) edges)).0 m in
        let (there', hit) = (Elem-where_rows (λ (e : String × String). e.0 == u) e edges).0 there in
        rw same (rw (← (eq_iff e.0 u).0 hit) there'),
    λ m. (Elem-map (λ (e : String × String). e.1) v (where_rows (λ e. e.0 == u) edges)).1 (
      (u, v),
      (Elem-where_rows (λ (e : String × String). e.0 == u) (u, v) edges).1 (m, eq_self u),
      refl,
    ),
  )

  popped-IsClosed :
      (u : String) (c s : List String)
      → IsClosed target edges roots c (u ∷ s)
      → IsClosed target edges roots
          (push_children target (children edges u) c s).0
          (push_children target (children edges u) c s).1
  popped-IsClosed u c s closed x y m along t =
      elim (push_stacks target edges roots (children edges u) c s x m) [
        | inr on ↦ inl on
        | inl was ↦ elim (closed x y was along t) [
          | inl (inl same) ↦ inr (
              push_adds target edges roots (children edges u) c s y
                ((Elem-children u y).1 (rw (← same) along)) t)
          | inl (inr on) ↦ inl ((push_keeps target edges roots (children edges u) c s x).1 on)
          | inr there ↦ inr ((push_keeps target edges roots (children edges u) c s y).0 there)
        ]
      ]

  close_finds :
      (fuel : ℕ) (c s r : List String)
      → close fuel target edges c s ≡ some r
      → IsSound target edges roots c
      → Covers c s
      → IsClosed target edges roots c s
      → IsSound target edges roots r × Covers r c × IsClosed target edges roots r []
  unfolding close
  close_finds fuel c [] r h sound covers closed =
      let e : c ≡ r = cc in rw (← e) (sound, λ w m. m, closed)
  close_finds zero c (u ∷ s) r h sound covers closed = absurd (cc h)
  close_finds (suc fuel) c (u ∷ s) r h sound covers closed =
      let next = push_children target (children edges u) c s in
      let (sound', covers', closed') =
        close_finds fuel next.0 next.1 r h
          (push-IsSound target edges roots u (children edges u) c s (sound u (covers u (inl refl)))
            (λ v m. (Elem-children u v).0 m) sound)
          (push-Covers (children edges u) c s (λ w m. covers w (inr m)))
          (popped-IsClosed u c s closed) in
      (
        sound',
        λ w m. covers' w ((push_keeps target edges roots (children edges u) c s w).0 m),
        closed',
      )

  reached_is_in :
      (r : List String)
      → Covers r roots
      → IsClosed target edges roots r []
      → (u : String) → Reaches target edges roots u
      → Elem u r
  reached_is_in r covers closed u (root m) = covers u m
  reached_is_in r covers closed v (step {u} before along t) =
      elim (closed u v (reached_is_in r covers closed u before) along t) [
        | inl none' ↦ absurd none'
        | inr there ↦ there
      ]

fresh_is_less :
    (target : List PlanningManifestNode) (c : List String) → fresh target c ≤ length target
fresh_is_less [] c = omega arith
fresh_is_less (n ∷ rest) c = ground (arith, fresh_is_less rest c)

-- The loop that collects the candidates ends for all manifests and edges, cyclic ones included, and
-- its result holds exactly the nodes that are downstream of the directly modified ones along edges
-- to nodes of the target manifest, the modified ones among them.
pub candidates_are_downstream :
    (baseline target : List PlanningManifestNode) (edges : List (String × String))
    → (r : List String) × (candidates baseline target edges ≡ some r)
      × ((u : String) → Elem u r ↔ Reaches target edges (directly_modified baseline target) u)
unfolding candidates
candidates_are_downstream baseline target edges =
    let roots = directly_modified baseline target in
    let stack = sort_by (λ a b. text_le b a) roots in
    let same : length stack ≡ length roots = length-sort_by (λ a b. text_le b a) roots in
    let less = fresh_is_less target roots in
    let (r, ends) =
      close_ends (length roots + length target) target edges roots stack (omega arith) in
    let (sound, covers, closed) =
      close_finds target edges roots (length roots + length target) roots stack r ends
        (λ u m. root m) (λ u m. (Elem-sort_by (λ a b. text_le b a) u roots).0 m)
        (λ u v m along t. inl ((Elem-sort_by (λ a b. text_le b a) u roots).1 m)) in
    (
      r,
      ends,
      λ u. (λ m. sound u m, λ reach. reached_is_in target edges roots r covers closed u reach),
    )
