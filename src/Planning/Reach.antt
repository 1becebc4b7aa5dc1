-- ===== src/Planning/Reach.antt =====
-- The candidates are what is reachable from the modified nodes, and the loop that finds them ends.
use dbtx.Prelude.{
  ℕ, zero, suc, ◌+◌, ◌≤◌, String, Bool, true, false, not, ◌≡◌, ◌⊎◌, refl, inl, inr, some, List, [],
  ◌∷◌, ◌==◌, string_eq, arith, eq_iff, contains, contains_iff, length, where_rows, any, Elem,
  Bool-cases,
}
use dbtx.Planning.{PlanningManifestNode}
use dbtx.Planning.Closure.{is_node, is_target, children, is_new, cons_if, push_children, close}

-- Downstream of the roots, along edges to nodes of the target manifest.
pub data Reaches (target : List PlanningManifestNode) (edges : List (String × String))
    (roots : List String) : String → Type 0 where
  root : {u : String} → Elem u roots → Reaches target edges roots u
  step :
      {u v : String}
      → Reaches target edges roots u
      → Elem (u, v) edges
      → is_target target v ≡ true
      → Reaches target edges roots v

-- Target nodes that are not candidates yet.
abbrev pub fresh : List PlanningManifestNode → List String → ℕ
fresh target c =
    length (where_rows (λ (n : PlanningManifestNode). not (contains n.unique_id c)) target)

fresh_less :
    (target : List PlanningManifestNode) (c : List String) (u : String)
    → fresh target (u ∷ c) ≤ fresh target c
fresh_less [] c u = omega arith
fresh_less (n ∷ rest) c u = ground (arith, fresh_less rest c u)

some-find_last :
    (u : String) (target : List PlanningManifestNode) → is_target target u ≡ any (is_node u) target
some-find_last u [] = refl
some-find_last u (n ∷ rest) = ground (arith, some-find_last u rest)

fresh_step :
    (target : List PlanningManifestNode) (c : List String) (u : String)
    → any (is_node u) target ≡ true
    → contains u c ≡ false
    → fresh target (u ∷ c) + 1 ≤ fresh target c
fresh_step [] c u h new' = cc
fresh_step (n ∷ rest) c u h new' = elim (Bool-cases (n.unique_id == u)) [
  | inl hit ↦
      let e : n.unique_id ≡ u = (eq_iff n.unique_id u).0 hit in
      let less = fresh_less rest c u in
      let out : contains n.unique_id c ≡ false = rw e new' in rw hit (rw out (omega arith))
  | inr miss ↦
      let less = fresh_step rest c u (rw miss at h) new' in
      elim (Bool-cases (contains n.unique_id c)) [
        | inl old ↦ rw miss (rw old less)
        | inr out ↦ rw miss (rw out (omega arith))
      ]
]

-- One child costs no more than it removes.
child_cost :
    (target : List PlanningManifestNode) (c s : List String) (u : String)
    → length (cons_if (is_new target c u) u s) + fresh target (cons_if (is_new target c u) u c)
      ≤ length s + fresh target c
child_cost target c s u = elim (Bool-cases (is_new target c u)) [
  | inl yes' ↦ let less = fresh_step target c u (named yes') (unseen yes') in rw yes' (omega arith)
  | inr no' ↦ rw no' (omega arith)
]
  where
    named : is_new target c u ≡ true → any (is_node u) target ≡ true
    named h = ground (arith, some-find_last u target)

    unseen : is_new target c u ≡ true → contains u c ≡ false
    unseen h = ground arith

push_cost :
    (target : List PlanningManifestNode) (us c s : List String)
    → length (push_children target us c s).1 + fresh target (push_children target us c s).0
      ≤ length s + fresh target c
unfolding push_children
push_cost target [] c s = omega arith
push_cost target (u ∷ rest) c s =
    let here = child_cost target c s u in
    let there =
      push_cost target rest (cons_if (is_new target c u) u c) (cons_if (is_new target c u) u s) in
    omega arith

pub close_ends :
    (fuel : ℕ) (target : List PlanningManifestNode) (edges : List (String × String))
    (c s : List String)
    → length s + fresh target c ≤ fuel
    → (r : List String) × (close fuel target edges c s ≡ some r)
unfolding close
close_ends fuel target edges c [] h = (c, refl)
close_ends zero target edges c (u ∷ s) h = absurd (omega arith)
close_ends (suc fuel) target edges c (u ∷ s) h =
    let cost = push_cost target (children edges u) c s in
    close_ends fuel target edges (push_children target (children edges u) c s).0
      (push_children target (children edges u) c s).1 (omega arith)

module _ (target : List PlanningManifestNode) (edges : List (String × String))
    (roots : List String) where
  -- Every candidate is reachable, and what is on the stack is a candidate.
  abbrev pub IsSound : List String → Type 0
  IsSound c = (u : String) → Elem u c → Reaches target edges roots u

  -- What is downstream of a candidate that is not on the stack is a candidate.
  abbrev pub IsClosed : List String → List String → Type 0
  IsClosed c s =
      (u v : String)
      → Elem u c
      → Elem (u, v) edges
      → is_target target v ≡ true
      → Elem u s ⊎ Elem v c

  pub push-IsSound :
      (u : String) (us c s : List String)
      → Reaches target edges roots u
      → ((v : String) → Elem v us → Elem (u, v) edges)
      → IsSound c
      → IsSound (push_children target us c s).0
  unfolding push_children
  push-IsSound u [] c s r along sound = sound
  push-IsSound u (v ∷ rest) c s r along sound =
      push-IsSound u rest (cons_if (is_new target c v) v c) (cons_if (is_new target c v) v s) r
        (λ w m. along w (inr m)) (grown (is_new target c v) refl)
    where
      grown : (b : Bool) → is_new target c v ≡ b → IsSound (cons_if b v c)
      grown true e w (inl same) = rw same (step r (along v (inl refl)) (ground arith))
      grown true e w (inr old) = sound w old
      grown false e w m = sound w m

  cons_if_keeps : (b : Bool) (v w : String) (c : List String) → Elem w c → Elem w (cons_if b v c)
  cons_if_keeps true v w c m = inr m
  cons_if_keeps false v w c m = m

  pub push_keeps :
      (us c s : List String) (w : String)
      → (Elem w c → Elem w (push_children target us c s).0)
        × (Elem w s → Elem w (push_children target us c s).1)
  unfolding push_children
  push_keeps [] c s w = (λ m. m, λ m. m)
  push_keeps (v ∷ rest) c s w =
      let on =
        push_keeps rest (cons_if (is_new target c v) v c) (cons_if (is_new target c v) v s) w in
      (
        λ m. on.0 (cons_if_keeps (is_new target c v) v w c m),
        λ m. on.1 (cons_if_keeps (is_new target c v) v w s m),
      )

  -- Of the pushed list, every target is a candidate afterwards.
  pub push_adds :
      (us c s : List String) (w : String)
      → Elem w us
      → is_target target w ≡ true
      → Elem w (push_children target us c s).0
  unfolding push_children
  push_adds [] c s w m t = absurd m
  push_adds (v ∷ rest) c s w (inr m) t =
      push_adds rest (cons_if (is_new target c v) v c) (cons_if (is_new target c v) v s) w m t
  push_adds (v ∷ rest) c s w (inl same) t =
      (push_keeps rest (cons_if (is_new target c v) v c) (cons_if (is_new target c v) v s) w).0
        (added (contains v c) refl)
    where
      added : (b : Bool) → contains v c ≡ b → Elem w (cons_if (is_new target c v) v c)
      added true e = cons_if_keeps (is_new target c v) v w c (rw same ((contains_iff v c).0 e))
      added false e =
          let hit : is_new target c v ≡ true = rw (← same) (rw t (rw same (rw e refl))) in
          rw hit (inl same)

  -- A candidate after the push was one before, or is on the stack.
  pub push_stacks :
      (us c s : List String) (w : String)
      → Elem w (push_children target us c s).0
      → Elem w c ⊎ Elem w (push_children target us c s).1
  unfolding push_children
  push_stacks [] c s w m = inl m
  push_stacks (v ∷ rest) c s w m =
      elim (push_stacks rest (cons_if (is_new target c v) v c) (cons_if (is_new target c v) v s) w
        m) [ inr on ↦ inr on | inl was ↦ first (is_new target c v) refl was ]
    where
      first :
          (b : Bool)
          → is_new target c v ≡ b
          → Elem w (cons_if b v c)
          → Elem w c ⊎ Elem w (push_children target (v ∷ rest) c s).1
      first true e (inl same) = inr (
          (push_keeps rest (cons_if (is_new target c v) v c) (cons_if (is_new target c v) v s) w).1
            (rw e (inl same)))
      first true e (inr old) = inl old
      first false e old = inl old
