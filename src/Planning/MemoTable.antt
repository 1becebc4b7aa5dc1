-- ===== src/Planning/MemoTable.antt =====
-- The memo table of `compute_ancestor_requirement` changes no answer.
use dbtx.Prelude.{
  ℕ, zero, suc, String, true, false, ◌≡◌, refl, inl, inr, some, List, [], ◌∷◌, ◌==◌, string_eq,
  eq_iff, contains, All, Bool-cases, Option-cases,
}
use dbtx.Planning.{PlanningManifestNode, CurrentNodeState}
use dbtx.Planning.Closure.{parents}
use dbtx.Planning.Ancestor.{
  AncestorRequirement, Memo, Answer, own_requirement, merged, lookup, each_parent,
  compute_ancestor_requirement,
}

module _ (modified candidate : List String) (edges : List (String × String))
    (target : List PlanningManifestNode) (current : List CurrentNodeState) where
  abbrev own : String → AncestorRequirement
  own = own_requirement modified target current

  -- The requirement of parents, one after the other, with no table: a requirement and a list of
  -- parents lead to the requirement that takes in those of the candidates among them.
  pub data Folds : List String → AncestorRequirement → AncestorRequirement → Type 0 where
    done : {r : AncestorRequirement} → Folds [] r r
    skip :
        {p : String} {ps : List String} {r s : AncestorRequirement}
        → contains p candidate ≡ false
        → Folds ps r s
        → Folds (p ∷ ps) r s
    visit :
        {p : String} {ps : List String} {q r s : AncestorRequirement}
        → contains p candidate ≡ true
        → Folds (parents edges p) (own p) q
        → Folds ps (merged r q) s
        → Folds (p ∷ ps) r s

  -- What a node requires.
  abbrev pub Requires : String → AncestorRequirement → Type 0
  Requires u r = Folds (parents edges u) (own u) r

  abbrev pub IsExact : Memo → Type 0
  IsExact = All (λ e. Requires e.0 e.1)

  lookup-IsExact :
      (u : String) (memo : Memo) (r : AncestorRequirement)
      → IsExact memo
      → lookup u memo ≡ some r
      → Requires u r
  lookup-IsExact u [] r exact h = absurd (cc h)
  lookup-IsExact u ((v, q) ∷ rest) r exact h = elim (Bool-cases (v == u)) [
    | inl hit ↦
        let e : v ≡ u = (eq_iff v u).0 hit in
        let same : q ≡ r = cc (rw hit at h) in rw (← same) (rw (← e) exact.0)
    | inr miss ↦ lookup-IsExact u rest r exact.1 (rw miss at h)
  ]

  -- What the recursive call must do.
  abbrev IsExactCall : (String → Memo → Answer) → Type 0
  IsExactCall call =
      (p : String) (memo memo' : Memo) (r : AncestorRequirement)
      → IsExact memo
      → call p memo ≡ some (r, memo')
      → Requires p r × IsExact memo'

  each_parent-IsExact :
      (call : String → Memo → Answer) (ps : List String) (r s : AncestorRequirement)
      (memo memo' : Memo)
      → IsExactCall call
      → IsExact memo
      → each_parent call candidate ps r memo ≡ some (s, memo')
      → Folds ps r s × IsExact memo'
  unfolding each_parent
  each_parent-IsExact call [] r s memo memo' good exact h =
      let e : r ≡ s = cc in let e' : memo ≡ memo' = cc in rw (← e) (rw (← e') (done, exact))
  each_parent-IsExact call (p ∷ rest) r s memo memo' good exact h =
      elim (Bool-cases (contains p candidate)) [
        | inr no' ↦
            let (f, exact') =
              each_parent-IsExact call rest r s memo memo' good exact (rw no' at h) in
            (skip no' f, exact')
        | inl yes' ↦ elim (Option-cases (call p memo)) [
          | inl e ↦ absurd (cc (rw e at (rw yes' at h)))
          | inr ((q, memo2), e) ↦
              let (wanted, exact2) = good p memo memo2 q exact e in
              let (f, exact') =
                each_parent-IsExact call rest (merged r q) s memo2 memo' good exact2
                  (rw e at (rw yes' at h)) in
              (visit yes' wanted f, exact')
        ]
      ]

  compute-IsExact :
      (fuel : ℕ)
      → IsExactCall (compute_ancestor_requirement modified candidate edges target current fuel)
  unfolding compute_ancestor_requirement
  compute-IsExact zero u memo memo' r exact h = absurd (cc h)
  compute-IsExact (suc fuel) u memo memo' r exact h = elim (Option-cases (lookup u memo)) [
    | inr (q, e) ↦
        let h' : some (q, memo) ≡ some (r, memo') = rw e at h in
        let same : q ≡ r = cc in
        let same' : memo ≡ memo' = cc in
        rw (← same) (rw (← same') (lookup-IsExact u memo q exact e, exact))
    | inl e ↦
        elim (Option-cases (
          each_parent (compute_ancestor_requirement modified candidate edges target current fuel)
            candidate (parents edges u) (own u) memo)) [
              | inl e' ↦ absurd (cc (rw e' at (rw e at h)))
              | inr ((q, memo2), e') ↦
                  let (wanted, exact2) =
                    each_parent-IsExact
                      (compute_ancestor_requirement modified candidate edges target current fuel)
                      (parents edges u) (own u) q memo memo2 (compute-IsExact fuel) exact e' in
                  let h' : some (q, (u, q) ∷ memo2) ≡ some (r, memo') = rw e' at (rw e at h) in
                  let same : q ≡ r = cc in
                  let same' : ((u, q) ∷ memo2) ≡ memo' = cc in
                  rw (← same') (rw (← same) (wanted, (wanted, exact2)))
            ]
  ]

  Folds-unique :
      {ps : List String} {r s t : AncestorRequirement} → Folds ps r s → Folds ps r t → s ≡ t
  Folds-unique done done = refl
  Folds-unique (skip no' f) (skip no'' g) = Folds-unique f g
  Folds-unique (skip no' f) (visit yes' g h) = absurd (cc (no', yes'))
  Folds-unique (visit yes' f g) (skip no' h) = absurd (cc (no', yes'))
  Folds-unique (visit yes' f g) (visit yes'' f' g') =
      let e = Folds-unique f f' in Folds-unique g (rw e g')

  -- From a memo table whose entries are right, the empty one among them, a node's requirement that
  -- the memoised recursion returns is the one that the recursion without a table gives, it is the
  -- only one that does, and the entries of the table it leaves are right.
  pub memo-IsExact :
      (fuel : ℕ) (u : String) (memo memo' : Memo) (r : AncestorRequirement)
      → IsExact memo
      → compute_ancestor_requirement modified candidate edges target current fuel u memo
        ≡ some (r, memo')
      → Requires u r × ((s : AncestorRequirement) → Requires u s → s ≡ r) × IsExact memo'
  memo-IsExact fuel u memo memo' r exact h =
      let (wanted, exact') = compute-IsExact fuel u memo memo' r exact h in
      (wanted, (λ s other. Folds-unique other wanted), exact')
