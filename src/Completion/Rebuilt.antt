-- ===== src/Completion/Rebuilt.antt =====
-- The rebuilt node states of an environment against a description by key.
use mathlib.Core.Path.{subst}
use dbtx.Prelude.{
  ℕ, String, Bool, true, ◌&&◌, ◌≡◌, ◌≢◌, ◌⊎◌, refl, inl, inr, Option, none, some, List, [], ◌∷◌,
  ◌==◌, nat_eq, string_eq, arith, ltb, any, map, find, Elem, Elem-map, eq_iff, Bool-cases,
  Option-cases, sym, ◌∙◌,
}
use dbtx.Source.{ManifestNode}
use dbtx.Source.Closing.{Elem-set_of}
use dbtx.Reconcile.{NodeState, ReconcileDb}
use dbtx.Reconcile.Queries.{is_state_of}
use dbtx.Completion.{NodeExecution}
use dbtx.Completion.NodeStates.{
  RanAt, has_promotable_status, any_execution, later_ran, latest, executions_of, executed_state,
  executed_ids, is_state, put_at, upsert_latest, upsert_executed, is_stale_state, is_unexecuted,
  latest_manifest, rebuild_current_state_up_to,
}
use dbtx.Completion.Lookup.{in_scope, own_key}
use dbtx.Completion.Rows.{AllAt, IsOnly, put-IsOnly, put_other-AllAt, any-put_other, find-put_other}
use dbtx.Completion.Settled.{settled_only, backfill-IsOnly}
use dbtx.Completion.Backfilled.{backfilled, is_node, unexecuted_lem}

-- The execution that stands for an id is one of that id.
latest_lem :
    (test : NodeExecution → Bool) (u : String) (ran : List RanAt) (a : RanAt)
    → latest test u ran ≡ some a
    → Elem a ran × (a.1.unique_id ≡ u)
unfolding latest
latest_lem test u [] a h = absurd (cc h)
latest_lem test u (b ∷ rest) a h = elim (Bool-cases (b.1.unique_id == u && test b.1)) [
  | inr miss ↦ let (m, own) = latest_lem test u rest a (rw miss at h) in (inr m, own)
  | inl hit ↦
      let own : b.1.unique_id ≡ u = ground (arith, hit, eq_iff b.1.unique_id u) in
      from_later (latest test u rest) own (λ c at. latest_lem test u rest c at) (rw hit at h)
]
  where
    from_later :
        (o : Option RanAt)
        → b.1.unique_id ≡ u
        → ((c : RanAt) → o ≡ some c → Elem c rest × (c.1.unique_id ≡ u))
        → some (later_ran b o) ≡ some a
        → Elem a (b ∷ rest) × (a.1.unique_id ≡ u)
    from_later none own old same =
        let e' : a ≡ b = cc same in (inl e', subst (λ c. c.1.unique_id ≡ u) (sym e') own)
    from_later (some c) own old same = elim (Bool-cases (ltb b.0 c.0)) [
      | inl less ↦
          let e' : c ≡ a = cc (rw less at same) in
          let (m, mine) = old c refl in
          (inr (subst (λ d. Elem d rest) e' m), subst (λ d. d.1.unique_id ≡ u) e' mine)
      | inr more ↦
          let e' : b ≡ a = cc (rw more at same) in
          (inl (sym e'), subst (λ d. d.1.unique_id ≡ u) e' own)
    ]

module _ (marker p e : ℕ) (u : String) (ran : List RanAt) where
  abbrev state_of : RanAt → NodeState
  state_of a = executed_state marker p e a.1 (latest has_promotable_status u ran)

  -- A step at another key.
  module _ (v : String) (apart : v ≢ u) (rows : List NodeState) where
    other_step :
        (Q : List NodeState → Type 0)
        → Q rows
        → ((row : NodeState) → is_state p e v row ≡ true → Q (put_at p e v row rows))
        → Q (upsert_latest marker p e ran (latest any_execution v ran) v rows)
    other_step Q same put = elim (Option-cases (latest any_execution v ran)) [
      | inl none' ↦ rw none' same
      | inr (a, at) ↦
          let own = (latest_lem any_execution v ran a at).1 in
          let row = executed_state marker p e a.1 (latest has_promotable_status v ran) in
          rw at (
            subst (λ w. Q (put_at p e w row rows)) (sym own)
              (put row (own_key p e v row refl refl own)))
    ]

  upsert-IsOnly :
      (a : RanAt) (us : List String) (rows : List NodeState)
      → latest any_execution u ran ≡ some a
      → (Elem u us ⊎ IsOnly p e u (state_of a) rows)
      → IsOnly p e u (state_of a) (upsert_executed marker p e ran us rows)
  unfolding upsert_executed
  upsert-IsOnly a [] rows at (inl m) = absurd m
  upsert-IsOnly a [] rows at (inr only) = only
  upsert-IsOnly a (v ∷ rest) rows at h = elim (Bool-cases (v == u)) [
    | inl hit ↦
        upsert-IsOnly a rest (upsert_latest marker p e ran (latest any_execution v ran) v rows) at (
          inr (
            subst
              (λ w.
                IsOnly p e u (state_of a)
                  (upsert_latest marker p e ran (latest any_execution w ran) w rows))
              (sym ((eq_iff v u).0 hit))
              (rw at (
                put-IsOnly p e u (state_of a) rows refl refl
                  ((latest_lem any_execution u ran a at).1)))))
    | inr miss ↦
        let apart : v ≢ u = λ same. absurd (cc ((eq_iff v u).1 same, miss)) in
        upsert-IsOnly a rest (upsert_latest marker p e ran (latest any_execution v ran) v rows) at
          (elim h [
            | inl (inl same) ↦ absurd (apart (sym same))
            | inl (inr m) ↦ inl m
            | inr only ↦ inr (
                other_step v apart rows (IsOnly p e u (state_of a)) only λ row own. (
                  any-put_other p e u v apart row rows own ∙ only.0,
                  put_other-AllAt p e u v apart (λ r. r ≡ state_of a) row rows own only.1,
                ))
          ])
  ]

  -- What a list of rows says of a key without an execution.
  abbrev IsLike : List NodeState → List NodeState → Type 0
  IsLike rows rows' =
      (any (is_state p e u) rows' ≡ any (is_state p e u) rows)
      × (find (is_unexecuted p e u) rows' ≡ find (is_unexecuted p e u) rows)

  upsert-IsLike :
      (P : NodeState → Type 0) (us : List String) (rows : List NodeState)
      → latest any_execution u ran ≡ none
      → AllAt p e u P rows
      → IsLike rows (upsert_executed marker p e ran us rows)
        × AllAt p e u P (upsert_executed marker p e ran us rows)
  unfolding upsert_executed
  upsert-IsLike P [] rows none' all = ((refl, refl), all)
  upsert-IsLike P (v ∷ rest) rows none' all =
      let step = upsert_latest marker p e ran (latest any_execution v ran) v rows in
      let (like, all') : IsLike rows step × AllAt p e u P step = elim (Bool-cases (v == u)) [
        | inl hit ↦
            subst
              (λ w.
                IsLike rows (upsert_latest marker p e ran (latest any_execution w ran) w rows)
                × AllAt p e u P (upsert_latest marker p e ran (latest any_execution w ran) w rows))
              (sym ((eq_iff v u).0 hit)) (rw none' ((refl, refl), all))
        | inr miss ↦
            let apart : v ≢ u = λ same. absurd (cc ((eq_iff v u).1 same, miss)) in
            other_step v apart rows (λ xs. IsLike rows xs × AllAt p e u P xs) ((refl, refl), all)
              λ row own. (
                (
                  any-put_other p e u v apart row rows own,
                  find-put_other p e u v apart row rows own,
                ),
                put_other-AllAt p e u v apart P row rows own all,
              )
      ] in
      let (like', all'') = upsert-IsLike P rest step none' all' in
      ((like'.0 ∙ like.0, like'.1 ∙ like.1), all'')

-- The description: the latest execution of the key gives its row, with the fields of its latest
-- promotable execution. Else the first node of the key in the last manifest touches a row without a
-- status, or makes a row where there is none. Else the key has no row.
abbrev pub described :
    ℕ → ℕ → ℕ → String → List RanAt → List ManifestNode → List NodeState → Option NodeState
described marker p e u ran nodes rows = by_execution (latest any_execution u ran)
  where
    by_execution : Option RanAt → Option NodeState
    by_execution (some a) =
        some (executed_state marker p e a.1 (latest has_promotable_status u ran))
    by_execution none = backfilled marker p e u (find (is_node marker p e u) nodes) rows

-- After a rebuild at an instant after the last change of every row of the environment, the row at each
-- key is the one of the description, and there is none where the description has none.
pub rebuild_by_key :
    (marker p e : ℕ) (max_run : Option ℕ) (executions : List NodeExecution) (db : ReconcileDb)
    (u : String)
    → ((r : NodeState)
        → Elem r db.node_states
        → is_state_of p e r ≡ true
        → ltb r.updated_at marker ≡ true)
    → find
        (is_state p e u)
        (rebuild_current_state_up_to marker p e max_run executions db).node_states
      ≡ described marker p e u
          (executions_of p e max_run db.runs executions)
          (latest_manifest p e max_run db.manifest_snapshots db.runs db.source_db.manifest_nodes)
          db.node_states
unfolding rebuild_current_state_up_to
rebuild_by_key marker p e max_run executions db u older =
    let ran = executions_of p e max_run db.runs executions in
    let nodes =
      latest_manifest p e max_run db.manifest_snapshots db.runs db.source_db.manifest_nodes in
    let us = executed_ids ran in
    elim (Option-cases (latest any_execution u ran)) [
      | inl none' ↦
          let (like, all) =
            upsert-IsLike marker p e u ran (λ r. is_stale_state marker p e r ≡ true) us
              db.node_states none'
              λ r m h. let scope = in_scope p e u r h in rw scope (older r m scope) in
          rw none' (
            unexecuted_lem marker p e u nodes (upsert_executed marker p e ran us db.node_states) all
            ∙ same_backfill (upsert_executed marker p e ran us db.node_states)
                (find (is_node marker p e u) nodes) like.0 like.1)
      | inr (a, at) ↦
          let (m, own) = latest_lem any_execution u ran a at in
          let row = state_of marker p e u ran a in
          let listed : Elem u us =
            (Elem-set_of u (map (λ (b : RanAt). b.1.unique_id) ran)).1
              ((Elem-map (λ (b : RanAt). b.1.unique_id) u ran).1 (a, m, sym own)) in
          rw at (
            settled_only marker p e u row _ refl (
              backfill-IsOnly marker p e u nodes row _ refl
                (upsert-IsOnly marker p e u ran a us db.node_states at (inl listed))))
    ]
  where
    same_backfill :
        (rows' : List NodeState) (o : Option ManifestNode)
        → any (is_state p e u) rows' ≡ any (is_state p e u) db.node_states
        → find (is_unexecuted p e u) rows' ≡ find (is_unexecuted p e u) db.node_states
        → backfilled marker p e u o rows' ≡ backfilled marker p e u o db.node_states
    same_backfill rows' none h h' = refl
    same_backfill rows' (some n) h h' = rw (h, h')
