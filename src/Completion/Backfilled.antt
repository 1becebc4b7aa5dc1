-- ===== src/Completion/Backfilled.antt =====
-- The rows at one key after the backfill and the removal of stale rows.
use mathlib.Core.Path.{subst}
use mathlib.Core.Option
use dbtx.Prelude.{
  ℕ, String, Bool, true, false, ◌&&◌, ◌≡◌, ◌≢◌, refl, inl, inr, Option, none, some, List, [], ◌∷◌,
  ◌++◌, ◌==◌, nat_eq, string_eq, arith, if◌then◌else◌, is_none, any, find, update_rows, delete_rows,
  Elem, Elem-delete_rows, eq_iff, Bool-cases, sym, ap, ◌∙◌, not, find-update_rows, any-update_rows,
  find-of_any-false, any-false_of_Elem, find-eq-some, any-eq-false,
}
use dbtx.Source.{ManifestNode}
use dbtx.Reconcile.{NodeState}
use dbtx.Completion.NodeStates.{
  is_state, is_unexecuted, touched, manifest_state, is_stale_state, backfill_one, backfill,
  backfill_at,
}
use dbtx.Completion.Lookup.{find-delete_rows, find-cong, any-append_last, own_key}
use dbtx.Completion.Rows.{AllAt, added-AllAt, updated-AllAt}
use dbtx.Completion.Settled.{settled, manifest_key, fresh_stays, settled_only, backfill-IsOnly}
use dbtx.Completion.Beside.{backfill_other-AllAt, any-backfill_other, find-backfill_other}

module _ (marker p e : ℕ) (u : String) where
  -- What is left of a key without an execution.
  abbrev pub is_node : ManifestNode → Bool
  is_node n = n.unique_id == u

  abbrev pub backfilled : Option ManifestNode → List NodeState → Option NodeState
  backfilled none rows = none
  backfilled (some n) rows =
      if any (is_state p e u) rows
      then Option.map (touched marker) (find (is_unexecuted p e u) rows)
      else some (manifest_state marker p e n)

  abbrev IsStaleRow : NodeState → Type 0
  IsStaleRow r = is_stale_state marker p e r ≡ true

  -- Rows without a status have been touched, others have not.
  abbrev IsTouchedRow : NodeState → Type 0
  IsTouchedRow r = is_stale_state marker p e r ≡ not (is_none r.status)

  settled_touched :
      (rows : List NodeState)
      → AllAt p e u IsTouchedRow rows
      → settled marker p e u rows ≡ find (is_unexecuted p e u) rows
  settled_touched rows all =
      find-delete_rows (is_state p e u) (is_stale_state marker p e) rows
      ∙ find-cong (λ r. if is_stale_state marker p e r then false else is_state p e u r)
          (is_unexecuted p e u) rows λ r m. same_test r m
    where
      same_test :
          (r : NodeState)
          → Elem r rows
          → (if is_stale_state marker p e r then false else is_state p e u r)
            ≡ is_unexecuted p e u r
      same_test r m = elim (Bool-cases (is_state p e u r)) [
        | inl hit ↦ rw (hit, all r m hit) (flipped (is_none r.status))
        | inr miss ↦ rw miss (either (is_stale_state marker p e r))
      ]
        where
          flipped : (b : Bool) → (if not b then false else true) ≡ (true && b)
          flipped b = ground arith

          either : (b : Bool) → (if b then false else false) ≡ false
          either b = ground arith

  touch :
      (rows : List NodeState)
      → find (is_unexecuted p e u) (update_rows (is_unexecuted p e u) (touched marker) rows)
        ≡ Option.map (touched marker) (find (is_unexecuted p e u) rows)
  touch rows =
      find-update_rows (is_unexecuted p e u) (is_unexecuted p e u) (touched marker) rows (λ a. refl)
      ∙ passed (find (is_unexecuted p e u) rows) (λ r at. (find-eq-some _ rows at).1)
    where
      passed :
          (o : Option NodeState)
          → ((r : NodeState) → o ≡ some r → is_unexecuted p e u r ≡ true)
          → Option.map (λ a. if is_unexecuted p e u a then touched marker a else a) o
            ≡ Option.map (touched marker) o
      passed none h = refl
      passed (some r) h = rw (h r refl) refl

  unexecuted_is_at : (r : NodeState) → is_unexecuted p e u r ≡ true → is_state p e u r ≡ true
  unexecuted_is_at r h = ground arith

  -- A step at the key itself.
  self_touched :
      (rows : List NodeState)
      → AllAt p e u (λ r. is_none r.status ≡ false → IsStaleRow r) rows
      → AllAt p e u IsTouchedRow (update_rows (is_unexecuted p e u) (touched marker) rows)
  self_touched rows all =
      updated-AllAt p e u IsTouchedRow (is_unexecuted p e u) (touched marker) rows
        (λ r m miss h.
          let has_status : is_none r.status ≡ false = ground (arith, miss, h) in
          all r m h has_status ∙ rw has_status)
        λ r m hit h.
          let unset : is_none r.status ≡ true = ground (arith, hit) in
          fresh_stays marker p e u (touched marker r) refl ∙ rw unset

  -- Touching again changes nothing.
  touched_after :
      (nodes : List ManifestNode) (rows : List NodeState)
      → any (is_state p e u) rows ≡ true
      → AllAt p e u IsTouchedRow rows
      → Option.map (touched marker) (find (is_unexecuted p e u) rows)
        ≡ find (is_unexecuted p e u) rows
      → settled marker p e u (backfill marker p e nodes rows) ≡ find (is_unexecuted p e u) rows
  unfolding backfill
  touched_after [] rows there all fixed = settled_touched rows all
  touched_after (n ∷ rest) rows there all fixed = elim (Bool-cases (n.unique_id == u)) [
    | inl hit ↦
        subst
          (λ v.
            settled marker p e u (backfill marker p e rest (backfill_at marker p e v n rows))
            ≡ find (is_unexecuted p e u) rows)
          (sym ((eq_iff n.unique_id u).0 hit))
          (rw there (
            touched_after rest (update_rows (is_unexecuted p e u) (touched marker) rows)
              (any-update_rows (is_state p e u) (is_unexecuted p e u) (touched marker) rows
                  (λ a. refl)
                ∙ there)
              (self_touched rows λ r m h unset. all r m h ∙ rw unset)
              (ap (Option.map (touched marker)) (touch rows ∙ fixed)
                ∙ fixed
                ∙ sym (touch rows ∙ fixed))
            ∙ touch rows
            ∙ fixed))
    | inr miss ↦
        let apart : n.unique_id ≢ u = λ same. absurd (cc ((eq_iff n.unique_id u).1 same, miss)) in
        let key = manifest_key marker p e u n in
        let same = find-backfill_other marker p e u n.unique_id apart n key rows in
        touched_after rest (backfill_one marker p e n rows)
          (any-backfill_other marker p e u n.unique_id apart n key rows ∙ there)
          (backfill_other-AllAt marker p e u n.unique_id apart n key IsTouchedRow rows all)
          (ap (Option.map (touched marker)) same ∙ fixed ∙ sym same)
        ∙ same
  ]

  -- A key whose rows are all stale is backfilled from the first node of that id, and is removed when
  -- there is none.
  pub unexecuted_lem :
      (nodes : List ManifestNode) (rows : List NodeState)
      → AllAt p e u IsStaleRow rows
      → settled marker p e u (backfill marker p e nodes rows) ≡ backfilled (find is_node nodes) rows
  unfolding backfill
  unexecuted_lem [] rows all =
      find-of_any-false (is_state p e u) (delete_rows (is_stale_state marker p e) rows) (
        any-false_of_Elem (is_state p e u) (delete_rows (is_stale_state marker p e) rows) λ r m.
          let (there, stays) = (Elem-delete_rows (is_stale_state marker p e) r rows).0 m in
          elim (Bool-cases (is_state p e u r)) [
            | inl hit ↦ absurd (cc (all r there hit, stays))
            | inr miss ↦ miss
          ])
  unexecuted_lem (n ∷ rest) rows all = elim (Bool-cases (n.unique_id == u)) [
    | inl hit ↦ rw hit (
        subst
          (λ v.
            settled marker p e u (backfill marker p e rest (backfill_at marker p e v n rows))
            ≡ backfilled (some n) rows)
          (sym ((eq_iff n.unique_id u).0 hit))
          (elim (Bool-cases (any (is_state p e u) rows)) [
            | inl there ↦ rw there (
                touched_after rest (update_rows (is_unexecuted p e u) (touched marker) rows)
                  (any-update_rows (is_state p e u) (is_unexecuted p e u) (touched marker) rows
                      (λ a. refl)
                    ∙ there)
                  (self_touched rows λ r m h unset. all r m h)
                  (ap (Option.map (touched marker)) (touch rows)
                    ∙ twice (find (is_unexecuted p e u) rows)
                    ∙ sym (touch rows))
                ∙ touch rows)
            | inr absent ↦
                let row = manifest_state marker p e n in
                let own : is_state p e u row ≡ true =
                  own_key p e u row refl refl ((eq_iff n.unique_id u).0 hit) in
                rw absent (
                  settled_only marker p e u row (backfill marker p e rest (rows ++ row ∷ [])) refl (
                    backfill-IsOnly marker p e u rest row (rows ++ row ∷ []) refl (
                      any-append_last (is_state p e u) rows row own,
                      added-AllAt p e u (λ r. r ≡ row) rows row
                          (λ r m h. absurd (cc (any-eq-false (is_state p e u) rows r absent m, h)))
                          λ h. refl,
                    )))
          ]))
    | inr miss ↦
        let apart : n.unique_id ≢ u = λ same. absurd (cc ((eq_iff n.unique_id u).1 same, miss)) in
        let key = manifest_key marker p e u n in
        rw miss (
          unexecuted_lem rest (backfill_one marker p e n rows)
            (backfill_other-AllAt marker p e u n.unique_id apart n key IsStaleRow rows all)
          ∙ as_before (backfill_one marker p e n rows) (find is_node rest)
              (any-backfill_other marker p e u n.unique_id apart n key rows)
              (find-backfill_other marker p e u n.unique_id apart n key rows))
  ]
    where
      twice :
          (o : Option NodeState)
          → Option.map (touched marker) (Option.map (touched marker) o)
            ≡ Option.map (touched marker) o
      twice none = refl
      twice (some r) = refl

      as_before :
          (rows' : List NodeState) (o : Option ManifestNode)
          → any (is_state p e u) rows' ≡ any (is_state p e u) rows
          → find (is_unexecuted p e u) rows' ≡ find (is_unexecuted p e u) rows
          → backfilled o rows' ≡ backfilled o rows
      as_before rows' none h h' = refl
      as_before rows' (some m) h h' = rw (h, h')
