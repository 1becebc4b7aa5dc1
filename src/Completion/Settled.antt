-- ===== src/Completion/Settled.antt =====
-- The rows at one key that the removal of stale rows leaves, and a key that has one row.
use mathlib.Core.Path.{subst}
use dbtx.Prelude.{
  ℕ, String, true, false, ◌≡◌, refl, inl, inr, Option, some, List, [], ◌∷◌, nat_eq, string_eq,
  arith, any, find, delete_rows, Elem-delete_rows, Elem-of_any, any_of_Elem, eq_self, eq_iff,
  Bool-cases, sym, ap, ◌∙◌, any-update_rows,
}
use dbtx.Source.{ManifestNode}
use dbtx.Reconcile.{NodeState}
use dbtx.Completion.NodeStates.{
  is_state, is_unexecuted, touched, manifest_state, is_stale_state, backfill_one, backfill,
}
use dbtx.Completion.Lookup.{any-append_true, find_only}
use dbtx.Completion.Rows.{IsOnly, added-AllAt, updated-AllAt}

module _ (marker p e : ℕ) (u : String) where
  abbrev pub settled : List NodeState → Option NodeState
  settled rows = find (is_state p e u) (delete_rows (is_stale_state marker p e) rows)

  pub manifest_key :
      (n : ManifestNode) → is_state p e n.unique_id (manifest_state marker p e n) ≡ true
  manifest_key n = rw (eq_self p) (rw (eq_self e) (eq_self n.unique_id))

  manifest_at :
      (n : ManifestNode) → is_state p e u (manifest_state marker p e n) ≡ true → n.unique_id ≡ u
  manifest_at n h = ground (arith, eq_iff n.unique_id u)

  pub fresh_stays : (r : NodeState) → r.updated_at ≡ marker → is_stale_state marker p e r ≡ false
  fresh_stays r h = ground arith

  pub settled_only :
      (row : NodeState) (rows : List NodeState)
      → row.updated_at ≡ marker
      → IsOnly p e u row rows
      → settled rows ≡ some row
  settled_only row rows fresh (there, only) =
      let (a, m, hit) = Elem-of_any (is_state p e u) rows there in
      let stays : is_stale_state marker p e a ≡ false =
        subst (λ s. is_stale_state marker p e s ≡ false) (sym (only a m hit))
          (fresh_stays row fresh) in
      let kept = delete_rows (is_stale_state marker p e) rows in
      find_only (is_state p e u) kept row
        (any_of_Elem (is_state p e u) kept a
          ((Elem-delete_rows (is_stale_state marker p e) a rows).1 (m, stays)) hit)
        λ r m' h. only r ((Elem-delete_rows (is_stale_state marker p e) r rows).0 m').0 h

  backfill_one-IsOnly :
      (n : ManifestNode) (row : NodeState) (rows : List NodeState)
      → touched marker row ≡ row
      → IsOnly p e u row rows
      → IsOnly p e u row (backfill_one marker p e n rows)
  backfill_one-IsOnly n row rows same (there, only) =
      elim (Bool-cases (any (is_state p e n.unique_id) rows)) [
        | inl some' ↦ rw some' (
          any-update_rows (is_state p e u) (is_unexecuted p e n.unique_id) (touched marker) rows
                (λ a. refl)
              ∙ there,
          updated-AllAt p e u (λ r. r ≡ row) (is_unexecuted p e n.unique_id) (touched marker) rows
              (λ r m miss h. only r m h) λ r m hit h. ap (touched marker) (only r m h) ∙ same,
        )
        | inr absent ↦ rw absent (
          any-append_true (is_state p e u) rows (manifest_state marker p e n ∷ []) there,
          added-AllAt p e u (λ r. r ≡ row) rows (manifest_state marker p e n) only
              λ h. absurd (
                cc
                  (subst (λ v. any (is_state p e v) rows ≡ false) (manifest_at n h) absent, there)),
        )
      ]

  pub backfill-IsOnly :
      (nodes : List ManifestNode) (row : NodeState) (rows : List NodeState)
      → touched marker row ≡ row
      → IsOnly p e u row rows
      → IsOnly p e u row (backfill marker p e nodes rows)
  unfolding backfill
  backfill-IsOnly [] row rows same only = only
  backfill-IsOnly (n ∷ rest) row rows same only =
      backfill-IsOnly rest row (backfill_one marker p e n rows) same
        (backfill_one-IsOnly n row rows same only)
