-- ===== src/Completion/Beside.antt =====
-- A step of the backfill, at another key than the node's.
use dbtx.Prelude.{
  coalesce-none, find-update_other, ℕ, String, true, false, ◌≡◌, ◌≢◌, refl, inl, inr, List, [], ◌∷◌,
  nat_eq, string_eq, arith, any, find, Bool-cases, ◌∙◌, find-append, any-update_rows,
}
use dbtx.Source.{ManifestNode}
use dbtx.Reconcile.{NodeState}
use dbtx.Completion.NodeStates.{is_state, is_unexecuted, touched, manifest_state, backfill_at}
use dbtx.Completion.Lookup.{any-append, other_key}
use dbtx.Completion.Rows.{AllAt, added-AllAt, updated-AllAt}

module _ (marker p e : ℕ) (u : String) where
  module _ (v : String) (apart : v ≢ u) (n : ManifestNode)
      (own : is_state p e v (manifest_state marker p e n) ≡ true) where
    apart_from : (r : NodeState) → is_state p e v r ≡ true → is_unexecuted p e u r ≡ false
    apart_from r h = rw (other_key p e u v r apart h) refl

    unexecuted_there : (r : NodeState) → is_unexecuted p e v r ≡ true → is_state p e v r ≡ true
    unexecuted_there r h = ground arith

    pub backfill_other-AllAt :
        (P : NodeState → Type 0) (rows : List NodeState)
        → AllAt p e u P rows
        → AllAt p e u P (backfill_at marker p e v n rows)
    backfill_other-AllAt P rows all = elim (Bool-cases (any (is_state p e v) rows)) [
      | inl there ↦ rw there (
          updated-AllAt p e u P (is_unexecuted p e v) (touched marker) rows
            (λ r m miss h. all r m h)
            λ r m hit h. absurd (cc (other_key p e u v r apart (unexecuted_there r hit), h)))
      | inr absent ↦ rw absent (
          added-AllAt p e u P rows (manifest_state marker p e n) all
            λ h. absurd (cc (other_key p e u v (manifest_state marker p e n) apart own, h)))
    ]

    pub any-backfill_other :
        (rows : List NodeState)
        → any (is_state p e u) (backfill_at marker p e v n rows) ≡ any (is_state p e u) rows
    any-backfill_other rows = elim (Bool-cases (any (is_state p e v) rows)) [
      | inl there ↦
          rw there
            (any-update_rows (is_state p e u) (is_unexecuted p e v) (touched marker) rows λ a. refl)
      | inr absent ↦ rw absent (
          any-append (is_state p e u) rows (manifest_state marker p e n)
            (other_key p e u v (manifest_state marker p e n) apart own))
    ]

    pub find-backfill_other :
        (rows : List NodeState)
        → find (is_unexecuted p e u) (backfill_at marker p e v n rows)
          ≡ find (is_unexecuted p e u) rows
    find-backfill_other rows = elim (Bool-cases (any (is_state p e v) rows)) [
      | inl there ↦ rw there (
          find-update_other (is_unexecuted p e u) (is_unexecuted p e v) (touched marker) rows
            λ r hit. (apart_from r (unexecuted_there r hit), apart_from r (unexecuted_there r hit)))
      | inr absent ↦ rw absent (
          find-append (is_unexecuted p e u) rows (manifest_state marker p e n ∷ [])
          ∙ rw (apart_from (manifest_state marker p e n) own)
              (coalesce-none (find (is_unexecuted p e u) rows)))
    ]
