-- ===== src/Completion/Rows.antt =====
-- The rows at one key through an upsert, the backfill and the removal of a rebuild.
use mathlib.Core.Path.{subst}
use dbtx.Prelude.{
  coalesce-none, find-update_other, ℕ, String, Bool, true, false, ◌≡◌, ◌≢◌, refl, inl, inr, List,
  [], ◌∷◌, ◌++◌, nat_eq, string_eq, any, find, update_rows, Elem, Elem-append, Elem-update_rows,
  Elem-of_any, any_of_Elem, Bool-cases, sym, ◌∙◌, updated-Elem, any-eq-false, find-append,
}
use dbtx.Reconcile.{NodeState}
use dbtx.Completion.NodeStates.{is_state, put_at, put_state, is_unexecuted}
use dbtx.Completion.Lookup.{any-update_other, any-append, any-append_last, other_key, own_key}

module _ (p e : ℕ) (u : String) where
  abbrev pub AllAt : (NodeState → Type 0) → List NodeState → Type 0
  AllAt P rows = (r : NodeState) → Elem r rows → is_state p e u r ≡ true → P r

  -- The key has the row, and no other.
  abbrev pub IsOnly : NodeState → List NodeState → Type 0
  IsOnly row rows = (any (is_state p e u) rows ≡ true) × AllAt (λ r. r ≡ row) rows

  pub added-AllAt :
      (P : NodeState → Type 0) (rows : List NodeState) (row : NodeState)
      → AllAt P rows
      → (is_state p e u row ≡ true → P row)
      → AllAt P (rows ++ row ∷ [])
  added-AllAt P rows row all new r m h = elim ((Elem-append r rows (row ∷ [])).0 m) [
    | inl old ↦ all r old h
    | inr (inl e') ↦ subst P (sym e') (new (subst (λ s. is_state p e u s ≡ true) e' h))
    | inr (inr none') ↦ absurd none'
  ]

  pub updated-AllAt :
      (P : NodeState → Type 0) (q : NodeState → Bool) (f : NodeState → NodeState)
      (rows : List NodeState)
      → ((r : NodeState) → Elem r rows → q r ≡ false → is_state p e u r ≡ true → P r)
      → ((r : NodeState) → Elem r rows → q r ≡ true → is_state p e u (f r) ≡ true → P (f r))
      → AllAt P (update_rows q f rows)
  updated-AllAt P q f rows kept set r m h =
      let (x, there, e') = Elem-update_rows q f rows r m in
      elim (Bool-cases (q x)) [
        | inl hit ↦
            let same : r ≡ f x = rw hit at e' in
            subst P (sym same) (set x there hit (subst (λ s. is_state p e u s ≡ true) same h))
        | inr miss ↦
            let same : r ≡ x = rw miss at e' in
            subst P (sym same) (kept x there miss (subst (λ s. is_state p e u s ≡ true) same h))
      ]

  put_at-IsOnly :
      (row : NodeState) (rows : List NodeState)
      → is_state p e u row ≡ true
      → IsOnly row (put_at p e u row rows)
  put_at-IsOnly row rows mine = elim (Bool-cases (any (is_state p e u) rows)) [
    | inl there ↦
        let (a, m, hit) = Elem-of_any (is_state p e u) rows there in
        rw there (
          any_of_Elem (is_state p e u) (update_rows (is_state p e u) (λ _. row) rows) row
              (rw hit at (updated-Elem (is_state p e u) (λ _. row) rows a m)) mine,
          updated-AllAt (λ r. r ≡ row) (is_state p e u) (λ _. row) rows
              (λ r m' miss h. absurd (cc (miss, h))) (λ r m' hit' h. refl),
        )
    | inr absent ↦ rw absent (
      any-append_last (is_state p e u) rows row mine,
      added-AllAt (λ r. r ≡ row) rows row
          (λ r m h. absurd (cc (any-eq-false (is_state p e u) rows r absent m, h))) λ h. refl,
    )
  ]

  pub put-IsOnly :
      (row : NodeState) (rows : List NodeState)
      → row.project_id ≡ p
      → row.environment_id ≡ e
      → row.unique_id ≡ u
      → IsOnly row (put_state p e row rows)
  put-IsOnly row rows hp he hu =
      subst (λ v. IsOnly row (put_at p e v row rows)) (sym hu)
        (put_at-IsOnly row rows (own_key p e u row hp he hu))

  module _ (v : String) (apart : v ≢ u) where
    pub put_other-AllAt :
        (P : NodeState → Type 0) (row : NodeState) (rows : List NodeState)
        → is_state p e v row ≡ true
        → AllAt P rows
        → AllAt P (put_at p e v row rows)
    put_other-AllAt P row rows own all =
        let not_mine : is_state p e u row ≡ true → P row =
          λ h. absurd (cc (other_key p e u v row apart own, h)) in
        elim (Bool-cases (any (is_state p e v) rows)) [
          | inl there ↦ rw there (
              updated-AllAt P (is_state p e v) (λ _. row) rows (λ r m miss h. all r m h)
                λ r m hit h. not_mine h)
          | inr absent ↦ rw absent (added-AllAt P rows row all not_mine)
        ]

    pub any-put_other :
        (row : NodeState) (rows : List NodeState)
        → is_state p e v row ≡ true
        → any (is_state p e u) (put_at p e v row rows) ≡ any (is_state p e u) rows
    any-put_other row rows own = elim (Bool-cases (any (is_state p e v) rows)) [
      | inl there ↦ rw there (
          any-update_other (is_state p e u) (is_state p e v) (λ _. row) rows
            λ r hit. other_key p e u v row apart own ∙ sym (other_key p e u v r apart hit))
      | inr absent ↦
          rw absent (any-append (is_state p e u) rows row (other_key p e u v row apart own))
    ]

    pub find-put_other :
        (row : NodeState) (rows : List NodeState)
        → is_state p e v row ≡ true
        → find (is_unexecuted p e u) (put_at p e v row rows) ≡ find (is_unexecuted p e u) rows
    find-put_other row rows own =
        let apart_from : (r : NodeState) → is_state p e v r ≡ true → is_unexecuted p e u r ≡ false =
          λ r h. rw (other_key p e u v r apart h) refl in
        elim (Bool-cases (any (is_state p e v) rows)) [
          | inl there ↦ rw there (
              find-update_other (is_unexecuted p e u) (is_state p e v) (λ _. row) rows
                λ r hit. (apart_from r hit, apart_from row own))
          | inr absent ↦ rw absent (
              find-append (is_unexecuted p e u) rows (row ∷ [])
              ∙ rw (apart_from row own) (coalesce-none (find (is_unexecuted p e u) rows)))
        ]
