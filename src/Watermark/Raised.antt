-- ===== src/Watermark/Raised.antt =====
-- A commit of candidates, by the key of a watermark.
use dbtx.Prelude.{
  ℕ, String, Bool, true, false, ◌&&◌, ◌≡◌, refl, inl, inr, ◌∙◌, Option, none, some, List, [], ◌∷◌,
  ◌==◌, nat_eq, string_eq, arith, if◌then◌else◌, leb, some_and, any, find, update_rows, eq_iff,
  eq_self, Bool-cases, find-append, find-of_any-false, find-update_other, coalesce-none, ◌⊎◌,
}
use dbtx.Source.{NodeSourceWatermark}
use dbtx.Source.Stale.{is_watermark_of, watermark_id, larger_of}
use dbtx.Watermark.{WatermarkCandidate, WatermarkDb}
use dbtx.Watermark.Commit.{
  watermark_row, put_watermark, is_behind, commit_one, commit_node_watermarks,
}

abbrev pub watermark_at : ℕ → ℕ → String → String → WatermarkDb → Option ℕ
watermark_at p e u k db = watermark_id (find (is_watermark_of p e u k) db.source.watermarks)

-- The largest of a watermark and the candidates for its source.
abbrev pub raised : String → List WatermarkCandidate → Option ℕ → Option ℕ
raised k [] previous = previous
raised k (c ∷ rest) previous =
    raised k rest
      (if c.source_key == k then some (larger_of c.watermark_event_id previous) else previous)

find-update_same :
    {A : Type 0} (q : A → Bool) (row : A) (xs : List A)
    → any q xs ≡ true
    → q row ≡ true
    → find q (update_rows q (λ _. row) xs) ≡ some row
find-update_same q row [] h mine = absurd (cc h)
find-update_same q row (x ∷ xs) h mine = elim (Bool-cases (q x)) [
  | inl hit ↦ rw hit (rw mine refl)
  | inr miss ↦ rw miss (rw miss (find-update_same q row xs (rw miss at h) mine))
]

larger-of_ahead : (n : ℕ) (o : Option ℕ) → some_and (λ m. leb n m) o ≡ false → larger_of n o ≡ n
larger-of_ahead n none h = refl
larger-of_ahead n (some m) h = ground arith

larger-of_behind :
    (n : ℕ) (o : Option ℕ) → some_and (λ m. leb n m) o ≡ true → o ≡ some (larger_of n o)
larger-of_behind n none h = absurd (cc h)
larger-of_behind n (some m) h = ground arith

-- A test that holds only under the others.
under_tests :
    {A : Type 0} (a b c d : Bool) (f : A → A) (x y : A)
    → (if a && b && c
        then f (if a && b && c && d then y else x)
        else if a && b && c && d
        then y
        else x)
      ≡ (if a && b && c then f (if d then y else x) else x)
under_tests true true true d f x y = refl
under_tests true true false d f x y = refl
under_tests true false c d f x y = refl
under_tests false b c d f x y = refl

module _ (now p e : ℕ) (u : String) (run : ℕ) (invocation : Option ℕ) where
  row_is_own :
      (c : WatermarkCandidate)
      → is_watermark_of p e u c.source_key (watermark_row now p e u run invocation c) ≡ true
  row_is_own c = rw (eq_self p) (rw (eq_self e) (rw (eq_self u) (rw (eq_self c.source_key) refl)))

  commit_own :
      (c : WatermarkCandidate) (db : WatermarkDb)
      → watermark_at p e u c.source_key (commit_one now p e u run invocation c db)
        ≡ some (larger_of c.watermark_event_id (watermark_at p e u c.source_key db))
  commit_own c db = elim (Bool-cases (is_behind now p e u run invocation c db)) [
    | inl behind ↦
        rw behind
          (larger-of_behind c.watermark_event_id (watermark_at p e u c.source_key db) behind)
    | inr ahead ↦ rw ahead (put_own ahead)
  ]
    where
      put_own :
          is_behind now p e u run invocation c db ≡ false
          → watermark_id (
              find
                (is_watermark_of p e u c.source_key)
                (put_watermark now p e u run invocation c db.source.watermarks))
            ≡ some (larger_of c.watermark_event_id (watermark_at p e u c.source_key db))
      put_own ahead =
          elim (Bool-cases (any (is_watermark_of p e u c.source_key) db.source.watermarks)) [
            | inl there ↦ rw there (
                rw
                  (find-update_same (is_watermark_of p e u c.source_key)
                    (watermark_row now p e u run invocation c) db.source.watermarks there
                    (row_is_own c))
                  (rw
                    (larger-of_ahead c.watermark_event_id (watermark_at p e u c.source_key db)
                      ahead)
                    refl))
            | inr missing ↦ rw missing (
                rw
                  (find-append (is_watermark_of p e u c.source_key) db.source.watermarks
                    (watermark_row now p e u run invocation c ∷ []))
                  (rw
                    (find-of_any-false (is_watermark_of p e u c.source_key) db.source.watermarks
                      missing)
                    (rw (row_is_own c) refl)))
          ]

  module _ (p' e' : ℕ) (u' k' : String) (c : WatermarkCandidate) where
    -- Rows at one key are at another key or not together.
    at_one_key :
        (w : NodeSourceWatermark)
        → is_watermark_of p e u c.source_key w ≡ true
        → is_watermark_of p' e' u' k' w
          ≡ is_watermark_of p' e' u' k' (watermark_row now p e u run invocation c)
    at_one_key w own =
        let hp : w.project_id ≡ p = ground (arith, own) in
        let he : w.environment_id ≡ e = ground (arith, own) in
        let hu : w.unique_id ≡ u = ground (arith, eq_iff w.unique_id u) in
        let hk : w.source_key ≡ c.source_key = ground (arith, eq_iff w.source_key c.source_key) in
        rw hp (rw he (rw hu (rw hk refl)))

    commit_other :
        (db : WatermarkDb)
        → is_watermark_of p' e' u' k' (watermark_row now p e u run invocation c) ≡ false
        → watermark_at p' e' u' k' (commit_one now p e u run invocation c db)
          ≡ watermark_at p' e' u' k' db
    commit_other db other = elim (Bool-cases (is_behind now p e u run invocation c db)) [
      | inl behind ↦ rw behind refl
      | inr ahead ↦
          rw ahead
            (put_other (Bool-cases (any (is_watermark_of p e u c.source_key) db.source.watermarks)))
    ]
      where
        put_other :
            (any (is_watermark_of p e u c.source_key) db.source.watermarks ≡ true)
              ⊎ (any (is_watermark_of p e u c.source_key) db.source.watermarks ≡ false)
            → watermark_id (
                find
                  (is_watermark_of p' e' u' k')
                  (put_watermark now p e u run invocation c db.source.watermarks))
              ≡ watermark_at p' e' u' k' db
        put_other (inl there) = rw there (
            rw
              (find-update_other (is_watermark_of p' e' u' k') (is_watermark_of p e u c.source_key)
                (λ _. watermark_row now p e u run invocation c) db.source.watermarks
                (λ w own. (at_one_key w own ∙ other, other)))
              refl)
        put_other (inr missing) = rw missing (
            rw
              (find-append (is_watermark_of p' e' u' k') db.source.watermarks
                (watermark_row now p e u run invocation c ∷ []))
              (rw other (
                rw (coalesce-none (find (is_watermark_of p' e' u' k') db.source.watermarks)) refl)))

    commit_step :
        (db : WatermarkDb)
        → watermark_at p' e' u' k' (commit_one now p e u run invocation c db) ≡ (
            if is_watermark_of p' e' u' k' (watermark_row now p e u run invocation c)
            then some (larger_of c.watermark_event_id (watermark_at p' e' u' k' db))
            else watermark_at p' e' u' k' db)
    commit_step db =
        elim (Bool-cases (is_watermark_of p' e' u' k' (watermark_row now p e u run invocation c))) [
          | inl own ↦
              let hp : p' ≡ p = ground (arith, own) in
              let he : e' ≡ e = ground (arith, own) in
              let hu : u' ≡ u = ground (arith, eq_iff u u', own) in
              let hk : k' ≡ c.source_key = ground (arith, eq_iff c.source_key k', own) in
              rw own (rw hp (rw he (rw hu (rw hk (commit_own c db)))))
          | inr other ↦ rw other (commit_other db other)
        ]

  -- After a commit, the watermark of each source at the node is the largest of what it was and the
  -- candidates for the source, in whichever order they come, and the watermarks of all other nodes,
  -- environments and projects are as they were.
  pub commit_by_key :
      (p' e' : ℕ) (u' k' : String) (cs : List WatermarkCandidate) (db : WatermarkDb)
      → watermark_at p' e' u' k' (commit_node_watermarks now p e u run invocation cs db).1 ≡ (
          if p == p' && e == e' && u == u'
          then raised k' cs (watermark_at p' e' u' k' db)
          else watermark_at p' e' u' k' db)
  unfolding commit_node_watermarks
  commit_by_key p' e' u' k' [] db = ground arith
  commit_by_key p' e' u' k' (c ∷ rest) db =
      rw (commit_by_key p' e' u' k' rest (commit_one now p e u run invocation c db)) (
        rw (commit_step p' e' u' k' c db) (
          under_tests (p == p') (e == e') (u == u') (c.source_key == k') (raised k' rest)
            (watermark_at p' e' u' k' db)
            (some (larger_of c.watermark_event_id (watermark_at p' e' u' k' db)))))
