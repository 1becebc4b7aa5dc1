-- ===== src/Watermark/Least.antt =====
-- The candidates of a node, read from its parents: the least for each source.
use mathlib.Core.Path.{subst}
use dbtx.Prelude.{
  ℕ, ◌⊎◌, leb, Option-cases, ◌≤◌, min, String, false, ◌≡◌, refl, inl, inr, sym, ◌∙◌, Option, none,
  some, List, [], ◌∷◌, ◌==◌, string_eq, arith, map, eq_iff, Elem, Elem-map, Bool-cases, ap,
}
use dbtx.Source.{SourceDb}
use dbtx.Source.Closing.{Elem-set_of}
use dbtx.Planning.Closure.{set_of}
use dbtx.Watermark.{WatermarkCandidate}
use dbtx.Watermark.Candidates.{
  least_of, least_at, some_candidates, combined, load_parent_watermarks_min,
}

-- No candidate for the source is below it, and one is equal.
abbrev pub IsLeastOf : String → List WatermarkCandidate → WatermarkCandidate → Type 0
IsLeastOf k rows c =
    (c.source_key ≡ k)
    × ((d : WatermarkCandidate)
        → Elem d rows
        → d.source_key ≡ k
        → c.watermark_event_id ≤ d.watermark_event_id)
    × ((d : WatermarkCandidate) × Elem d rows
        × (d.source_key ≡ k)
        × (c.watermark_event_id ≡ d.watermark_event_id))

-- The other rows are for another source.
abbrev IsNoneOf : String → List WatermarkCandidate → Type 0
IsNoneOf k rows = (d : WatermarkCandidate) → Elem d rows → d.source_key ≡ k → ⊥

abbrev IsFound : String → List WatermarkCandidate → Option WatermarkCandidate → Type 0
IsFound k rows none = IsNoneOf k rows
IsFound k rows (some c) = IsLeastOf k rows c

not_own : {a k : String} → (a == k) ≡ false → a ≡ k → ⊥
not_own {a} {k} other h = ground (arith, eq_iff a k)

least_at-IsFound : (k : String) (rows : List WatermarkCandidate) → IsFound k rows (least_at k rows)
unfolding least_at
least_at-IsFound k [] = λ d m. absurd m
least_at-IsFound k (c ∷ rest) = elim (Bool-cases (c.source_key == k)) [
  | inl own ↦
      rw own (joined (least_at k rest) (least_at-IsFound k rest) ((eq_iff c.source_key k).0 own))
  | inr other ↦ rw other (passed (least_at k rest) (least_at-IsFound k rest) other)
]
  where
    joined :
        (found : Option WatermarkCandidate)
        → IsFound k rest found
        → c.source_key ≡ k
        → IsLeastOf k (c ∷ rest) (least_of c found)
    joined none others own = (own, below, (c, inl refl, own, refl))
      where
        below :
            (d : WatermarkCandidate)
            → Elem d (c ∷ rest)
            → d.source_key ≡ k
            → c.watermark_event_id ≤ d.watermark_event_id
        below d (inl e) h = rw e (ground arith)
        below d (inr m) h = absurd (others d m h)
    joined (some f) (hk, low, (d, m, hd, e)) own = (own, below, at_least)
      where
        below :
            (x : WatermarkCandidate)
            → Elem x (c ∷ rest)
            → x.source_key ≡ k
            → min c.watermark_event_id f.watermark_event_id ≤ x.watermark_event_id
        below x (inl e) h = rw e (ground arith)
        below x (inr m) h = let l = low x m h in ground arith

        at_least :
            (x : WatermarkCandidate) × Elem x (c ∷ rest)
            × (x.source_key ≡ k)
            × (min c.watermark_event_id f.watermark_event_id ≡ x.watermark_event_id)
        at_least = elim (Bool-cases (leb c.watermark_event_id f.watermark_event_id)) [
          | inl le ↦ (c, inl refl, own, ground arith)
          | inr gt ↦ (d, inr m, hd, ground (arith, e))
        ]

    passed :
        (found : Option WatermarkCandidate)
        → IsFound k rest found
        → (c.source_key == k) ≡ false
        → IsFound k (c ∷ rest) found
    passed none others other = beside
      where
        beside : IsNoneOf k (c ∷ rest)
        beside d (inl e) h =
            not_own other (ap (λ (x : WatermarkCandidate). x.source_key) (sym e) ∙ h)
        beside d (inr m) h = others d m h
    passed (some f) (hk, low, (d, m, hd, e)) other = (hk, below, (d, inr m, hd, e))
      where
        below :
            (x : WatermarkCandidate)
            → Elem x (c ∷ rest)
            → x.source_key ≡ k
            → f.watermark_event_id ≤ x.watermark_event_id
        below x (inl e') h =
            absurd (not_own other (ap (λ (y : WatermarkCandidate). y.source_key) (sym e') ∙ h))
        below x (inr m') h = low x m' h

some_candidates-Elem :
    (f : String → Option WatermarkCandidate) (ks : List String) (c : WatermarkCandidate)
    → Elem c (some_candidates f ks)
    → (k : String) × Elem k ks × (f k ≡ some c)
unfolding some_candidates
some_candidates-Elem f [] c m = absurd m
some_candidates-Elem f (k ∷ ks) c m = elim (Option-cases (f k)) [
  | inl missing ↦
      let (l, there, h) = some_candidates-Elem f ks c (rw missing at m) in (l, inr there, h)
  | inr (d, found) ↦
      let split : (c ≡ d) ⊎ Elem c (some_candidates f ks) = rw found at m in
      elim split [
        | inl e ↦ (k, inl refl, rw e found)
        | inr m' ↦ let (l, there, h) = some_candidates-Elem f ks c m' in (l, inr there, h)
      ]
]

Elem-some_candidates :
    (f : String → Option WatermarkCandidate) (ks : List String) (k : String)
    (c : WatermarkCandidate)
    → Elem k ks
    → f k ≡ some c
    → Elem c (some_candidates f ks)
unfolding some_candidates
Elem-some_candidates f [] k c m h = absurd m
Elem-some_candidates f (l ∷ ks) k c (inl e) h = rw (rw e at h) (inl refl)
Elem-some_candidates f (l ∷ ks) k c (inr m) h = elim (Option-cases (f l)) [
  | inl missing ↦ rw missing (Elem-some_candidates f ks k c m h)
  | inr (d, found) ↦ rw found (inr (Elem-some_candidates f ks k c m h))
]

module _ (p e : ℕ) (u : String) (us : List String) (db : SourceDb) where
  -- What the statement groups: the parents' watermarks, and the latest events of the parents that are
  -- sources without one. Each candidate is the least for its source among these, and each source that
  -- is among these has a candidate.
  pub candidates_are_least :
      ((c : WatermarkCandidate)
        → Elem c (load_parent_watermarks_min p e (u ∷ us) db)
        → IsLeastOf c.source_key (combined p e (u ∷ us) db) c)
      × ((d : WatermarkCandidate)
          → Elem d (combined p e (u ∷ us) db)
          → (c : WatermarkCandidate) × Elem c (load_parent_watermarks_min p e (u ∷ us) db)
            × (c.source_key ≡ d.source_key))
  unfolding load_parent_watermarks_min
  candidates_are_least = (
    λ c m.
        let (k, _, h) = some_candidates-Elem (λ k. least_at k rows) keys c m in
        let own = least c k h (least_at-IsFound k rows) in
        subst (λ x. IsLeastOf x rows c) (sym (own.0)) own,
    λ d m.
        let listed =
          (Elem-set_of d.source_key (map key_of rows)).1
            ((Elem-map key_of d.source_key rows).1 (d, m, refl)) in
        elim (Option-cases (least_at d.source_key rows)) [
          | inl missing ↦ absurd (not_missing d m missing (least_at-IsFound d.source_key rows))
          | inr (c, h) ↦ (
            c,
            Elem-some_candidates (λ k. least_at k rows) keys d.source_key c listed h,
            (least c d.source_key h (least_at-IsFound d.source_key rows)).0,
          )
        ],
  )
    where
      key_of : WatermarkCandidate → String
      key_of c = c.source_key

      rows : List WatermarkCandidate
      rows = combined p e (u ∷ us) db

      keys : List String
      keys = set_of (map key_of rows)

      least :
          (c : WatermarkCandidate) (k : String)
          → least_at k rows ≡ some c
          → IsFound k rows (least_at k rows)
          → IsLeastOf k rows c
      least c k h found = rw h at found

      not_missing :
          (d : WatermarkCandidate)
          → Elem d rows
          → least_at d.source_key rows ≡ none
          → IsFound d.source_key rows (least_at d.source_key rows)
          → ⊥
      not_missing d m missing found =
          let others : IsNoneOf d.source_key rows = rw missing at found in others d m refl
