-- ===== src/Source/Reached.antt =====
-- src/db/watermarks.rs: the tracked nodes below a source, and what it is for one to be behind the
-- largest of some events.
use mathlib.Core.Path.{subst, sym}
use dbtx.Prelude.{
  ℕ, ◌≤◌, max, String, true, false, ◌≡◌, ◌↔◌, ◌⊎◌, refl, inl, inr, Option, none, some, List, [],
  ◌∷◌, ◌==◌, nat_eq, string_eq, eq_iff, arith, contains, contains_iff, map, and_iff, where_rows,
  Elem, Elem-where_rows, Elem-map, Option-cases,
}
use dbtx.Planning.Closure.{set_of}
use dbtx.Source.{SourceStateEvent, NodeAncestorSource, SourceDb}
use dbtx.Source.Events.{is_event_of}
use dbtx.Source.Closing.{Elem-set_of}
use dbtx.Source.Stale.{
  watermark_of, max_id, is_target_event, latest_target, is_below, is_tracked, is_stale_row,
  is_short_of,
}

max_id-upper :
    (rows : List SourceStateEvent) (ev : SourceStateEvent)
    → Elem ev rows
    → (m : ℕ) × (max_id rows ≡ some m) × (ev.id ≤ m)
max_id-upper [] ev at = absurd at
max_id-upper (x ∷ rest) ev (inl same) = elim (Option-cases (max_id rest)) [
  | inl none' ↦ (x.id, rw none' refl, ground (arith, same))
  | inr (m, e) ↦ (max x.id m, rw e refl, rw same (omega arith))
]
max_id-upper (x ∷ rest) ev (inr at) =
    let (m, e, le) = max_id-upper rest ev at in (max x.id m, rw e refl, omega arith)

max_id-attained :
    (rows : List SourceStateEvent) (m : ℕ)
    → max_id rows ≡ some m
    → (ev : SourceStateEvent) × Elem ev rows × (ev.id ≡ m)
max_id-attained [] m h = absurd (cc h)
max_id-attained (x ∷ rest) m h = elim (Option-cases (max_id rest)) [
  | inl none' ↦ (x, inl refl, ground (arith, rw none' at h))
  | inr (m', e) ↦
      let (ev, at, same) = max_id-attained rest m' e in
      let top : max x.id m' ≡ m = ground (arith, rw e at h) in
      elim (max_cases x.id m') [ inl own ↦ (x, inl refl, cc) | inr his ↦ (ev, inr at, cc) ]
]
  where
    max_cases : (a b : ℕ) → (max a b ≡ a) ⊎ (max a b ≡ b)
    max_cases a b = ground arith

not_below : (w : Option ℕ) (m : ℕ) → is_below w (some m) ≡ false → (n : ℕ) × (w ≡ some n) × (m ≤ n)
not_below none m h = absurd (cc h)
not_below (some n) m h = (n, refl, ground arith)

module _ (p e run : ℕ) (db : SourceDb) where
  abbrev pub reached : (keys : List String) (ids : List ℕ) → List String
  reached keys ids = set_of (
      map (λ (r : NodeAncestorSource). r.unique_id)
        (where_rows (is_stale_row p e keys ids run db) db.ancestor_sources))

  pub Elem-reached :
      (keys : List String) (ids : List ℕ) (u : String)
      → Elem u (reached keys ids) ↔ (
          (r : NodeAncestorSource) × Elem r db.ancestor_sources
          × (is_stale_row p e keys ids run db r ≡ true)
          × (u ≡ r.unique_id))
  Elem-reached keys ids u =
      let test = is_stale_row p e keys ids run db in
      let (there, back) =
        Elem-map (λ (r : NodeAncestorSource). r.unique_id) u
          (where_rows test db.ancestor_sources) in
      let once =
        Elem-set_of u
          (map (λ (r : NodeAncestorSource). r.unique_id) (where_rows test db.ancestor_sources)) in
      (
        λ m.
            let (r, at, same) = there (once.0 m) in
            let (in', on) = (Elem-where_rows test r db.ancestor_sources).0 at in (r, in', on, same),
        λ (r, in', on, same).
            once.1 (back (r, (Elem-where_rows test r db.ancestor_sources).1 (in', on), same)),
      )

  module _ (evs : List SourceStateEvent)
      (in_scope : (ev : SourceStateEvent)
        → Elem ev evs
        → Elem ev db.events × (is_event_of p e ev ≡ true))
      (primary_key : (a b : SourceStateEvent)
        → Elem a db.events
        → Elem b db.events
        → a.id ≡ b.id
        → a ≡ b) where
    abbrev pub keys_of : List String
    keys_of = map (λ (ev : SourceStateEvent). ev.source_key) evs

    abbrev pub ids_of : List ℕ
    ids_of = map (λ (ev : SourceStateEvent). ev.id) evs

    Elem-keys_of :
        (k : String)
        → Elem k keys_of ↔ ((ev : SourceStateEvent) × Elem ev evs × (k ≡ ev.source_key))
    Elem-keys_of k = Elem-map (λ (x : SourceStateEvent). x.source_key) k evs

    Elem-ids_of : (i : ℕ) → Elem i ids_of ↔ ((ev : SourceStateEvent) × Elem ev evs × (i ≡ ev.id))
    Elem-ids_of i = Elem-map (λ (x : SourceStateEvent). x.id) i evs

    -- The rows that the maximum is taken over are the events of the source.
    target_iff :
        (k : String) (x : SourceStateEvent)
        → Elem x (where_rows (is_target_event p e k ids_of) db.events)
          ↔ (Elem x evs × (x.source_key ≡ k))
    target_iff k x =
        let rows = Elem-where_rows (is_target_event p e k ids_of) x db.events in
        let tests = and_iff (is_event_of p e x) (x.source_key == k) (contains x.id ids_of) in
        (
          λ m.
              let (at, h) = rows.0 m in
              let (own, key, listed) = tests.0 h in
              let (ev, in', same) = (Elem-ids_of x.id).0 ((contains_iff x.id ids_of).0 listed) in
              (
                subst (λ z. Elem z evs) (primary_key ev x (in_scope ev in').0 at (sym same)) in',
                (eq_iff x.source_key k).0 key,
              ),
          λ (m, key).
              let listed = (contains_iff x.id ids_of).1 ((Elem-ids_of x.id).1 (x, m, refl)) in
              let (at, own) = in_scope x m in
              rows.1 (at, tests.1 (own, (eq_iff x.source_key k).1 key, listed)),
        )

    behind_iff :
        (k : String) (w : Option ℕ)
        → Elem k keys_of
        → (is_below w (latest_target p e k ids_of db) ≡ true) ↔ (
            (ev : SourceStateEvent) × Elem ev evs
            × (ev.source_key ≡ k)
            × (is_below w (some ev.id) ≡ true))
    behind_iff k w known =
        let targets = where_rows (is_target_event p e k ids_of) db.events in
        let (ev0, m0, k0) = (Elem-keys_of k).0 known in
        let (top, largest, above) = max_id-upper targets ev0 ((target_iff k ev0).1 (m0, sym k0)) in
        (
          λ h.
              let (ev, at, same) = max_id-attained targets top largest in
              let (m, key) = (target_iff k ev).0 at in
              (ev, m, key, subst (λ i. is_below w (some i) ≡ true) (sym same) (rw largest at h)),
          λ (ev, m, key, h).
              let (top', largest', le) = max_id-upper targets ev ((target_iff k ev).1 (m, key)) in
              rw largest' (further_below w ev.id top' le h),
        )
      where
        further_below :
            (w : Option ℕ) (i top : ℕ)
            → i ≤ top
            → is_below w (some i) ≡ true
            → is_below w (some top) ≡ true
        further_below none i top le h = refl
        further_below (some n) i top le h = ground arith

    -- A row is stale for the events when it is short of one of them.
    pub stale_iff_short :
        (r : NodeAncestorSource)
        → (is_stale_row p e keys_of ids_of run db r ≡ true) ↔ (
            (ev : SourceStateEvent) × Elem ev evs
            × (is_short_of p e ev.source_key ev.id run db r ≡ true))
    stale_iff_short r =
        let w = watermark_of p e db r in
        let latest = latest_target p e r.source_key ids_of db in
        let tests =
          and_iff (is_tracked run db r) (contains r.source_key keys_of) (is_below w latest) in
        let known = contains_iff r.source_key keys_of in
        (
          λ h.
              let (tracked, named, below) = tests.0 h in
              let (ev, m, key, short) = (behind_iff r.source_key w (known.0 named)).0 below in
              (
                ev,
                m,
                (short_parts ev).1
                    (tracked, (eq_iff r.source_key ev.source_key).1 (sym key), short),
              ),
          λ (ev, m, h).
              let (tracked, key, short) = (short_parts ev).0 h in
              let same = (eq_iff r.source_key ev.source_key).0 key in
              let named = (Elem-keys_of r.source_key).1 (ev, m, same) in
              tests.1 (
                tracked,
                known.1 named,
                (behind_iff r.source_key w named).1 (ev, m, sym same, short),
              ),
        )
      where
        short_parts :
            (ev : SourceStateEvent)
            → (is_short_of p e ev.source_key ev.id run db r ≡ true) ↔ (
                (is_tracked run db r ≡ true)
                × ((r.source_key == ev.source_key) ≡ true)
                × (is_below (watermark_of p e db r) (some ev.id) ≡ true))
        short_parts ev =
            and_iff (is_tracked run db r) (r.source_key == ev.source_key)
              (is_below (watermark_of p e db r) (some ev.id))
