-- ===== src/Source/Advance.antt =====
-- src/db/watermarks.rs: what `advance_satisfied_source_events_from_watermarks` makes satisfied.
use dbtx.Prelude.{
  ℕ, String, Bool, true, false, ◌&&◌, ◌||◌, not, ◌≡◌, ◌↔◌, refl, inl, inr, ap, some, List, [], ◌∷◌,
  ◌==◌, nat_eq, string_eq, option_eq, eq_iff, eq_self, arith, leb, contains, sort_by, Elem-sort_by,
  Elem-where_rows, and_iff, any, any_of_Elem, Elem-of_any, find, find-eq-none, find-eq-some,
  where_rows, Elem, Bool-cases, Option-cases,
}
use dbtx.Source.{SourceStateEvent, SourceDb}
use dbtx.Source.Events.{is_event_of, is_unsatisfied}
use dbtx.Source.Stale.{
  are_all_downstream_nodes_satisfied, upsert_status, is_event_with_id,
  advance_source_state_status_from_watermarks, advance_each, is_pending_event, key_first,
  advance_satisfied_source_events_from_watermarks,
}
use dbtx.Source.Statuses.{advance_one, satisfied_before}

module _ (now p e run : ℕ) (ev : SourceStateEvent) (own : is_event_of p e ev ≡ true) where
  -- The row of the loop makes `ev` satisfied.
  abbrev covers : SourceDb → SourceStateEvent → Bool
  covers db x =
      are_all_downstream_nodes_satisfied p e x.source_key x.id run db
      && (x.source_key == ev.source_key && leb ev.id x.id)

  found_by_id :
      (events : List SourceStateEvent) (x : SourceStateEvent)
      → ((a b : SourceStateEvent) → Elem a events → Elem b events → a.id ≡ b.id → a ≡ b)
      → Elem x events
      → is_event_of p e x ≡ true
      → find (is_event_with_id p e x.id) events ≡ some x
  found_by_id events x primary_key m h =
      elim (Option-cases (find (is_event_with_id p e x.id) events)) [
        | inl none' ↦
            let miss : (x.id == x.id && is_event_of p e x) ≡ false =
              find-eq-none (is_event_with_id p e x.id) events x none' m in
            let hit : (x.id == x.id && is_event_of p e x) ≡ true = rw (eq_self x.id) h in
            absurd (cc (hit, miss))
        | inr (y, at) ↦
            let (in', test) = find-eq-some (is_event_with_id p e x.id) events at in
            let same : y.id ≡ x.id = ground arith in rw at (ap some (primary_key y x in' m same))
      ]

  regroup : (u k r : Bool) → ((u && not k) && not r) ≡ (u && not (k || r))
  regroup u k r = ground arith

  advanced_to :
      (x : SourceStateEvent) (db : SourceDb)
      → find (is_event_with_id p e x.id) db.events ≡ some x
      → advance_source_state_status_from_watermarks now p e x.id db
        ≡ record db { statuses = upsert_status now e (some x) db.statuses }
  unfolding advance_source_state_status_from_watermarks
  advanced_to x db at = rw at refl

  each_settles :
      (xs : List SourceStateEvent) (db : SourceDb)
      → ((a b : SourceStateEvent) → Elem a db.events → Elem b db.events → a.id ≡ b.id → a ≡ b)
      → ((x : SourceStateEvent) → Elem x xs → Elem x db.events × (is_event_of p e x ≡ true))
      → is_unsatisfied (advance_each now p e run xs db).statuses ev
        ≡ (is_unsatisfied db.statuses ev && not (any (covers db) xs))
  unfolding advance_each
  each_settles [] db primary_key rows = ground arith
  each_settles (x ∷ rest) db primary_key rows =
      elim (Bool-cases (are_all_downstream_nodes_satisfied p e x.source_key x.id run db)) [
        | inl yes' ↦
            let (m, h) = rows x (inl refl) in
            let next = record db { statuses = upsert_status now e (some x) db.statuses } in
            let later = each_settles rest next primary_key (λ y m. rows y (inr m)) in
            rw yes' (
              rw (advanced_to x db (found_by_id db.events x primary_key m h), advance_each)
                (cc (
                  later,
                  advance_one now p e x ev db.statuses h own,
                  regroup (is_unsatisfied db.statuses ev)
                      (x.source_key == ev.source_key && leb ev.id x.id) (any (covers db) rest),
                )))
        | inr no' ↦ rw (no', advance_each) (each_settles rest db primary_key λ y m. rows y (inr m))
      ]

-- Which rows of the loop there are that make the event satisfied.
covered :
    (now p e run : ℕ) (keys : List String) (db : SourceDb) (ev : SourceStateEvent)
    (own : is_event_of p e ev ≡ true) (rows : List SourceStateEvent)
    → ((x : SourceStateEvent)
        → Elem x rows ↔ (Elem x db.events × (is_pending_event p e keys db x ≡ true)))
    → Elem ev db.events
    → is_unsatisfied db.statuses ev ≡ true
    → any (covers now p e run ev own db) rows ≡ (
        contains ev.source_key keys
        && are_all_downstream_nodes_satisfied p e ev.source_key ev.id run db)
covered now p e run keys db ev own rows member m open' =
    same_tests _ (contains ev.source_key keys && sat ev) (
      λ h.
          let (x, at, hit) = Elem-of_any (covers now p e run ev own db) rows h in
          let (yes', key, le) =
            (and_iff (sat x) (x.source_key == ev.source_key) (leb ev.id x.id)).0
              (regroup (sat x) _ _ hit) in
          let same = (eq_iff x.source_key ev.source_key).0 key in
          let known = (pending x).0 ((member x).0 at).1 in
          both (contains ev.source_key keys) (sat ev) (rw same at known.2)
            (satisfied_before p e run ev.source_key ev.id x.id db (ground arith) (rw same at yes')),
      λ h.
          let (known, yes') = parts (contains ev.source_key keys) (sat ev) h in
          any_of_Elem (covers now p e run ev own db) rows ev
            ((member ev).1 (m, (pending ev).1 (own, open', known))) (itself yes'),
    )
  where
    sat : SourceStateEvent → Bool
    sat x = are_all_downstream_nodes_satisfied p e x.source_key x.id run db

    pending :
        (x : SourceStateEvent)
        → (is_pending_event p e keys db x ≡ true) ↔ (
            (is_event_of p e x ≡ true)
            × (is_unsatisfied db.statuses x ≡ true)
            × (contains x.source_key keys ≡ true))
    pending x =
        and_iff (is_event_of p e x) (is_unsatisfied db.statuses x) (contains x.source_key keys)

    same_tests : (a b : Bool) → (a ≡ true) ↔ (b ≡ true) → a ≡ b
    same_tests a b h = ground arith

    both : (a b : Bool) → a ≡ true → b ≡ true → (a && b) ≡ true
    both a b h h' = ground arith

    parts : (a b : Bool) → (a && b) ≡ true → (a ≡ true) × (b ≡ true)
    parts a b h = ground arith

    regroup : (a b c : Bool) → (a && (b && c)) ≡ true → (a && b && c) ≡ true
    regroup a b c h = ground arith

    itself : sat ev ≡ true → covers now p e run ev own db ev ≡ true
    itself yes' = ground (arith, eq_iff ev.source_key ev.source_key)

-- After the events of an environment are advanced for some sources, an event of the environment is
-- unsatisfied exactly when it was before and not both its source is one of these and every node
-- below that source has a watermark at the event or a later one. Event ids are unique.
pub advance_settles :
    (now p e run : ℕ) (keys : List String) (db : SourceDb) (ev : SourceStateEvent)
    → Elem ev db.events
    → is_event_of p e ev ≡ true
    → ((a b : SourceStateEvent) → Elem a db.events → Elem b db.events → a.id ≡ b.id → a ≡ b)
    → is_unsatisfied
        (advance_satisfied_source_events_from_watermarks now p e keys run db).statuses
        ev
      ≡ (is_unsatisfied db.statuses ev
          && not (
              contains ev.source_key keys
              && are_all_downstream_nodes_satisfied p e ev.source_key ev.id run db))
unfolding advance_satisfied_source_events_from_watermarks
advance_settles now p e run [] db ev m own primary_key = ground arith
advance_settles now p e run (k ∷ ks) db ev m own primary_key =
    let keys = k ∷ ks in
    let pending = where_rows (is_pending_event p e keys db) db.events in
    let rows = sort_by key_first pending in
    let member : (x : SourceStateEvent)
        → Elem x rows ↔ (Elem x db.events × (is_pending_event p e keys db x ≡ true)) =
      λ x.
        let sorted = Elem-sort_by key_first x pending in
        let passed = Elem-where_rows (is_pending_event p e keys db) x db.events in
        (λ h. passed.0 (sorted.0 h), λ h. sorted.1 (passed.1 h)) in
    let settled = each_settles now p e run ev own rows db primary_key λ x at.
      let (in', test) = (member x).0 at in
      (
        in',
        ((and_iff (is_event_of p e x) (is_unsatisfied db.statuses x) (contains x.source_key keys)).0
            test).0,
      ) in
    elim (Bool-cases (is_unsatisfied db.statuses ev)) [
      | inl open' ↦ rw settled (rw (covered now p e run keys db ev own rows member m open') refl)
      | inr done ↦ rw settled (rw done refl)
    ]
