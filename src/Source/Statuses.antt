-- ===== src/Source/Statuses.antt =====
-- src/db/watermarks.rs: the status rows of one source before and after an event is taken as
-- satisfied.
use mathlib.Core.Option.{map as map_some}
use dbtx.Prelude.{
  ℕ, ◌≤◌, String, Bool, true, false, ◌&&◌, not, ◌≡◌, refl, inl, inr, Option, none, some, List, [],
  ◌∷◌, ◌==◌, nat_eq, string_eq, option_eq, option_beq_iff, eq_iff, eq_self, arith, leb, ltb, any,
  any-eq-false, any-false_of_Elem, find, find-eq-some, find-append, find-update_rows,
  find-of_any-false, none_or, coalesce, update_rows, Bool-cases, Option-cases, if◌then◌else◌,
}
use dbtx.Source.{SourceStateEvent, SourceStateStatus, NodeAncestorSource, SourceDb}
use dbtx.Source.Events.{is_event_of, is_status_of, is_unsatisfied, latest_satisfied}
use dbtx.Source.Stale.{
  has_ancestors, is_below, is_tracked, watermark_of, is_short_of,
  are_all_downstream_nodes_satisfied, new_status, advanced_status, upsert_status,
}

abbrev is_status_in : ℕ → ℕ → String → SourceStateStatus → Bool
is_status_in p e k s = s.project_id == p && some s.environment_id == some e && s.source_key == k

test_in_scope :
    (p e : ℕ) (ev : SourceStateEvent)
    → is_event_of p e ev ≡ true
    → is_status_of ev ≡ is_status_in p e ev.source_key
test_in_scope p e ev h =
    let own : ev.project_id ≡ p = ground arith in
    let env : ev.environment_id ≡ some e =
      (option_beq_iff nat_eq ev.environment_id (some e)).0 (ground arith) in
    rw own (rw env refl)

none_of_none :
    (q : SourceStateStatus → Bool) (statuses : List SourceStateStatus)
    → find q statuses ≡ none
    → any q statuses ≡ false
none_of_none q [] h = refl
none_of_none q (s ∷ rest) h = ground (arith, none_of_none q rest)

same_key :
    (p e : ℕ) (k k' : String) (s : SourceStateStatus)
    → is_status_in p e k s ≡ true
    → is_status_in p e k' s ≡ (k' == k)
same_key p e k k' s h = elim (Bool-cases (k' == k)) [
  | inl same ↦ let e' : k' ≡ k = (eq_iff k' k).0 same in rw same (rw e' h)
  | inr other ↦
      rw other (ground (arith, eq_iff s.source_key k', eq_iff s.source_key k, eq_iff k' k))
]

new_in_scope :
    (now p e : ℕ) (x : SourceStateEvent) (k : String)
    → is_event_of p e x ≡ true
    → is_status_in p e k (new_status now e x) ≡ (x.source_key == k)
new_in_scope now p e x k h =
    let own : (x.project_id == p) ≡ true = ground arith in rw own (rw (eq_self e) refl)

-- What one advance does to the test of another event of the environment.
pub advance_one :
    (now p e : ℕ) (x ev : SourceStateEvent) (statuses : List SourceStateStatus)
    → is_event_of p e x ≡ true
    → is_event_of p e ev ≡ true
    → is_unsatisfied (upsert_status now e (some x) statuses) ev
      ≡ (is_unsatisfied statuses ev && not (x.source_key == ev.source_key && leb ev.id x.id))
advance_one now p e x ev statuses hx hev = rw (test_in_scope p e x hx) (
    rw (test_in_scope p e ev hev) (elim (Bool-cases (any (test x) statuses)) [
      | inl there ↦ rw there (
          rw kept (elim (Option-cases (find (test ev) statuses)) [
            | inl none' ↦ rw none' (elim (Bool-cases (x.source_key == ev.source_key)) [
              | inl same ↦
                  let gone = none_of_none (test ev) statuses none' in
                  absurd (cc ((eq_iff x.source_key ev.source_key).0 same, there, gone))
              | inr other ↦ rw other refl
            ])
            | inr (s, at) ↦ rw at (
                rw
                  (same_key p e ev.source_key x.source_key s (find-eq-some (test ev) statuses at).1)
                  (advanced s (x.source_key == ev.source_key)))
          ]))
      | inr missing ↦ rw missing (
          rw (find-append (test ev) statuses (new_status now e x ∷ [])) (
            rw (new_in_scope now p e x ev.source_key hx) (
              fresh (find (test ev) statuses) (x.source_key == ev.source_key) λ same.
                find-of_any-false (test ev) statuses
                  (rw ((eq_iff x.source_key ev.source_key).0 same) at missing))))
    ]))
  where
    test : SourceStateEvent → SourceStateStatus → Bool
    test x = is_status_in p e x.source_key

    kept :
        find (test ev) (update_rows (test x) (advanced_status now x) statuses)
        ≡ map_some (λ a. if test x a then advanced_status now x a else a) (find (test ev) statuses)
    kept = find-update_rows (test ev) (test x) (advanced_status now x) statuses λ a. ground arith

    advanced :
        (s : SourceStateStatus) (b : Bool)
        → ltb (if b then advanced_status now x s else s).latest_satisfied_event_id ev.id
          ≡ (ltb s.latest_satisfied_event_id ev.id && not (b && leb ev.id x.id))
    advanced s b = ground arith

    fresh :
        (found : Option SourceStateStatus) (b : Bool)
        → (b ≡ true → found ≡ none)
        → none_or
            (λ n. ltb n ev.id)
            (latest_satisfied (coalesce found (if b then some (new_status now e x) else none)))
          ≡ (none_or (λ n. ltb n ev.id) (latest_satisfied found) && not (b && leb ev.id x.id))
    fresh none b h = ground arith
    fresh (some s) b h = ground arith

-- A later event that is satisfied satisfies an earlier one of its source.
pub satisfied_before :
    (p e run : ℕ) (k : String) (i j : ℕ) (db : SourceDb)
    → i ≤ j
    → are_all_downstream_nodes_satisfied p e k j run db ≡ true
    → are_all_downstream_nodes_satisfied p e k i run db ≡ true
unfolding are_all_downstream_nodes_satisfied
satisfied_before p e run k i j db le h =
    let parts =
      parts_of (has_ancestors run db) (any (is_short_of p e k j run db) db.ancestor_sources) h in
    rw parts.0 (
      rw
        (any-false_of_Elem (is_short_of p e k i run db) db.ancestor_sources λ r m.
          less_short r (any-eq-false (is_short_of p e k j run db) db.ancestor_sources r parts.1 m))
        refl)
  where
    parts_of : (a b : Bool) → (a && not b) ≡ true → (a ≡ true) × (b ≡ false)
    parts_of a b h = ground arith

    further :
        (a b : Bool) (w : Option ℕ)
        → (a && b && is_below w (some j)) ≡ false
        → (a && b && is_below w (some i)) ≡ false
    further a b none h = ground arith
    further a b (some n) h = ground arith

    less_short :
        (r : NodeAncestorSource)
        → is_short_of p e k j run db r ≡ false
        → is_short_of p e k i run db r ≡ false
    less_short r h = further (is_tracked run db r) (r.source_key == k) (watermark_of p e db r) h
