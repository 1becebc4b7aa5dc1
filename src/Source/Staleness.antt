-- ===== src/Source/Staleness.antt =====
-- src/db/watermarks.rs: the two watermark queries agree: no node is stale for some events exactly when all nodes downstream
-- of each event's source are satisfied.
use dbtx.Prelude.{
  ℕ, String, Bool, true, false, not, ◌≡◌, ◌↔◌, refl, inl, inr, List, [], ◌∷◌, nat_eq, string_eq,
  arith, map, any, any-eq-false, any-false_of_Elem, nil_of_no_Elem, Elem, Elem-sort_by, Elem-ne-nil,
  Bool-cases,
}
use dbtx.Planning.Closure.{text_le}
use dbtx.Source.{SourceStateEvent, NodeAncestorSource, SourceDb}
use dbtx.Source.Events.{is_event_of}
use dbtx.Source.Stale.{
  has_ancestors, list_stale_downstream_nodes, is_short_of, are_all_downstream_nodes_satisfied,
}
use dbtx.Source.Reached.{keys_of, ids_of, stale_iff_short, Elem-reached, reached}

satisfied_iff :
    (p e run : ℕ) (db : SourceDb) (ev : SourceStateEvent)
    → has_ancestors run db ≡ true
    → (are_all_downstream_nodes_satisfied p e ev.source_key ev.id run db ≡ true) ↔ (
        (r : NodeAncestorSource)
        → Elem r db.ancestor_sources
        → is_short_of p e ev.source_key ev.id run db r ≡ false)
unfolding are_all_downstream_nodes_satisfied
satisfied_iff p e run db ev known =
    let short = is_short_of p e ev.source_key ev.id run db in
    (
      λ h r at.
          any-eq-false short db.ancestor_sources r
            (none_of (any short db.ancestor_sources) (rw known at h)) at,
      λ fine. rw known (rw (any-false_of_Elem short db.ancestor_sources fine) refl),
    )
  where
    none_of : (b : Bool) → not b ≡ true → b ≡ false
    none_of b h = ground arith

-- For events of the environment, when the manifest's ancestor sources are recorded: the query for
-- stale nodes below the events' sources returns no node exactly when, for each event, every node
-- below its source has a watermark at that event or a later one.
pub none_stale-iff-all_satisfied :
    (p e run : ℕ) (db : SourceDb) (first : SourceStateEvent) (rest : List SourceStateEvent)
    → has_ancestors run db ≡ true
    → ((ev : SourceStateEvent)
        → Elem ev (first ∷ rest)
        → Elem ev db.events × (is_event_of p e ev ≡ true))
    → ((a b : SourceStateEvent) → Elem a db.events → Elem b db.events → a.id ≡ b.id → a ≡ b)
    → (list_stale_downstream_nodes p e
          (map (λ (ev : SourceStateEvent). ev.source_key) (first ∷ rest))
          (map (λ (ev : SourceStateEvent). ev.id) (first ∷ rest))
          run
          db
        ≡ [])
      ↔ ((ev : SourceStateEvent)
          → Elem ev (first ∷ rest)
          → are_all_downstream_nodes_satisfied p e ev.source_key ev.id run db ≡ true)
unfolding list_stale_downstream_nodes
none_stale-iff-all_satisfied p e run db first rest known in_scope primary_key =
    let evs = first ∷ rest in
    let keys = keys_of p e run db evs in_scope primary_key in
    let ids = ids_of p e run db evs in_scope primary_key in
    let sorted = λ (u : String). Elem-sort_by text_le u (reached p e run db keys ids) in
    let member = Elem-reached p e run db keys ids in
    let stale = stale_iff_short p e run db evs in_scope primary_key in
    rw known (
      λ none' ev m. (satisfied_iff p e run db ev known).1 λ r at.
          elim (Bool-cases (is_short_of p e ev.source_key ev.id run db r)) [
            | inl short ↦
                let here = (member r.unique_id).1 (r, at, (stale r).1 (ev, m, short), refl) in
                absurd (Elem-ne-nil _ r.unique_id ((sorted r.unique_id).1 here) none')
            | inr fine ↦ fine
          ],
      λ every. nil_of_no_Elem _ λ u m.
          let (r, at, h, same) = (member u).0 ((sorted u).0 m) in
          let (ev, m', short) = (stale r).0 h in
          cc ((satisfied_iff p e run db ev known).0 (every ev m') r at, short),
    )
