-- ===== src/Source/Stale.antt =====
-- src/db/watermarks.rs: which nodes are behind the events of a source, and how an event becomes
-- satisfied when none is.
use dbtx.Prelude.{
  ℕ, max, String, Bool, true, false, ◌&&◌, ◌||◌, not, Option, none, some, List, [], ◌∷◌, ◌++◌, ◌==◌,
  nat_eq, string_eq, option_eq, if◌then◌else◌, ltb, leb, is_none, none_or, contains, map, any, find,
  where_rows, update_rows, sort_by,
}
use dbtx.Planning.Closure.{text_le, set_of}
use dbtx.Planning.Select.{is_empty}
use dbtx.Source.{
  SourceStateEvent, SourceStateStatus, NodeAncestorSource, NodeSourceWatermark, SourceDb,
}
use dbtx.Source.Events.{is_event_of, is_status_of, unsatisfied_in}
use dbtx.Source.Downstream.{is_node_not_source, list_downstream_manifest_node_unique_ids}

abbrev pub has_ancestors : ℕ → SourceDb → Bool
has_ancestors run db = any (λ (r : NodeAncestorSource). r.run_id == run) db.ancestor_sources

abbrev pub is_watermark_of : ℕ → ℕ → String → String → NodeSourceWatermark → Bool
is_watermark_of p e u k w =
    w.project_id == p && w.environment_id == e && w.unique_id == u && w.source_key == k

abbrev pub watermark_id : Option NodeSourceWatermark → Option ℕ
watermark_id none = none
watermark_id (some w) = some w.watermark_event_id

-- The `LEFT JOIN` with `node_source_watermarks`, whose key allows one row.
abbrev pub watermark_of : ℕ → ℕ → SourceDb → NodeAncestorSource → Option ℕ
watermark_of p e db r =
    watermark_id (find (is_watermark_of p e r.unique_id r.source_key) db.watermarks)

-- `MAX(id)`, which is `NULL` over no rows.
abbrev pub larger_of : ℕ → Option ℕ → ℕ
larger_of n none = n
larger_of n (some m) = max n m

abbrev pub max_id : List SourceStateEvent → Option ℕ
max_id [] = none
max_id (ev ∷ rest) = some (larger_of ev.id (max_id rest))

abbrev pub is_target_event : ℕ → ℕ → String → List ℕ → SourceStateEvent → Bool
is_target_event p e k ids ev = is_event_of p e ev && ev.source_key == k && contains ev.id ids

abbrev pub latest_target : ℕ → ℕ → String → List ℕ → SourceDb → Option ℕ
latest_target p e k ids db = max_id (where_rows (is_target_event p e k ids) db.events)

-- `w IS NULL OR w < m`.
abbrev pub is_below : Option ℕ → Option ℕ → Bool
is_below w none = is_none w
is_below w (some m) = none_or (λ n. ltb n m) w

abbrev pub is_tracked : ℕ → SourceDb → NodeAncestorSource → Bool
is_tracked run db r = r.run_id == run && is_node_not_source db.manifest_nodes run r.unique_id

abbrev pub is_stale_row : ℕ → ℕ → List String → List ℕ → ℕ → SourceDb → NodeAncestorSource → Bool
is_stale_row p e keys ids run db r =
    is_tracked run db r
    && contains r.source_key keys
    && is_below (watermark_of p e db r) (latest_target p e r.source_key ids db)

abbrev pub no_ids : List ℕ → Bool
no_ids [] = true
no_ids (i ∷ rest) = false

unfoldable pub list_stale_downstream_nodes :
    ℕ → ℕ → List String → List ℕ → ℕ → SourceDb → List String
unfolding list_downstream_manifest_node_unique_ids sort_by
list_stale_downstream_nodes p e keys ids run db =
    if is_empty keys || no_ids ids
    then []
    else if has_ancestors run db
    then sort_by text_le (
        set_of (
          map (λ (r : NodeAncestorSource). r.unique_id)
            (where_rows (is_stale_row p e keys ids run db) db.ancestor_sources)))
    else list_downstream_manifest_node_unique_ids run keys db

abbrev pub is_short_of : ℕ → ℕ → String → ℕ → ℕ → SourceDb → NodeAncestorSource → Bool
is_short_of p e k event run db r =
    is_tracked run db r && r.source_key == k && is_below (watermark_of p e db r) (some event)

unfoldable pub are_all_downstream_nodes_satisfied : ℕ → ℕ → String → ℕ → ℕ → SourceDb → Bool
are_all_downstream_nodes_satisfied p e k event run db =
    has_ancestors run db && not (any (is_short_of p e k event run db) db.ancestor_sources)

abbrev pub new_status : ℕ → ℕ → SourceStateEvent → SourceStateStatus
new_status now e ev = record {
  project_id = ev.project_id;
  environment_id = e;
  source_key = ev.source_key;
  latest_satisfied_event_id = ev.id;
  latest_satisfied_state_version = ev.state_version;
  latest_satisfied_observed_at = ev.observed_at;
  last_satisfied_run_id = none;
  last_satisfied_plan_id = none;
  updated_at = now;
}

abbrev pub advanced_status : ℕ → SourceStateEvent → SourceStateStatus → SourceStateStatus
advanced_status now ev s =
    if ltb s.latest_satisfied_event_id ev.id
    then record s {
      latest_satisfied_event_id = ev.id;
      latest_satisfied_state_version = ev.state_version;
      latest_satisfied_observed_at = ev.observed_at;
      updated_at = now;
    }
    else s

-- `INSERT … SELECT … ON CONFLICT DO UPDATE`, of the one event with the id or of none.
abbrev pub upsert_status :
    ℕ → ℕ → Option SourceStateEvent → List SourceStateStatus → List SourceStateStatus
upsert_status now e none statuses = statuses
upsert_status now e (some ev) statuses =
    if any (is_status_of ev) statuses
    then update_rows (is_status_of ev) (advanced_status now ev) statuses
    else statuses ++ new_status now e ev ∷ []

abbrev pub is_event_with_id : ℕ → ℕ → ℕ → SourceStateEvent → Bool
is_event_with_id p e i ev = ev.id == i && is_event_of p e ev

unfoldable pub advance_source_state_status_from_watermarks : ℕ → ℕ → ℕ → ℕ → SourceDb → SourceDb
advance_source_state_status_from_watermarks now p e i db = record db {
  statuses = upsert_status now e (find (is_event_with_id p e i) db.events) db.statuses;
}

-- `ORDER BY source_key, id`.
abbrev pub key_first : SourceStateEvent → SourceStateEvent → Bool
key_first a b =
    if a.source_key == b.source_key then leb a.id b.id else text_le a.source_key b.source_key

abbrev pub is_pending_event : ℕ → ℕ → List String → SourceDb → SourceStateEvent → Bool
is_pending_event p e keys db ev = unsatisfied_in p e db.statuses ev && contains ev.source_key keys

-- The loop over the rows.
unfoldable pub advance_each : ℕ → ℕ → ℕ → ℕ → List SourceStateEvent → SourceDb → SourceDb
unfolding advance_source_state_status_from_watermarks are_all_downstream_nodes_satisfied
advance_each now p e run [] db = db
advance_each now p e run (ev ∷ rest) db = advance_each now p e run rest (
    if are_all_downstream_nodes_satisfied p e ev.source_key ev.id run db
    then advance_source_state_status_from_watermarks now p e ev.id db
    else db)

unfoldable pub advance_satisfied_source_events_from_watermarks :
    ℕ → ℕ → ℕ → List String → ℕ → SourceDb → SourceDb
unfolding advance_each sort_by
advance_satisfied_source_events_from_watermarks now p e keys run db =
    if is_empty keys
    then db
    else advance_each now p e run
        (sort_by key_first (where_rows (is_pending_event p e keys db) db.events)) db
