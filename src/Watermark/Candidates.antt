-- ===== src/Watermark/Candidates.antt =====
-- src/db/watermarks.rs: the candidates that a node gets from its parents when it starts, and the
-- table that they wait in.
use dbtx.Prelude.{
  ℕ, leb, min, max, String, Bool, ◌&&◌, not, Option, none, some, List, [], ◌∷◌, ◌++◌, ◌==◌, nat_eq,
  string_eq, if◌then◌else◌, contains, map, any, where_rows, update_rows, delete_rows, sort_by,
}
use dbtx.Planning.Closure.{text_le, set_of}
use dbtx.Source.{SourceStateEvent, ManifestEdge, NodeAncestorSource, NodeSourceWatermark, SourceDb}
use dbtx.Source.Events.{is_event_of}
use dbtx.Source.Stale.{is_watermark_of, larger_of}
use dbtx.Watermark.{WatermarkCandidate, CandidateRow}

unfoldable pub load_node_ancestor_sources : ℕ → String → SourceDb → List String
unfolding sort_by
load_node_ancestor_sources run u db = sort_by text_le (
    map (λ (r : NodeAncestorSource). r.source_key)
      (where_rows (λ (r : NodeAncestorSource). r.run_id == run && r.unique_id == u)
        db.ancestor_sources))

abbrev pub load_node_parents : ℕ → String → SourceDb → List String
load_node_parents run u db =
    map (λ (e : ManifestEdge). e.parent_unique_id)
      (where_rows (λ (e : ManifestEdge). e.run_id == run && e.child_unique_id == u)
        db.manifest_edges)

abbrev pub of_watermark : NodeSourceWatermark → WatermarkCandidate
of_watermark w = record {
  source_key = w.source_key;
  watermark_event_id = w.watermark_event_id;
  watermark_observed_at = w.watermark_observed_at;
}

-- `parent_watermarks`.
abbrev pub is_parent_watermark : ℕ → ℕ → List String → NodeSourceWatermark → Bool
is_parent_watermark p e parents w =
    w.project_id == p && w.environment_id == e && contains w.unique_id parents

abbrev pub parent_watermarks : ℕ → ℕ → List String → SourceDb → List WatermarkCandidate
parent_watermarks p e parents db =
    map of_watermark (where_rows (is_parent_watermark p e parents) db.watermarks)

-- `source_parent_fallback`: the events of a parent that is a source without a watermark of its own.
abbrev pub is_fallback_event : ℕ → ℕ → List String → SourceDb → SourceStateEvent → Bool
is_fallback_event p e parents db ev =
    is_event_of p e ev
    && contains ev.source_key parents
    && not (any (is_watermark_of p e ev.source_key ev.source_key) db.watermarks)

abbrev pub latest_of : String → Option WatermarkCandidate → SourceStateEvent → WatermarkCandidate
latest_of k none ev = record {
  source_key = k;
  watermark_event_id = ev.id;
  watermark_observed_at = some ev.observed_at;
}
latest_of k (some c) ev = record {
  source_key = k;
  watermark_event_id = max ev.id c.watermark_event_id;
  watermark_observed_at = some (larger_of ev.observed_at c.watermark_observed_at);
}

-- `MAX(id)` and `MAX(observed_at)` over the events of one key.
unfoldable pub latest_event_of : String → List SourceStateEvent → Option WatermarkCandidate
latest_event_of k [] = none
latest_event_of k (ev ∷ rest) =
    let found = latest_event_of k rest in
    if ev.source_key == k then some (latest_of k found ev) else found

unfoldable pub some_candidates :
    (String → Option WatermarkCandidate) → List String → List WatermarkCandidate
some_candidates f [] = []
some_candidates f (k ∷ rest) = cons_some (f k) (some_candidates f rest)
  where
    cons_some : Option WatermarkCandidate → List WatermarkCandidate → List WatermarkCandidate
    cons_some none cs = cs
    cons_some (some c) cs = c ∷ cs

abbrev pub keys_of_events : List SourceStateEvent → List String
keys_of_events events = set_of (map (λ (ev : SourceStateEvent). ev.source_key) events)

abbrev pub source_parent_fallback : ℕ → ℕ → List String → SourceDb → List WatermarkCandidate
source_parent_fallback p e parents db =
    let events = where_rows (is_fallback_event p e parents db) db.events in
    some_candidates (λ k. latest_event_of k events) (keys_of_events events)

-- `MIN`, which passes over `NULL`.
abbrev pub smaller_of : Option ℕ → Option ℕ → Option ℕ
smaller_of none b = b
smaller_of (some a) none = some a
smaller_of (some a) (some b) = some (min a b)

abbrev pub least_of : WatermarkCandidate → Option WatermarkCandidate → WatermarkCandidate
least_of c none = c
least_of c (some d) = record {
  source_key = c.source_key;
  watermark_event_id = min c.watermark_event_id d.watermark_event_id;
  watermark_observed_at = smaller_of c.watermark_observed_at d.watermark_observed_at;
}

-- `GROUP BY source_key`, at one key.
unfoldable pub least_at : String → List WatermarkCandidate → Option WatermarkCandidate
least_at k [] = none
least_at k (c ∷ rest) =
    let found = least_at k rest in if c.source_key == k then some (least_of c found) else found

abbrev pub combined : ℕ → ℕ → List String → SourceDb → List WatermarkCandidate
combined p e parents db = parent_watermarks p e parents db ++ source_parent_fallback p e parents db

abbrev pub grouped : List WatermarkCandidate → List WatermarkCandidate
grouped rows =
    some_candidates (λ k. least_at k rows)
      (set_of (map (λ (c : WatermarkCandidate). c.source_key) rows))

unfoldable pub load_parent_watermarks_min : ℕ → ℕ → List String → SourceDb → List WatermarkCandidate
unfolding latest_event_of some_candidates least_at
load_parent_watermarks_min p e [] db = []
load_parent_watermarks_min p e (u ∷ us) db = grouped (combined p e (u ∷ us) db)

abbrev pub of_event : SourceStateEvent → WatermarkCandidate
of_event ev = record {
  source_key = ev.source_key;
  watermark_event_id = ev.id;
  watermark_observed_at = some ev.observed_at;
}

abbrev pub later_event : SourceStateEvent → Option WatermarkCandidate → WatermarkCandidate
later_event ev none = of_event ev
later_event ev (some c) = if leb ev.id c.watermark_event_id then c else of_event ev

-- `ORDER BY id DESC LIMIT 1`.
unfoldable pub load_latest_source_event :
    ℕ → ℕ → String → List SourceStateEvent → Option WatermarkCandidate
load_latest_source_event p e k [] = none
load_latest_source_event p e k (ev ∷ rest) =
    let found = load_latest_source_event p e k rest in
    if is_event_of p e ev && ev.source_key == k then some (later_event ev found) else found

abbrev pub is_candidate_at : ℕ → String → CandidateRow → Bool
is_candidate_at run u r = r.run_id == run && r.unique_id == u

abbrev pub is_candidate_of : ℕ → String → String → CandidateRow → Bool
is_candidate_of run u k r = is_candidate_at run u r && r.source_key == k

abbrev pub candidate_row : ℕ → ℕ → String → WatermarkCandidate → CandidateRow
candidate_row now run u c = record {
  run_id = run;
  unique_id = u;
  source_key = c.source_key;
  watermark_event_id = c.watermark_event_id;
  watermark_observed_at = c.watermark_observed_at;
  created_at = now;
}

abbrev pub restaged : WatermarkCandidate → CandidateRow → CandidateRow
restaged c r = record r {
  watermark_event_id = c.watermark_event_id;
  watermark_observed_at = c.watermark_observed_at;
}

unfoldable pub insert_watermark_candidates :
    ℕ → ℕ → String → List WatermarkCandidate → List CandidateRow → List CandidateRow
insert_watermark_candidates now run u [] rows = rows
insert_watermark_candidates now run u (c ∷ rest) rows = insert_watermark_candidates now run u rest (
    if any (is_candidate_of run u c.source_key) rows
    then update_rows (is_candidate_of run u c.source_key) (restaged c) rows
    else rows ++ candidate_row now run u c ∷ [])

abbrev pub of_row : CandidateRow → WatermarkCandidate
of_row r = record {
  source_key = r.source_key;
  watermark_event_id = r.watermark_event_id;
  watermark_observed_at = r.watermark_observed_at;
}

abbrev pub load_watermark_candidates : ℕ → String → List CandidateRow → List WatermarkCandidate
load_watermark_candidates run u rows = map of_row (where_rows (is_candidate_at run u) rows)

abbrev pub delete_watermark_candidates : ℕ → String → List CandidateRow → List CandidateRow
delete_watermark_candidates run u rows = delete_rows (is_candidate_at run u) rows
