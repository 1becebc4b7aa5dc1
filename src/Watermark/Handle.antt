-- ===== src/Watermark/Handle.antt =====
-- src/db/runs.rs: `handle_node_watermark`. A node that starts stages its candidates; a node that
-- finishes commits them if it succeeded, and drops them in any case.
use dbtx.Prelude.{
  ℕ, String, Bool, ◌&&◌, Option, none, some, List, [], ◌∷◌, ◌==◌, string_eq, option_eq,
  if◌then◌else◌, is_some, is_none, map,
}
use dbtx.Planning.Select.{is_empty}
use dbtx.Source.{SourceDb}
use dbtx.Source.Stale.{advance_satisfied_source_events_from_watermarks}
use dbtx.Watermark.{WatermarkCandidate, NodeEvent, WatermarkDb}
use dbtx.Watermark.Candidates.{
  load_node_ancestor_sources, load_node_parents, load_parent_watermarks_min,
  load_latest_source_event, insert_watermark_candidates, load_watermark_candidates,
  delete_watermark_candidates,
}
use dbtx.Watermark.Commit.{commit_node_watermarks}

abbrev pub to_list : Option WatermarkCandidate → List WatermarkCandidate
to_list none = []
to_list (some c) = c ∷ []

module _ (now run p e : ℕ) (invocation manifest_run : Option ℕ) (node : NodeEvent) where
  -- A parent's watermark for each source, or the latest event of a source.
  abbrev pub start_candidates : ℕ → SourceDb → List WatermarkCandidate
  unfolding load_latest_source_event load_parent_watermarks_min
  start_candidates manifest db =
      if node.resource_type == some "source"
      then to_list (load_latest_source_event p e node.unique_id db.events)
      else load_parent_watermarks_min p e (load_node_parents manifest node.unique_id db) db

  abbrev pub staged : List WatermarkCandidate → WatermarkDb → WatermarkDb
  staged cs db = record db {
    candidates = insert_watermark_candidates now run node.unique_id cs db.candidates;
  }

  -- Nodes without a tracked source above them are left out.
  abbrev pub node_started : Option ℕ → WatermarkDb → WatermarkDb
  node_started none db = db
  node_started (some manifest) db =
      if is_empty (load_node_ancestor_sources manifest node.unique_id db.source)
      then db
      else staged (start_candidates manifest db.source) db

  abbrev pub advance_events : Option ℕ → List String → WatermarkDb → WatermarkDb
  advance_events none keys db = db
  advance_events (some manifest) keys db = record db {
    source = advance_satisfied_source_events_from_watermarks now p e keys manifest db.source;
  }

  abbrev pub commit_staged : List WatermarkCandidate → WatermarkDb → WatermarkDb
  commit_staged [] db = db
  commit_staged (c ∷ cs) db =
      let (advanced, after) =
        commit_node_watermarks now p e node.unique_id run invocation (c ∷ cs) db in
      advance_events manifest_run (map (λ (d : WatermarkCandidate). d.source_key) advanced) after

  abbrev pub dropped : WatermarkDb → WatermarkDb
  dropped db = record db {
    candidates = delete_watermark_candidates run node.unique_id db.candidates;
  }

  abbrev pub node_finished : Bool → WatermarkDb → WatermarkDb
  node_finished promotable db = dropped (
      if promotable
      then commit_staged (load_watermark_candidates run node.unique_id db.candidates) db
      else db)

  unfoldable pub handle_node_watermark : Bool → WatermarkDb → WatermarkDb
  unfolding load_node_ancestor_sources load_latest_source_event load_parent_watermarks_min
      insert_watermark_candidates commit_node_watermarks
      advance_satisfied_source_events_from_watermarks
  handle_node_watermark promotable db =
      if is_some node.started_at && is_none node.finished_at
      then node_started manifest_run db
      else if is_some node.finished_at
      then node_finished promotable db
      else db
