-- ===== src/Watermark/Commit.antt =====
-- src/db/watermarks.rs: `commit_node_watermarks`, which only raises watermarks.
use dbtx.Prelude.{
  ℕ, String, Bool, Option, List, [], ◌∷◌, ◌++◌, nat_eq, string_eq, if◌then◌else◌, leb, some_and,
  any, find, update_rows,
}
use dbtx.Source.{NodeSourceWatermark}
use dbtx.Source.Stale.{is_watermark_of, watermark_id}
use dbtx.Watermark.{WatermarkCandidate, WatermarkLogRow, WatermarkDb}

module _ (now p e : ℕ) (u : String) (run : ℕ) (invocation : Option ℕ) where
  abbrev pub watermark_row : WatermarkCandidate → NodeSourceWatermark
  watermark_row c = record {
    project_id = p;
    environment_id = e;
    unique_id = u;
    source_key = c.source_key;
    watermark_event_id = c.watermark_event_id;
    watermark_observed_at = c.watermark_observed_at;
    run_id = run;
    updated_at = now;
  }

  abbrev pub put_watermark :
      WatermarkCandidate → List NodeSourceWatermark → List NodeSourceWatermark
  put_watermark c rows =
      if any (is_watermark_of p e u c.source_key) rows
      then update_rows (is_watermark_of p e u c.source_key) (λ _. watermark_row c) rows
      else rows ++ watermark_row c ∷ []

  abbrev pub log_row : WatermarkCandidate → Option ℕ → WatermarkLogRow
  log_row c previous = record {
    project_id = p;
    environment_id = e;
    unique_id = u;
    source_key = c.source_key;
    watermark_event_id = c.watermark_event_id;
    previous_event_id = previous;
    run_id = run;
    invocation_id = invocation;
    recorded_at = now;
  }

  abbrev pub advanced_db : WatermarkCandidate → Option ℕ → WatermarkDb → WatermarkDb
  advanced_db c previous db = record db {
    source = record (db.source) { watermarks = put_watermark c db.source.watermarks };
    log = db.log ++ log_row c previous ∷ [];
  }

  abbrev pub previous_of : WatermarkCandidate → WatermarkDb → Option ℕ
  previous_of c db = watermark_id (find (is_watermark_of p e u c.source_key) db.source.watermarks)

  -- Whether the candidate is left out.
  abbrev pub is_behind : WatermarkCandidate → WatermarkDb → Bool
  is_behind c db = some_and (λ n. leb c.watermark_event_id n) (previous_of c db)

  abbrev pub commit_one : WatermarkCandidate → WatermarkDb → WatermarkDb
  commit_one c db = if is_behind c db then db else advanced_db c (previous_of c db) db

  -- Returns what advanced.
  unfoldable pub commit_node_watermarks :
      List WatermarkCandidate → WatermarkDb → List WatermarkCandidate × WatermarkDb
  commit_node_watermarks [] db = ([], db)
  commit_node_watermarks (c ∷ rest) db =
      let (advanced, after) = commit_node_watermarks rest (commit_one c db) in
      (if is_behind c db then advanced else c ∷ advanced, after)
