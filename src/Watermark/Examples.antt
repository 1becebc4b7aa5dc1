-- ===== src/Watermark/Examples.antt =====
-- A model with a staged candidate, and the theorems of the watermark modules there.
use dbtx.Prelude.{true, ◌≡◌, refl, some, none, [], ◌∷◌, Elem}
use dbtx.Source.Examples.{source_db}
use dbtx.Watermark.{WatermarkCandidate, CandidateRow, NodeEvent, WatermarkDb}
use dbtx.Watermark.Candidates.{load_watermark_candidates, load_parent_watermarks_min, combined}
use dbtx.Watermark.Handle.{handle_node_watermark}
use dbtx.Watermark.Raised.{watermark_at, raised}
use dbtx.Watermark.Least.{IsLeastOf, candidates_are_least}
use dbtx.Watermark.Finished.{finish_by_key}

abbrev staged_row : CandidateRow
staged_row = record {
  run_id = 8;
  unique_id = "model.b";
  source_key = "source.s";
  watermark_event_id = 5;
  watermark_observed_at = none;
  created_at = 8;
}

abbrev waiting_db : WatermarkDb
waiting_db = record { source = source_db; candidates = staged_row ∷ []; log = [] }

abbrev finished_b : NodeEvent
finished_b = record {
  unique_id = "model.b";
  resource_type = some "model";
  started_at = some 8;
  finished_at = some 9;
}

finish_by_key_example :
    (watermark_at 1 2 "model.b" "source.s"
        (handle_node_watermark 9 8 1 2 (some 6) (some 7) finished_b true waiting_db)
      ≡ raised "source.s" (load_watermark_candidates 8 "model.b" (staged_row ∷ [])) (some 4))
    × (load_watermark_candidates 8 "model.b"
          (handle_node_watermark 9 8 1 2 (some 6) (some 7) finished_b true waiting_db).candidates
        ≡ [])
finish_by_key_example =
    finish_by_key 9 8 1 2 (some 6) (some 7) finished_b 1 2 "model.b" "source.s" true waiting_db refl

raised_to_5 :
    watermark_at 1 2 "model.b" "source.s"
      (handle_node_watermark 9 8 1 2 (some 6) (some 7) finished_b true waiting_db)
    ≡ some 5
raised_to_5 =
    (finish_by_key 9 8 1 2 (some 6) (some 7) finished_b 1 2 "model.b" "source.s" true waiting_db
      refl).0

candidates_are_least_example :
    ((c : WatermarkCandidate)
      → Elem c (load_parent_watermarks_min 1 2 ("model.a" ∷ "model.b" ∷ []) source_db)
      → IsLeastOf c.source_key (combined 1 2 ("model.a" ∷ "model.b" ∷ []) source_db) c)
    × ((d : WatermarkCandidate)
        → Elem d (combined 1 2 ("model.a" ∷ "model.b" ∷ []) source_db)
        → (c : WatermarkCandidate) × Elem c
            (load_parent_watermarks_min 1 2 ("model.a" ∷ "model.b" ∷ []) source_db)
          × (c.source_key ≡ d.source_key))
candidates_are_least_example = candidates_are_least 1 2 "model.a" ("model.b" ∷ []) source_db

-- The parents have reached the events 5 and 4.
least_of_parents :
    load_parent_watermarks_min 1 2 ("model.a" ∷ "model.b" ∷ []) source_db
    ≡ record { source_key = "source.s"; watermark_event_id = 4; watermark_observed_at = none } ∷ []
unfolding load_parent_watermarks_min
least_of_parents = refl
