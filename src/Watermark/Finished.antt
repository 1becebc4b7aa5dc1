-- ===== src/Watermark/Finished.antt =====
-- What the end of a node does to its watermarks and to its candidates.
use dbtx.Prelude.{
  ℕ, String, Bool, true, false, ◌&&◌, ◌≡◌, refl, inl, inr, Option, none, some, List, [], ◌∷◌, ◌==◌,
  nat_eq, string_eq, if◌then◌else◌, is_some, map, where_rows, delete_rows, Bool-cases, Option-cases,
  ◌∙◌, sort_by, arith,
}
use dbtx.Source.{SourceStateEvent, SourceDb}
use dbtx.Source.Stale.{
  is_pending_event, key_first, are_all_downstream_nodes_satisfied,
  advance_source_state_status_from_watermarks, advance_each,
  advance_satisfied_source_events_from_watermarks,
}
use dbtx.Watermark.{WatermarkCandidate, CandidateRow, NodeEvent, WatermarkDb}
use dbtx.Watermark.Candidates.{of_row, is_candidate_at, load_watermark_candidates}
use dbtx.Watermark.Handle.{commit_staged, node_finished, handle_node_watermark, advance_events}
use dbtx.Watermark.Commit.{commit_node_watermarks}
use dbtx.Watermark.Raised.{watermark_at, raised, commit_by_key}

none_left :
    (q : CandidateRow → Bool) (rows : List CandidateRow) → where_rows q (delete_rows q rows) ≡ []
none_left q [] = refl
none_left q (r ∷ rows) = elim (Bool-cases (q r)) [
  | inl hit ↦ rw hit (none_left q rows)
  | inr miss ↦ rw miss (rw miss (none_left q rows))
]

not_started : {A : Type 0} (b : Bool) (x y : A) → (if b && false then x else y) ≡ y
not_started true x y = refl
not_started false x y = refl

none_left_of :
    (q : CandidateRow → Bool) (rows : List CandidateRow)
    → map of_row (where_rows q (delete_rows q rows)) ≡ []
none_left_of q rows = rw (none_left q rows) refl

module _ (now p e run : ℕ) where
  -- One turn of the loop.
  abbrev turn : SourceStateEvent → SourceDb → SourceDb
  turn ev db =
      if are_all_downstream_nodes_satisfied p e ev.source_key ev.id run db
      then advance_source_state_status_from_watermarks now p e ev.id db
      else db

  turn-watermarks :
      (ev : SourceStateEvent) (db : SourceDb) → (turn ev db).watermarks ≡ db.watermarks
  unfolding advance_source_state_status_from_watermarks
  turn-watermarks ev db =
      elim (Bool-cases (are_all_downstream_nodes_satisfied p e ev.source_key ev.id run db)) [
        | inl all ↦ rw all refl
        | inr not_all ↦ rw not_all refl
      ]

  advance_each-watermarks :
      (evs : List SourceStateEvent) (db : SourceDb)
      → (advance_each now p e run evs db).watermarks ≡ db.watermarks
  unfolding advance_each
  advance_each-watermarks [] db = refl
  advance_each-watermarks (ev ∷ rest) db =
      advance_each-watermarks rest (turn ev db) ∙ turn-watermarks ev db

  advance-watermarks :
      (keys : List String) (db : SourceDb)
      → (advance_satisfied_source_events_from_watermarks now p e keys run db).watermarks
        ≡ db.watermarks
  unfolding advance_satisfied_source_events_from_watermarks
  advance-watermarks [] db = refl
  advance-watermarks (k ∷ keys) db =
      advance_each-watermarks
        (sort_by key_first (where_rows (is_pending_event p e (k ∷ keys) db) db.events)) db

module _ (now run p e : ℕ) (invocation manifest_run : Option ℕ) (node : NodeEvent) (p' e' : ℕ)
    (u' k' : String) where
  kept_by_advance :
      (m : Option ℕ) (keys : List String) (db : WatermarkDb)
      → watermark_at p' e' u' k' (advance_events now run p e invocation manifest_run node m keys db)
        ≡ watermark_at p' e' u' k' db
  kept_by_advance none keys db = refl
  kept_by_advance (some m) keys db = rw (advance-watermarks now p e m keys db.source) refl

  -- The watermark at the key after the candidates are committed.
  abbrev pub committed : List WatermarkCandidate → WatermarkDb → Option ℕ
  committed cs db =
      if p == p' && e == e' && node.unique_id == u'
      then raised k' cs (watermark_at p' e' u' k' db)
      else watermark_at p' e' u' k' db

  commit_staged-at :
      (cs : List WatermarkCandidate) (db : WatermarkDb)
      → watermark_at p' e' u' k' (commit_staged now run p e invocation manifest_run node cs db)
        ≡ committed cs db
  commit_staged-at [] db = ground arith
  commit_staged-at (c ∷ cs) db =
      let (advanced, after) =
        commit_node_watermarks now p e node.unique_id run invocation (c ∷ cs) db in
      kept_by_advance manifest_run (map (λ (d : WatermarkCandidate). d.source_key) advanced) after
      ∙ commit_by_key now p e node.unique_id run invocation p' e' u' k' (c ∷ cs) db

  handle_finished :
      (promotable : Bool) (db : WatermarkDb)
      → is_some node.finished_at ≡ true
      → handle_node_watermark now run p e invocation manifest_run node promotable db
        ≡ node_finished now run p e invocation manifest_run node promotable db
  unfolding handle_node_watermark
  handle_finished promotable db h = elim (Option-cases node.finished_at) [
    | inl missing ↦ absurd (ground (arith, missing))
    | inr (t, found) ↦ rw found (not_started (is_some node.started_at) _ _)
  ]

  -- When a node has finished with success, the watermark of each source at the node is the largest of
  -- what it was and the candidates that were staged for the node in this run. When it has
  -- finished without, no watermark changes. The watermarks of other nodes do not change either way, and
  -- no candidate of the node stays in the run.
  pub finish_by_key :
      (promotable : Bool) (db : WatermarkDb)
      → is_some node.finished_at ≡ true
      → (watermark_at p' e' u' k'
            (handle_node_watermark now run p e invocation manifest_run node promotable db)
          ≡ (if promotable
              then committed (load_watermark_candidates run node.unique_id db.candidates) db
              else watermark_at p' e' u' k' db))
        × (load_watermark_candidates run node.unique_id
              (handle_node_watermark now run p e invocation manifest_run node promotable
                db).candidates
            ≡ [])
  finish_by_key true db h = rw (handle_finished true db h) (
    commit_staged-at (load_watermark_candidates run node.unique_id db.candidates) db,
    none_left_of (is_candidate_at run node.unique_id) _,
  )
  finish_by_key false db h =
      rw (handle_finished false db h)
        (refl, none_left_of (is_candidate_at run node.unique_id) db.candidates)
