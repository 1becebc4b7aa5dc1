-- ===== src/Source/Examples.antt =====
-- A source with two events and two models in a cycle below it, and the theorems of the source modules
-- there.
use dbtx.Prelude.{
  ℕ, String, true, false, ◌&&◌, not, ◌≡◌, ◌↔◌, refl, sym, ◌∙◌, inl, inr, none, some, [], ◌∷◌,
  contains, Elem, arith, string_eq,
}
use dbtx.Source.{
  SourceStateEvent, ManifestNode, ManifestEdge, NodeAncestorSource, NodeSourceWatermark, SourceDb,
}
use dbtx.Source.Events.{is_event_of, is_unsatisfied}
use dbtx.Source.Downstream.{edges_of, is_node_not_source, list_downstream_manifest_node_unique_ids}
use dbtx.Source.Closing.{IsDownstream, below_is_exact}
use dbtx.Source.Stale.{
  list_stale_downstream_nodes, are_all_downstream_nodes_satisfied,
  advance_satisfied_source_events_from_watermarks,
}
use dbtx.Source.Staleness.{none_stale-iff-all_satisfied}
use dbtx.Source.Advance.{advance_settles}

abbrev pub event : ℕ → SourceStateEvent
event i = record {
  id = i;
  project_id = 1;
  environment_id = some 2;
  source_key = "source.s";
  provider = "webhook";
  state_version = none;
  payload = "{}";
  observed_at = i;
  created_at = i;
}

abbrev pub node : ℕ → String → String → String → ManifestNode
node run u t c = record {
  run_id = run;
  unique_id = u;
  resource_type = some t;
  name = none;
  original_file_path = none;
  checksum = some c;
  database_name = none;
  schema_name = none;
  alias = none;
  relation_name = none;
}

abbrev pub edge : ℕ → String → String → ManifestEdge
edge run u v = record { run_id = run; parent_unique_id = u; child_unique_id = v }

abbrev pub ancestor : String → NodeAncestorSource
ancestor u = record { run_id = 7; unique_id = u; source_key = "source.s" }

abbrev pub watermark : String → ℕ → NodeSourceWatermark
watermark u i = record {
  project_id = 1;
  environment_id = 2;
  unique_id = u;
  source_key = "source.s";
  watermark_event_id = i;
  watermark_observed_at = none;
  run_id = 7;
  updated_at = 9;
}

abbrev pub source_db : SourceDb
source_db = record {
  events = event 4 ∷ event 5 ∷ [];
  statuses = [];
  manifest_nodes =
      node 7 "model.a" "model" "new"
      ∷ node 7 "model.b" "model" "same"
      ∷ node 7 "source.s" "source" "same"
      ∷ node 6 "model.a" "model" "old"
      ∷ node 6 "model.b" "model" "same"
      ∷ [];
  manifest_edges = edge 7 "source.s" "model.a" ∷ edge 7 "model.a" "model.b" ∷ [];
  ancestor_sources = ancestor "model.a" ∷ ancestor "model.b" ∷ ancestor "source.s" ∷ [];
  watermarks = watermark "model.a" 5 ∷ watermark "model.b" 4 ∷ [];
}

primary_key :
    (a b : SourceStateEvent)
    → Elem a source_db.events
    → Elem b source_db.events
    → a.id ≡ b.id
    → a ≡ b
primary_key a b (inl e) (inl e') h = e ∙ sym e'
primary_key a b (inl e) (inr (inl e')) h = absurd (ground arith)
primary_key a b (inl e) (inr (inr none')) h = absurd none'
primary_key a b (inr (inl e)) (inl e') h = absurd (ground arith)
primary_key a b (inr (inl e)) (inr (inl e')) h = e ∙ sym e'
primary_key a b (inr (inl e)) (inr (inr none')) h = absurd none'
primary_key a b (inr (inr none')) m h = absurd none'

below_is_exact_example :
    Elem "model.b" (list_downstream_manifest_node_unique_ids 7 ("source.s" ∷ []) source_db) ↔ (
      IsDownstream (edges_of 7 source_db.manifest_edges) ("source.s" ∷ []) "model.b"
      × (is_node_not_source source_db.manifest_nodes 7 "model.b" ≡ true))
below_is_exact_example = below_is_exact 7 ("source.s" ∷ []) source_db "model.b"

only_5 :
    (ev : SourceStateEvent)
    → Elem ev (event 5 ∷ [])
    → Elem ev source_db.events × (is_event_of 1 2 ev ≡ true)
only_5 ev (inl e) = (inr (inl e), rw e refl)
only_5 ev (inr none') = absurd none'

none_stale-iff-all_satisfied_example :
    (list_stale_downstream_nodes 1 2 ("source.s" ∷ []) (5 ∷ []) 7 source_db ≡ []) ↔ (
      (ev : SourceStateEvent)
      → Elem ev (event 5 ∷ [])
      → are_all_downstream_nodes_satisfied 1 2 ev.source_key ev.id 7 source_db ≡ true)
none_stale-iff-all_satisfied_example =
    none_stale-iff-all_satisfied 1 2 7 source_db (event 5) [] refl only_5 primary_key

advance_settles_example :
    is_unsatisfied
      (advance_satisfied_source_events_from_watermarks 9 1 2 ("source.s" ∷ []) 7 source_db).statuses
      (event 4)
    ≡ (true
        && not (
            contains {A = String} "source.s" ("source.s" ∷ [])
            && are_all_downstream_nodes_satisfied 1 2 "source.s" 4 7 source_db))
advance_settles_example =
    advance_settles 9 1 2 7 ("source.s" ∷ []) source_db (event 4) (inl refl) refl primary_key

-- The event that both models have reached becomes satisfied, the other one does not.
advance_4_5 :
    (is_unsatisfied
        (advance_satisfied_source_events_from_watermarks 9 1 2
          ("source.s" ∷ [])
          7
          source_db).statuses
        (event 4)
      ≡ false)
    × (is_unsatisfied
          (advance_satisfied_source_events_from_watermarks 9 1 2
            ("source.s" ∷ [])
            7
            source_db).statuses
          (event 5)
        ≡ true)
unfolding advance_satisfied_source_events_from_watermarks
advance_4_5 = (refl, refl)
