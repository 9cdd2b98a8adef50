-- ===== src/ManifestWatermarks/Examples.antt =====
-- A catalog with one active feed and one that is retired (market_pipeline_lib/manifest_watermarks.py).
use idea2strategy_data_pipel.Prelude.{String, ◌≡◌, refl, none, some, [], ◌∷◌}
use idea2strategy_data_pipel.Prelude.Eq.{string_eq}
use idea2strategy_data_pipel.Prelude.Sort.{sorted, insert_sorted}
use idea2strategy_data_pipel.Prelude.Result.{ok}
use idea2strategy_data_pipel.Watermarks.Position.{aware, StreamPosition}
use idea2strategy_data_pipel.Watermarks.Row.{stream_watermark}
use idea2strategy_data_pipel.Watermarks.Repository.{Rows, memory_load, memory_advance, in_memory}
use idea2strategy_data_pipel.Watermarks.Ledger.{stored_position}
use idea2strategy_data_pipel.Watermarks.Heads.{AtLeast}
use idea2strategy_data_pipel.ManifestWatermarks.{
  Catalog, ManifestRow, Projection, active_feed_ids, latest_from, advance_feeds,
  advance_available_manifest_watermarks,
}
use idea2strategy_data_pipel.ManifestWatermarks.Project.{
  projection-reaches_manifests, projection-leaves_inactive, projection-idempotent,
}

abbrev manifest : ManifestRow
manifest = record {
  feed_id = "f";
  status = "AVAILABLE";
  period_end = some (aware 8);
  available_at = some (aware 9);
}

abbrev retired_manifest : ManifestRow
retired_manifest = record manifest { feed_id = "g" }

abbrev catalog : Catalog
catalog = record {
  providers = record { id = "p"; status = "ACTIVE" } ∷ [];
  feeds =
      record { id = "f"; provider_id = "p"; retired_at = none }
      ∷ record { id = "g"; provider_id = "p"; retired_at = some 2 }
      ∷ [];
  manifests = retired_manifest ∷ manifest ∷ [];
}

abbrev no_rows : Rows
no_rows = []

abbrev at_eight : StreamPosition
at_eight = record { source_event_at = 8; sequence = none }

abbrev projected : Projection
projected = record {
  active_feed_count = 1;
  advanced_feed_count = 1;
  watermarks = record { feed_id = "f"; last_source_event_at = at_eight; last_ingested_at = 9 } ∷ [];
}

abbrev rows_after : Rows
rows_after =
    ("f", record { feed_id = "f"; position = at_eight; ingested_at = 9; updated_at = some 10 }) ∷ []

projection_test :
    advance_available_manifest_watermarks in_memory catalog 10 no_rows ≡ ok (projected, rows_after)
unfolding advance_available_manifest_watermarks advance_feeds latest_from active_feed_ids
    stream_watermark memory_load memory_advance sorted insert_sorted
projection_test = refl

active_test : active_feed_ids catalog ≡ "f" ∷ []
unfolding active_feed_ids
active_test = refl

projection-reaches_manifests_example :
    AtLeast (stored_position in_memory rows_after "f") (some at_eight)
    × ((g : String)
        → AtLeast (stored_position in_memory rows_after g) (stored_position in_memory no_rows g))
projection-reaches_manifests_example =
    projection-reaches_manifests in_memory catalog 10 no_rows projected rows_after
      (retired_manifest ∷ []) manifest [] 8 projection_test refl (rw active_test refl, refl) refl

projection-leaves_inactive_example : memory_load rows_after "g" ≡ memory_load no_rows "g"
projection-leaves_inactive_example =
    projection-leaves_inactive in_memory catalog 10 no_rows projected rows_after "g" projection_test
      (rw active_test refl)

projection-idempotent_example :
    (p' : Projection) × (r'' : Rows) × (advance_available_manifest_watermarks in_memory catalog 20
        rows_after
      ≡ ok (p', r''))
    × (p'.advanced_feed_count ≡ 0)
    × ((g : String) → memory_load r'' g ≡ memory_load rows_after g)
projection-idempotent_example =
    projection-idempotent in_memory catalog 10 20 no_rows projected rows_after projection_test
