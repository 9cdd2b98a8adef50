-- ===== src/WarmupGate/Examples.antt =====
-- A gate over two manifests of one feed (market_pipeline_lib/warmup_gate.py).
use idea2strategy_data_pipel.Prelude.{
  ℕ, String, if◌then◌else◌, ◌≡◌, inl, inr, none, some, [], ◌∷◌, refl, sym, arith,
}
use idea2strategy_data_pipel.Prelude.Eq.{string_eq}
use idea2strategy_data_pipel.Prelude.Result.{ok}
use idea2strategy_data_pipel.Contracts.Calendar.{Date, add_days, next_day, days_in_month}
use idea2strategy_data_pipel.Contracts.Partition.{day, partition_bounds}
use idea2strategy_data_pipel.Watermarks.Row.{StreamWatermark}
use idea2strategy_data_pipel.WarmupGate.Coverage.{
  WarmupCoverage, DatasetManifest, DatasetObject, daily_object_missing, IncidentRow, GateCatalog,
  consumed,
}
use idea2strategy_data_pipel.WarmupGate.Gate.{
  WarmupReadinessGate, WarmupReadiness, check_data, check_candidates, check_available,
  check_manifest, check_watermark, check_features, evaluate,
}
use idea2strategy_data_pipel.WarmupGate.Recording.{
  quarantine, quarantined, with_manifests, reported, incident_for, record_verdict, Texts, row_id,
  to_db_row, record_quality_incident, blocked_shards,
}
use idea2strategy_data_pipel.Prelude.Text.{decimal, digits_from}
use idea2strategy_data_pipel.Prelude.Dict.{lookup, keys}
use idea2strategy_data_pipel.WarmupGate.Verdict.{IsJustified, evaluate-IsJustified}
use idea2strategy_data_pipel.WarmupGate.Hidden.{
  IsStrictlyNewest, evaluate-reads_newest_only, status_of, record_verdict-quarantines,
}

abbrev gate : WarmupReadinessGate
gate = record { feed_id = "f"; freshness_budget = 5 }

abbrev coverage : WarmupCoverage
coverage = record {
  data_layer = "raw";
  resolution = "1min";
  session = record { year = 2025; month = 3; day = 4 };
  granularity = day;
  required_shards = "s0" ∷ [];
  required_watermark_at = 90;
}

abbrev this_year : DatasetManifest
this_year = record {
  id = "m25";
  feed_id = "f";
  data_layer = "raw";
  resolution = "1min";
  status = "AVAILABLE";
  revision_number = 1;
}

-- The manifest of the year before, which was published again.
abbrev last_year : DatasetManifest
last_year = record this_year { id = "m24"; revision_number = 2 }

abbrev session_object : DatasetObject
session_object = record {
  dataset_manifest_id = "m25";
  shard_key = "s0";
  partition_start = record { year = 2025; month = 3; day = 4 };
  partition_end = record { year = 2025; month = 3; day = 5 };
  partition_granularity = day;
}

abbrev watermark : StreamWatermark
watermark = record {
  feed_id = "f";
  position = record { source_event_at = 95; sequence = none };
  ingested_at = 98;
  updated_at = none;
}

abbrev one_year : GateCatalog
one_year = record { manifests = this_year ∷ []; objects = session_object ∷ []; incidents = [] }

abbrev two_years : GateCatalog
two_years = record one_year { manifests = this_year ∷ last_year ∷ [] }

abbrev ready : WarmupReadiness
ready = record {
  session = coverage.session;
  feed_id = "f";
  evaluated_at = 100;
  reason_code = none;
  manifest_id = some "m25";
  covered_shards = some ("s0" ∷ []);
}

abbrev blocked : WarmupReadiness
blocked = record ready {
  reason_code = some daily_object_missing;
  manifest_id = some "m24";
  covered_shards = some [];
}

ready_test : evaluate gate coverage one_year 100 (some watermark) (some consumed) ≡ ok ready
unfolding evaluate check_data check_candidates check_available check_manifest check_watermark
    check_features
ready_test = refl

evaluate-IsJustified_example :
    IsJustified gate coverage one_year 100 (some watermark) (some consumed) ready
evaluate-IsJustified_example =
    evaluate-IsJustified gate coverage one_year 100 (some watermark) (some consumed) ready
      ready_test refl

-- With the manifest of the year before beside it, the same session is blocked.
blocked_test : evaluate gate coverage two_years 100 (some watermark) (some consumed) ≡ ok blocked
unfolding evaluate check_data check_candidates check_available check_manifest check_watermark
    check_features
blocked_test = refl

last_year-IsStrictlyNewest : IsStrictlyNewest gate coverage two_years.manifests last_year
last_year-IsStrictlyNewest = record {
  listed = inr (inl refl);
  candidate = refl;
  available = refl;
  above = λ m h is_one is_open. elim h [
    | inl first ↦ inr (rw (← first) (omega arith))
    | inr later ↦ elim later [ inl second ↦ inl (sym second) | inr nothing ↦ absurd nothing ]
  ];
}

evaluate-reads_newest_only_example :
    (r : WarmupReadiness) × (evaluate gate coverage two_years 100 (some watermark) (some consumed)
      ≡ ok r)
    × (r.reason_code ≡ some daily_object_missing)
    × (r.manifest_id ≡ some "m24")
evaluate-reads_newest_only_example =
    evaluate-reads_newest_only gate coverage two_years 100 (some watermark) (some consumed)
      last_year "s0" refl last_year-IsStrictlyNewest refl refl

abbrev midnight : Date → ℕ
midnight d = d.day

abbrev texts : Texts
texts = record { uuid5 = λ s. s; iso_utc = λ t. decimal t; date_text = λ d. decimal d.day }

abbrev after : GateCatalog
after = (record_verdict texts midnight blocked coverage two_years).1

abbrev incident_id : String
incident_id = "quality-incident|m24|D90_DAILY_OBJECT_MISSING|PARTITION|None|s0|4|5|4|5|None"

record_test :
    record_verdict texts midnight blocked coverage two_years ≡ (ok (some incident_id), after)
unfolding record_verdict quarantined with_manifests quarantine reported record_quality_incident
    to_db_row row_id incident_for blocked_shards decimal digits_from partition_bounds add_days
    next_day days_in_month
record_test = refl

-- The same block recorded again.
record_again_test :
    keys
      (record_verdict texts midnight
        (record blocked { evaluated_at = 101 })
        coverage
        after).1.incidents
    ≡ incident_id ∷ []
unfolding record_verdict quarantined with_manifests quarantine reported record_quality_incident
    to_db_row row_id incident_for blocked_shards decimal digits_from partition_bounds add_days
    next_day days_in_month
record_again_test = refl

record_verdict-quarantines_example :
    (status_of "m24" after.manifests ≡ some "QUARANTINED")
    × ((row : IncidentRow) × (some incident_id ≡ some row.id)
        × (row.id
            ≡ row_id texts (some "m24") (
                incident_for midnight
                  (record blocked { evaluated_at = 101 })
                  coverage
                  daily_object_missing))
        × (row.incident_code ≡ daily_object_missing)
        × (row.dataset_manifest_id ≡ some "m24")
        × (lookup "other" after.incidents
            ≡ (if string_eq.beq row.id "other" then some row else none))
        × (keys after.incidents ≡ row.id ∷ []))
record_verdict-quarantines_example =
    record_verdict-quarantines texts midnight blocked coverage two_years daily_object_missing "m24"
      (some incident_id) after "m24" "other" 101 record_test refl refl
