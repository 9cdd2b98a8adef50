-- ===== src/WarmupGate/Gate.antt =====
-- `WarmupReadinessGate` of market_pipeline_lib/warmup_gate.py. The texts of the details are left out.
use idea2strategy_data_pipel.Prelude.{
  ℕ, suc, ◌+◌, String, Bool, not, ◌&&◌, Option, none, some, List, [], ◌∷◌, map, filter, is_empty,
  is_none, ltb, if◌then◌else◌,
}
use idea2strategy_data_pipel.Prelude.Int.{ℤ, pos}
use idea2strategy_data_pipel.Prelude.Eq.{string_eq, ◌==◌, contains}
use idea2strategy_data_pipel.Prelude.Result.{Result, ok, err}
use idea2strategy_data_pipel.Contracts.Calendar.{Date, date_lt}
use idea2strategy_data_pipel.Watermarks.Row.{StreamWatermark}
use idea2strategy_data_pipel.WarmupGate.Coverage.{
  GateError, bad_budget, empty_feed, WarmupCoverage, granularity_beq, DatasetManifest,
  DatasetObject, WarmupBlockReason, daily_object_missing, manifest_not_available, watermark_missing,
  watermark_stale, watermark_behind_session, feature_batch_missing, feature_batch_incomplete,
  GateCatalog, Consumption, consumed, not_consumable, partial_batch,
}

-- The gate's own fields.
pub record WarmupReadinessGate : Type 0 where
  pub feed_id : String
  pub freshness_budget : ℕ

-- `__init__`, on a budget in microseconds.
unfoldable pub warmup_readiness_gate : String → ℤ → Result GateError WarmupReadinessGate
warmup_readiness_gate feed_id (pos (suc n)) =
    ok (record { feed_id = feed_id; freshness_budget = suc n })
warmup_readiness_gate feed_id _ = err bad_budget

-- `WarmupReadiness`: READY or BLOCKED with its reason, and of `observed` the covered shards.
pub record WarmupReadiness : Type 0 where
  pub session : Date
  pub feed_id : String
  pub evaluated_at : ℕ
  pub reason_code : Option WarmupBlockReason
  pub manifest_id : Option String
  pub covered_shards : Option (List String)

-- The state is BLOCKED exactly when a reason is given.
abbrev pub is_ready : WarmupReadiness → Bool
is_ready r = is_none r.reason_code

abbrev pub objects_for_manifest : String → List DatasetObject → List DatasetObject
objects_for_manifest id objects =
    filter (λ (o : DatasetObject). o.dataset_manifest_id == id) objects

abbrev pub is_available : DatasetManifest → Bool
is_available m = m.status == "AVAILABLE"

abbrev pub is_candidate : WarmupReadinessGate → WarmupCoverage → DatasetManifest → Bool
is_candidate g c m =
    (m.feed_id == g.feed_id) && (m.data_layer == c.data_layer) && (m.resolution == c.resolution)

-- `max` by revision keeps the first of equals.
abbrev pub newest_from : DatasetManifest → List DatasetManifest → DatasetManifest
newest_from best [] = best
newest_from best (m ∷ ms) =
    newest_from (if ltb best.revision_number m.revision_number then m else best) ms

abbrev pub covers_session : WarmupCoverage → DatasetObject → Bool
covers_session c o =
    not (date_lt c.session o.partition_start)
    && date_lt c.session o.partition_end
    && granularity_beq o.partition_granularity c.granularity

abbrev pub covered_by : WarmupCoverage → List DatasetObject → String → List String
covered_by c objects id =
    map (λ (o : DatasetObject). o.shard_key)
      (filter (covers_session c) (objects_for_manifest id objects))

abbrev pub missing_from : List String → List String → List String
missing_from covered required = filter (λ (s : String). not (contains covered s)) required

-- What `_check_data` returns, and what it noted of the covered shards.
pub record DataCheck : Type 0 where
  pub manifest : Option DatasetManifest
  pub block : Option WarmupBlockReason
  pub covered : Option (List String)

unfoldable pub check_manifest : WarmupCoverage → List DatasetObject → DatasetManifest → DataCheck
check_manifest c objects m =
    let covered = covered_by c objects m.id in
    record {
      manifest = some m;
      block =
          if is_empty (missing_from covered c.required_shards)
          then none
          else some daily_object_missing;
      covered = some covered;
    }

unfoldable pub check_available :
    WarmupCoverage → List DatasetObject → List DatasetManifest → DataCheck
unfolding check_manifest
check_available c objects [] = record {
  manifest = none;
  block = some manifest_not_available;
  covered = none;
}
check_available c objects (m ∷ ms) = check_manifest c objects (newest_from m ms)

unfoldable pub check_candidates :
    WarmupCoverage → List DatasetObject → List DatasetManifest → DataCheck
unfolding check_available
check_candidates c objects [] = record {
  manifest = none;
  block = some daily_object_missing;
  covered = none;
}
check_candidates c objects (m ∷ ms) = check_available c objects (filter is_available (m ∷ ms))

-- `_check_data`.
unfoldable pub check_data : WarmupReadinessGate → WarmupCoverage → GateCatalog → DataCheck
unfolding check_candidates
check_data g c catalog =
    check_candidates c catalog.objects (filter (is_candidate g c) catalog.manifests)

-- `_check_watermark` on the stored watermark of the feed.
unfoldable pub check_watermark :
    WarmupReadinessGate → WarmupCoverage → ℕ → Option StreamWatermark → Option WarmupBlockReason
check_watermark g c evaluated_at none = some watermark_missing
check_watermark g c evaluated_at (some stored) =
    if ltb (stored.ingested_at + g.freshness_budget) evaluated_at
    then some watermark_stale
    else if ltb stored.position.source_event_at c.required_watermark_at
    then some watermark_behind_session
    else none

-- `_check_features`.
unfoldable pub check_features : Option Consumption → Option WarmupBlockReason
check_features none = none
check_features (some consumed) = none
check_features (some (not_consumable never_opened)) =
    some (if never_opened then feature_batch_missing else feature_batch_incomplete)
check_features (some partial_batch) = some feature_batch_incomplete

-- The first block of the three, in the order of the checks.
abbrev pub first_block :
    Option WarmupBlockReason → Option WarmupBlockReason → Option WarmupBlockReason
first_block none later = later
first_block (some reason) later = some reason

abbrev pub manifest_id_of : Option DatasetManifest → Option String
manifest_id_of none = none
manifest_id_of (some m) = some m.id

-- `evaluate`, at the instant `now`, over the watermark and the feature batch that it is given.
unfoldable pub evaluate :
    WarmupReadinessGate
    → WarmupCoverage
    → GateCatalog
    → ℕ
    → Option StreamWatermark
    → Option Consumption
    → Result GateError WarmupReadiness
evaluate g c catalog now stored batch =
    let data_check = check_data g c catalog in
    if g.feed_id == ""
    then err empty_feed
    else ok (record {
      session = c.session;
      feed_id = g.feed_id;
      evaluated_at = now;
      reason_code =
          first_block data_check.block
            (first_block (check_watermark g c now stored) (check_features batch));
      manifest_id = manifest_id_of data_check.manifest;
      covered_shards = data_check.covered;
    })
