-- ===== src/WarmupGate/Coverage.antt =====
-- `WarmupCoverage` of market_pipeline_lib/warmup_gate.py, and the rows that the gate reads.
use idea2strategy_data_pipel.Prelude.{
  ℕ, String, Bool, true, false, not, ◌&&◌, Option, List, length, is_empty, ltb, leb,
  ◌==◌ as nat_beq, if◌then◌else◌,
}
use idea2strategy_data_pipel.Prelude.Eq.{string_eq, distinct}
use idea2strategy_data_pipel.Prelude.Dict.{Dict}
use idea2strategy_data_pipel.Prelude.Result.{Result, ok, err}
use idea2strategy_data_pipel.Contracts.Calendar.{Date}
use idea2strategy_data_pipel.Contracts.Partition.{
  Granularity, day, week, month, year, partition_bounds,
}
use idea2strategy_data_pipel.Watermarks.Position.{DateTime, naive, aware}

-- The causes of a `ValueError`, and the `LookupError` of a manifest that vanished.
pub data GateError : Type 0 where
  no_required_shards duplicate_shards not_timezone_aware outside_partition bad_budget empty_feed :
      GateError
  manifest_vanished : GateError

pub record WarmupCoverage : Type 0 where
  pub data_layer : String
  pub resolution : String
  pub session : Date
  pub granularity : Granularity
  pub required_shards : List String
  pub required_watermark_at : ℕ

abbrev pub granularity_beq : Granularity → Granularity → Bool
granularity_beq day g = elim g [ day ↦ true | _ ↦ false ]
granularity_beq week g = elim g [ week ↦ true | _ ↦ false ]
granularity_beq month g = elim g [ month ↦ true | _ ↦ false ]
granularity_beq year g = elim g [ year ↦ true | _ ↦ false ]

-- `bounds`, and `period` with the UTC instant of midnight in New York as an argument.
abbrev pub bounds : WarmupCoverage → Date × Date
bounds c = partition_bounds c.session c.granularity

abbrev pub period : (Date → ℕ) → WarmupCoverage → ℕ × ℕ
period midnight_et c = let (start, end) = bounds c in (midnight_et start, midnight_et end)

within_period : (Date → ℕ) → WarmupCoverage → Result GateError WarmupCoverage
within_period midnight_et c =
    let (lower, upper) = period midnight_et c in
    if leb lower c.required_watermark_at && ltb c.required_watermark_at upper
    then ok c
    else err outside_partition

covering_until :
    (Date → ℕ)
    → String
    → String
    → Date
    → Granularity
    → List String
    → DateTime
    → Result GateError WarmupCoverage
unfolding within_period
covering_until midnight_et layer resolution session granularity shards (naive t) =
    err not_timezone_aware
covering_until midnight_et layer resolution session granularity shards (aware t) =
    within_period midnight_et (record {
      data_layer = layer;
      resolution = resolution;
      session = session;
      granularity = granularity;
      required_shards = shards;
      required_watermark_at = t;
    })

-- `WarmupCoverage(...)` with its `__post_init__`.
unfoldable pub warmup_coverage :
    (Date → ℕ)
    → String
    → String
    → Date
    → Granularity
    → List String
    → DateTime
    → Result GateError WarmupCoverage
unfolding covering_until
warmup_coverage midnight_et layer resolution session granularity shards moment =
    if is_empty shards
    then err no_required_shards
    else if not (nat_beq (length (distinct shards)) (length shards))
    then err duplicate_shards
    else covering_until midnight_et layer resolution session granularity shards moment

-- The columns of `market_data.dataset_manifests` and of a manifest's objects that the gate reads.
pub record DatasetManifest : Type 0 where
  pub id : String
  pub feed_id : String
  pub data_layer : String
  pub resolution : String
  pub status : String
  pub revision_number : ℕ

pub record DatasetObject : Type 0 where
  pub dataset_manifest_id : String
  pub shard_key : String
  pub partition_start : Date
  pub partition_end : Date
  pub partition_granularity : Granularity

-- `WarmupBlockReason`.
pub data WarmupBlockReason : Type 0 where
  daily_object_missing manifest_not_available : WarmupBlockReason
  watermark_missing watermark_stale watermark_behind_session : WarmupBlockReason
  feature_batch_missing feature_batch_incomplete : WarmupBlockReason

-- The scope of a `QualityIncident` that the gate writes: one partition of one shard, or the manifest.
pub data IncidentScope : Type 0 where
  manifest_wide : IncidentScope
  partition : String → Date → Date → IncidentScope

-- The incident, with the period of its scope.
pub record QualityIncident : Type 0 where
  pub incident_code : WarmupBlockReason
  pub scope : IncidentScope
  pub period_start : ℕ
  pub period_end : ℕ
  pub detected_at : ℕ

-- The columns of `market_data.quality_incidents` that the gate does not leave constant.
pub record IncidentRow : Type 0 where
  pub id : String
  pub dataset_manifest_id : Option String
  pub incident_code : WarmupBlockReason
  pub period_start : ℕ
  pub period_end : ℕ
  pub detected_at : ℕ

-- The incidents are keyed by their id.
pub record GateCatalog : Type 0 where
  pub manifests : List DatasetManifest
  pub objects : List DatasetObject
  pub incidents : Dict String IncidentRow

-- What `consume` of the feature batch does: it returns, or raises `SnapshotBatchNotConsumable`, here with
-- whether its message says that the batch was never opened, or raises `PartialSnapshotBatch`.
pub data Consumption : Type 0 where
  consumed : Consumption
  not_consumable : Bool → Consumption
  partial_batch : Consumption
