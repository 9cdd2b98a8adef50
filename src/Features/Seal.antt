-- ===== src/Features/Seal.antt =====
-- `seal` and `consume` of market_pipeline_lib/features/snapshots.py. An exception leaves behind what was
-- written before it, so a call is its outcome and the catalog.
use idea2strategy_data_pipel.Prelude.{
  ℕ, String, Bool, Option, none, some, List, [], if◌then◌else◌, length, is_some, is_empty,
}
use idea2strategy_data_pipel.Prelude.Text.{is_blank}
use idea2strategy_data_pipel.Prelude.Result.{Result, ok, err}
use idea2strategy_data_pipel.Features.Hashing.{Encoders, iso_utc}
use idea2strategy_data_pipel.Features.Plan.{
  SnapshotBatchPlan, expected_members, feature_set_hash, input_market_set_hash, batch_id,
}
use idea2strategy_data_pipel.Features.Builder.{
  BatchRow, FeatureCatalog, MaterializationResult, SealedSnapshotBatch, SnapshotError, no_object,
  not_a_uuid, never_opened, not_sealed, members_missing, upsert, by_id, Usable, Gathered,
  row_count_of, is_sealed, mark, sealed_from_row, batch_hash_of, pending_row, row_of, gather,
  open_batch,
}

module _ {F D : Type 0} (encoders : Encoders F D) where
  -- The row of a batch that has been sealed over a row that was open.
  unfoldable pub sealed_row : SnapshotBatchPlan → String → List Usable → ℕ → ℕ → BatchRow → BatchRow
  sealed_row plan object_id members row_count now row = record (pending_row encoders plan now) {
    snapshot_object_id = some object_id;
    batch_hash = some (batch_hash_of encoders plan members);
    row_count = some row_count;
    status = "SUCCEEDED";
    available_at = some (iso_utc encoders now);
    created_at = if is_blank row.created_at then iso_utc encoders now else row.created_at;
  }

  unfoldable pub sealed_batch : SnapshotBatchPlan → String → List Usable → ℕ → SealedSnapshotBatch
  sealed_batch plan object_id members row_count = record {
    id = batch_id encoders plan;
    feature_set_hash = feature_set_hash encoders plan;
    input_market_set_hash = input_market_set_hash encoders plan;
    batch_hash = batch_hash_of encoders plan members;
    period_start = plan.period_start;
    period_end = plan.period_end;
    source_start_watermark = plan.source_start_watermark;
    source_end_watermark = plan.source_end_watermark;
    member_count = length members;
    row_count = row_count;
    snapshot_object_id = object_id;
    status = "SUCCEEDED";
  }

  -- `seal` behind the count of the rows.
  unfoldable pub seal_counted :
      SnapshotBatchPlan
      → String
      → ℕ
      → BatchRow
      → List Usable
      → Result SnapshotError ℕ
      → FeatureCatalog
      → Result SnapshotError SealedSnapshotBatch × FeatureCatalog
  seal_counted plan object_id now row members (err raised) catalog = (err raised, catalog)
  seal_counted plan object_id now row members (ok row_count) catalog = (
    ok (sealed_batch plan object_id members row_count),
    record catalog {
      batches = upsert (sealed_row plan object_id members row_count now row) catalog.batches;
    },
  )

  -- `seal` behind the loop over the planned members.
  unfoldable pub seal_gathered :
      SnapshotBatchPlan
      → List MaterializationResult
      → String
      → ℕ
      → BatchRow
      → Gathered
      → FeatureCatalog
      → Result SnapshotError SealedSnapshotBatch × FeatureCatalog
  seal_gathered plan results object_id now row gathered catalog =
      if is_empty gathered.missing
      then seal_counted plan object_id now row gathered.members
          (row_count_of gathered.members results) catalog
      else (
        err (members_missing gathered.missing),
        mark (if gathered.failed then "FAILED" else "PENDING") row catalog,
      )

  -- What the loop over the planned members finds in the catalog.
  unfoldable pub gathered_of : SnapshotBatchPlan → FeatureCatalog → Gathered
  gathered_of plan catalog =
      gather encoders plan (by_id [] catalog.materializations) (expected_members plan)

  -- `seal` behind the reading of the batch's row.
  unfoldable pub seal_row :
      SnapshotBatchPlan
      → List MaterializationResult
      → String
      → ℕ
      → Option BatchRow
      → FeatureCatalog
      → Result SnapshotError SealedSnapshotBatch × FeatureCatalog
  seal_row plan results object_id now none catalog = (err never_opened, catalog)
  seal_row plan results object_id now (some row) catalog =
      if is_sealed row
      then (sealed_from_row plan row, catalog)
      else seal_gathered plan results object_id now row (gathered_of plan catalog) catalog

  -- `consume`.
  unfoldable pub consume_row :
      SnapshotBatchPlan → Option BatchRow → Result SnapshotError SealedSnapshotBatch
  consume_row plan none = err never_opened
  consume_row plan (some row) = if is_sealed row then sealed_from_row plan row else err not_sealed

  unfoldable pub consume :
      SnapshotBatchPlan → FeatureCatalog → Result SnapshotError SealedSnapshotBatch
  consume plan catalog = consume_row plan (row_of encoders plan catalog)

  module _ (definition : String → Bool) (parse_uuid : String → Option String) where
    -- `seal` behind the call of `open`.
    unfoldable pub seal_opened :
        SnapshotBatchPlan
        → List MaterializationResult
        → String
        → ℕ
        → Result SnapshotError String × FeatureCatalog
        → Result SnapshotError SealedSnapshotBatch × FeatureCatalog
    seal_opened plan results object_id now (err raised, catalog) = (err raised, catalog)
    seal_opened plan results object_id now (ok _, catalog) =
        seal_row plan results object_id now (row_of encoders plan catalog) catalog

    -- `seal` behind the first reading of the batch's row.
    unfoldable pub seal_found :
        SnapshotBatchPlan
        → List MaterializationResult
        → String
        → ℕ
        → Option BatchRow
        → FeatureCatalog
        → Result SnapshotError SealedSnapshotBatch × FeatureCatalog
    seal_found plan results object_id now (some row) catalog =
        seal_row plan results object_id now (some row) catalog
    seal_found plan results object_id now none catalog =
        seal_opened plan results object_id now (open_batch encoders definition plan now catalog)

    unfoldable pub seal :
        SnapshotBatchPlan
        → List MaterializationResult
        → String
        → ℕ
        → FeatureCatalog
        → Result SnapshotError SealedSnapshotBatch × FeatureCatalog
    seal plan results object_id now catalog =
        if is_blank object_id
        then (err no_object, catalog)
        else if is_some (parse_uuid object_id)
        then seal_found plan results object_id now (row_of encoders plan catalog) catalog
        else (err not_a_uuid, catalog)
