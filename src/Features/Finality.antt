-- ===== src/Features/Finality.antt =====
-- A sealed batch stays what it is (market_pipeline_lib/features/snapshots.py).
use idea2strategy_data_pipel.Prelude.{
  ℕ, String, Bool, true, ◌≡◌, refl, Option, none, some, List, [], ◌∷◌, arith, inl, inr, Bool-cases,
}
use idea2strategy_data_pipel.Prelude.Result.{ok}
use idea2strategy_data_pipel.Features.Hashing.{Encoders}
use idea2strategy_data_pipel.Features.Plan.{SnapshotBatchPlan, batch_id}
use idea2strategy_data_pipel.Features.Builder.{
  BatchRow, FeatureCatalog, MaterializationResult, Materialization, SealedSnapshotBatch, is_sealed,
  row_of, open_batch, sealed_from_row,
}
use idea2strategy_data_pipel.Features.Seal.{consume_row, consume, seal}
use idea2strategy_data_pipel.Features.Rows.{
  KeepsSealed, KeepsSealed-trans, open_batch-KeepsSealed, seal-KeepsSealed,
}

-- What may happen to the tables: a call of the builder, for any plan, or a change of the
-- materializations, whatever it is.
pub data Event : Type 0 where
  opens : SnapshotBatchPlan → ℕ → Event
  seals : SnapshotBatchPlan → List MaterializationResult → String → ℕ → Event
  materializes : List Materialization → Event

module _ {F D : Type 0} (encoders : Encoders F D) where
  pub consume_row-sealed :
      (plan : SnapshotBatchPlan) (o : Option BatchRow) (b : SealedSnapshotBatch)
      → consume_row encoders plan o ≡ ok b
      → (row : BatchRow) × (o ≡ some row)
        × (is_sealed row ≡ true)
        × (sealed_from_row plan row ≡ ok b)
  unfolding consume_row
  consume_row-sealed plan none b h = absurd ground arith
  consume_row-sealed plan (some row) b h = elim (Bool-cases (is_sealed row)) [
    | inl is_done ↦ (row, refl, is_done, rw is_done at h)
    | inr unsealed ↦ absurd ground arith
  ]

  pub sealed-consume_row :
      (plan : SnapshotBatchPlan) (row : BatchRow)
      → is_sealed row ≡ true
      → consume_row encoders plan (some row) ≡ sealed_from_row plan row
  unfolding consume_row
  sealed-consume_row plan row is_done = rw is_done refl

  KeepsSealed-consume :
      (plan : SnapshotBatchPlan) (c c' : FeatureCatalog) (b : SealedSnapshotBatch)
      → KeepsSealed c c'
      → consume encoders plan c ≡ ok b
      → consume encoders plan c' ≡ ok b
  unfolding consume
  KeepsSealed-consume plan c c' b keeps h =
      let (row, found, is_done, same) = consume_row-sealed plan (row_of encoders plan c) b h in
      rw (keeps (batch_id encoders plan) row found is_done, sealed-consume_row plan row is_done)
        same

  module _ (definition : String → Bool) (parse_uuid : String → Option String) where
    unfoldable pub happens : Event → FeatureCatalog → FeatureCatalog
    happens (opens plan now) c = (open_batch encoders definition plan now c).1
    happens (seals plan results object_id now) c =
        (seal encoders definition parse_uuid plan results object_id now c).1
    happens (materializes rows) c = record c { materializations = rows }

    unfoldable pub happen : List Event → FeatureCatalog → FeatureCatalog
    happen [] c = c
    happen (e ∷ events) c = happen events (happens e c)

    happens-KeepsSealed : (e : Event) (c : FeatureCatalog) → KeepsSealed c (happens e c)
    unfolding happens
    happens-KeepsSealed (opens plan now) c = open_batch-KeepsSealed encoders definition plan now c
    happens-KeepsSealed (seals plan results object_id now) c =
        seal-KeepsSealed encoders definition parse_uuid plan results object_id now c
    happens-KeepsSealed (materializes rows) c = λ _ _ found _. found

    happen-KeepsSealed :
        (events : List Event) (c : FeatureCatalog) → KeepsSealed c (happen events c)
    unfolding happen
    happen-KeepsSealed [] c = λ _ _ found _. found
    happen-KeepsSealed (e ∷ events) c =
        KeepsSealed-trans c (happens e c) (happen events (happens e c)) (happens-KeepsSealed e c)
          (happen-KeepsSealed events (happens e c))

    -- A batch that can be consumed is consumed as the same batch after whatever calls of `open` and `seal`,
    -- for its plan or others, successful or not, and whatever becomes of the materializations.
    pub consume-final :
        (plan : SnapshotBatchPlan) (events : List Event) (c : FeatureCatalog)
        (b : SealedSnapshotBatch)
        → consume encoders plan c ≡ ok b
        → consume encoders plan (happen events c) ≡ ok b
    consume-final plan events c b =
        KeepsSealed-consume plan c (happen events c) b (happen-KeepsSealed events c)
