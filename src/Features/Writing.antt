-- ===== src/Features/Writing.antt =====
-- What a call of `seal` that returned has written (market_pipeline_lib/features/snapshots.py).
use idea2strategy_data_pipel.Prelude.{
  ℕ, String, Bool, true, false, ◌≡◌, refl, ap, subst, Option, none, some, List, [], arith, inl, inr,
  Bool-cases, is_empty, is_some, all,
}
use idea2strategy_data_pipel.Prelude.Eq.{pair_eq, string_eq}
use idea2strategy_data_pipel.Prelude.Text.{is_blank}
use idea2strategy_data_pipel.Prelude.Result.{Result, ok, err}
use idea2strategy_data_pipel.Features.Hashing.{Encoders}
use idea2strategy_data_pipel.Features.Plan.{
  SnapshotBatchPlan, batch_id, expected_members, unique_definition_hashes,
}
use idea2strategy_data_pipel.Features.Builder.{
  BatchRow, FeatureCatalog, MaterializationResult, SealedSnapshotBatch, SnapshotError, Usable,
  Gathered, by_id, gather, is_sealed, row_of, open_batch, row_count_of, pending_row,
}
use idea2strategy_data_pipel.Features.Seal.{
  sealed_row, sealed_batch, seal_counted, seal_gathered, gathered_of, seal_row, seal_opened,
  seal_found, seal,
}
use idea2strategy_data_pipel.Features.Rows.{find_row-upsert_self, pending_row-id, sealed_row-id}

module _ {F D : Type 0} (encoders : Encoders F D) where
  -- The batch that a call returned, and the row that it left under the id of the plan.
  unfoldable pub Writes :
      SnapshotBatchPlan
      → List Usable
      → List MaterializationResult
      → SealedSnapshotBatch
      → FeatureCatalog
      → Type 0
  Writes plan members results b c' =
      (object_id : String) × (count : ℕ) × (now : ℕ) × (row : BatchRow) × (row_count_of members
          results
        ≡ ok count)
      × (b ≡ sealed_batch encoders plan object_id members count)
      × (row_of encoders plan c' ≡ some (sealed_row encoders plan object_id members count now row))

  seal_counted-Writes :
      (plan : SnapshotBatchPlan) (object_id : String) (now : ℕ) (row : BatchRow)
      (members : List Usable) (results : List MaterializationResult) (r : Result SnapshotError ℕ)
      (c : FeatureCatalog) (b : SealedSnapshotBatch)
      → row_count_of members results ≡ r
      → (seal_counted encoders plan object_id now row members r c).0 ≡ ok b
      → Writes plan members results b (seal_counted encoders plan object_id now row members r c).1
  unfolding seal_counted Writes
  seal_counted-Writes plan object_id now row members results (err raised) c b counted h =
      absurd ground arith
  seal_counted-Writes plan object_id now row members results (ok count) c b counted h = (
    object_id,
    count,
    now,
    row,
    counted,
    cc,
    find_row-upsert_self (batch_id encoders plan)
        (sealed_row encoders plan object_id members count now row) c.batches
        (sealed_row-id encoders plan object_id members count now row),
  )

  -- The call found no member missing, and wrote.
  abbrev pub Seals :
      SnapshotBatchPlan
      → List MaterializationResult
      → SealedSnapshotBatch
      → Gathered
      → FeatureCatalog
      → Type 0
  Seals plan results b g c' = (is_empty g.missing ≡ true) × Writes plan g.members results b c'

  seal_gathered-writes :
      (plan : SnapshotBatchPlan) (results : List MaterializationResult) (object_id : String)
      (now : ℕ) (row : BatchRow) (g : Gathered) (c : FeatureCatalog) (b : SealedSnapshotBatch)
      → (seal_gathered encoders plan results object_id now row g c).0 ≡ ok b
      → Seals plan results b g (seal_gathered encoders plan results object_id now row g c).1
  unfolding seal_gathered
  seal_gathered-writes plan results object_id now row g c b h =
      elim (Bool-cases (is_empty g.missing)) [
        | inr some_missing ↦ absurd ground (arith, some_missing)
        | inl none_missing ↦ (
          none_missing,
          rw none_missing (
              seal_counted-Writes plan object_id now row g.members results
                (row_count_of g.members results) c b refl (rw none_missing at h)),
        )
      ]

  seal_row-writes :
      (plan : SnapshotBatchPlan) (results : List MaterializationResult) (object_id : String)
      (now : ℕ) (row : BatchRow) (c : FeatureCatalog) (b : SealedSnapshotBatch)
      → is_sealed row ≡ false
      → (seal_row encoders plan results object_id now (some row) c).0 ≡ ok b
      → Seals plan results b
          (gathered_of encoders plan c)
          (seal_row encoders plan results object_id now (some row) c).1
  unfolding seal_row
  seal_row-writes plan results object_id now row c b unsealed h = rw unsealed (
      seal_gathered-writes plan results object_id now row (gathered_of encoders plan c) c b
        (rw unsealed at h))

  -- The batch of the plan is not sealed.
  abbrev pub IsOpen : SnapshotBatchPlan → FeatureCatalog → Type 0
  IsOpen plan c = (row : BatchRow) → row_of encoders plan c ≡ some row → is_sealed row ≡ false

  gathered_of-materializations :
      (plan : SnapshotBatchPlan) (c d : FeatureCatalog)
      → c.materializations ≡ d.materializations
      → gathered_of encoders plan c ≡ gathered_of encoders plan d
  unfolding gathered_of
  gathered_of-materializations plan c d h =
      ap (λ rows. gather encoders plan (by_id [] rows) (expected_members plan)) h

  pub pending_row-unsealed :
      (plan : SnapshotBatchPlan) (now : ℕ) → is_sealed (pending_row encoders plan now) ≡ false
  unfolding pending_row
  pending_row-unsealed plan now = refl

  module _ (definition : String → Bool) where
    pub open_batch-pending :
        (plan : SnapshotBatchPlan) (now : ℕ) (c : FeatureCatalog) (id : String)
        → row_of encoders plan c ≡ none
        → (open_batch encoders definition plan now c).0 ≡ ok id
        → (row_of encoders plan (open_batch encoders definition plan now c).1
            ≡ some (pending_row encoders plan now))
          × ((open_batch encoders definition plan now c).1.materializations ≡ c.materializations)
    unfolding open_batch
    open_batch-pending plan now c id absent h =
        elim (Bool-cases (all definition (unique_definition_hashes plan))) [
          | inr unpublished ↦ absurd ground (arith, unpublished)
          | inl published ↦
              rw (published, absent)
                (
                  find_row-upsert_self (batch_id encoders plan) (pending_row encoders plan now)
                      c.batches (pending_row-id encoders plan now),
                  refl,
                )
        ]

    module _ (parse_uuid : String → Option String) where
      seal_opened-writes :
          (plan : SnapshotBatchPlan) (results : List MaterializationResult) (object_id : String)
          (now : ℕ) (opened : Result SnapshotError String × FeatureCatalog) (row : BatchRow)
          (b : SealedSnapshotBatch)
          → ((id : String) → opened.0 ≡ ok id → row_of encoders plan opened.1 ≡ some row)
          → is_sealed row ≡ false
          → (seal_opened encoders definition parse_uuid plan results object_id now opened).0 ≡ ok b
          → ((id : String) × (opened.0 ≡ ok id))
            × Seals plan results b
                (gathered_of encoders plan opened.1)
                (seal_opened encoders definition parse_uuid plan results object_id now opened).1
      unfolding seal_opened
      seal_opened-writes plan results object_id now (err raised, c) row b found unsealed h =
          absurd ground arith
      seal_opened-writes plan results object_id now (ok id, c) row b found unsealed h = (
        (id, refl),
        rw (found id refl)
            (seal_row-writes plan results object_id now row c b unsealed (rw (found id refl) at h)),
      )

      seal_found-writes :
          (plan : SnapshotBatchPlan) (results : List MaterializationResult) (object_id : String)
          (now : ℕ) (o : Option BatchRow) (c : FeatureCatalog) (b : SealedSnapshotBatch)
          → row_of encoders plan c ≡ o
          → IsOpen plan c
          → (seal_found encoders definition parse_uuid plan results object_id now o c).0 ≡ ok b
          → Seals plan results b
              (gathered_of encoders plan c)
              (seal_found encoders definition parse_uuid plan results object_id now o c).1
      unfolding seal_found
      seal_found-writes plan results object_id now (some row) c b found is_open h =
          seal_row-writes plan results object_id now row c b (is_open row found) h
      seal_found-writes plan results object_id now none c b absent is_open h =
          let opened = open_batch encoders definition plan now c in
          let ((id, is_ok), writes) =
            seal_opened-writes plan results object_id now opened (pending_row encoders plan now) b
              (λ id is_ok. (open_batch-pending plan now c id absent is_ok).0)
              (pending_row-unsealed plan now) h in
          subst
            (λ g.
              Seals plan results b g
                (seal_opened encoders definition parse_uuid plan results object_id now opened).1)
            (gathered_of-materializations plan opened.1 c
              (open_batch-pending plan now c id absent is_ok).1)
            writes

      pub seal-writes :
          (plan : SnapshotBatchPlan) (results : List MaterializationResult) (object_id : String)
          (now : ℕ) (c : FeatureCatalog) (b : SealedSnapshotBatch)
          → IsOpen plan c
          → (seal encoders definition parse_uuid plan results object_id now c).0 ≡ ok b
          → Seals plan results b
              (gathered_of encoders plan c)
              (seal encoders definition parse_uuid plan results object_id now c).1
      unfolding seal
      seal-writes plan results object_id now c b is_open h =
          elim (Bool-cases (is_blank object_id)) [
            | inl blank ↦ absurd ground (arith, blank)
            | inr named ↦ elim (Bool-cases (is_some (parse_uuid object_id))) [
              | inr fails ↦ absurd ground (arith, named, fails)
              | inl parses ↦
                  rw (named, parses)
                    (seal_found-writes plan results object_id now (row_of encoders plan c) c b refl
                      is_open (rw (named, parses) at h))
            ]
          ]
