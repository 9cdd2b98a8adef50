-- ===== src/Features/Refusing.antt =====
-- A call of `seal` that raised leaves the batch open (market_pipeline_lib/features/snapshots.py).
use idea2strategy_data_pipel.Prelude.{
  ℕ, String, Bool, false, ◌≡◌, refl, sym, subst, Option, none, some, List, arith, inl, inr,
  Bool-cases, is_empty, if◌then◌else◌, is_some, all,
}
use idea2strategy_data_pipel.Prelude.Eq.{pair_eq, string_eq}
use idea2strategy_data_pipel.Prelude.Text.{is_blank}
use idea2strategy_data_pipel.Prelude.Result.{Result, ok, err}
use idea2strategy_data_pipel.Features.Hashing.{Encoders}
use idea2strategy_data_pipel.Features.Plan.{SnapshotBatchPlan, batch_id, unique_definition_hashes}
use idea2strategy_data_pipel.Features.Builder.{
  BatchRow, FeatureCatalog, MaterializationResult, SnapshotError, Usable, Gathered, is_sealed,
  row_of, open_batch, row_count_of, mark, pending_row,
}
use idea2strategy_data_pipel.Features.Seal.{
  seal_counted, seal_gathered, gathered_of, seal_row, seal_opened, seal_found, seal,
}
use idea2strategy_data_pipel.Features.Rows.{find_row-id, find_row-upsert_self}
use idea2strategy_data_pipel.Features.Writing.{IsOpen, pending_row-unsealed, open_batch-pending}

-- The call raised.
abbrev pub Raises : {A : Type 0} → Result SnapshotError A → Type 0
Raises r = (raised : SnapshotError) × (r ≡ err raised)

module _ {F D : Type 0} (encoders : Encoders F D) where
  mark-IsOpen :
      (status : String) (plan : SnapshotBatchPlan) (row : BatchRow) (c : FeatureCatalog)
      → row_of encoders plan c ≡ some row
      → is_sealed row ≡ false
      → IsOpen encoders plan (mark status row c)
  unfolding mark
  mark-IsOpen status plan row c found unsealed =
      elim (Bool-cases (string_eq.beq row.status status)) [
        | inl same ↦ rw same (λ r found_r. ground arith)
        | inr other ↦ rw other (λ r found_r.
            let written =
              find_row-upsert_self (batch_id encoders plan)
                (record row {
                  status = status;
                  batch_hash = none;
                  row_count = none;
                  available_at = none;
                })
                c.batches (find_row-id (batch_id encoders plan) c.batches row found) in
            ground arith)
      ]

  found-IsOpen :
      (plan : SnapshotBatchPlan) (row : BatchRow) (c : FeatureCatalog)
      → row_of encoders plan c ≡ some row
      → is_sealed row ≡ false
      → IsOpen encoders plan c
  found-IsOpen plan row c found unsealed r found_r = ground arith

  seal_counted-unchanged :
      (plan : SnapshotBatchPlan) (object_id : String) (now : ℕ) (row : BatchRow)
      (members : List Usable) (r : Result SnapshotError ℕ) (c : FeatureCatalog)
      → Raises (seal_counted encoders plan object_id now row members r c).0
      → (seal_counted encoders plan object_id now row members r c).1 ≡ c
  unfolding seal_counted
  seal_counted-unchanged plan object_id now row members (err raised) c h = refl
  seal_counted-unchanged plan object_id now row members (ok count) c (raised, h) =
      absurd ground arith

  seal_gathered-IsOpen :
      (plan : SnapshotBatchPlan) (results : List MaterializationResult) (object_id : String)
      (now : ℕ) (row : BatchRow) (g : Gathered) (c : FeatureCatalog)
      → row_of encoders plan c ≡ some row
      → is_sealed row ≡ false
      → Raises (seal_gathered encoders plan results object_id now row g c).0
      → IsOpen encoders plan (seal_gathered encoders plan results object_id now row g c).1
  unfolding seal_gathered
  seal_gathered-IsOpen plan results object_id now row g c found unsealed h =
      elim (Bool-cases (is_empty g.missing)) [
        | inl none_missing ↦ rw none_missing (
            subst (IsOpen encoders plan)
              (sym (
                seal_counted-unchanged plan object_id now row g.members
                  (row_count_of g.members results) c (rw none_missing at h)))
              (found-IsOpen plan row c found unsealed))
        | inr some_missing ↦
            rw some_missing
              (mark-IsOpen (if g.failed then "FAILED" else "PENDING") plan row c found unsealed)
      ]

  seal_row-IsOpen :
      (plan : SnapshotBatchPlan) (results : List MaterializationResult) (object_id : String)
      (now : ℕ) (row : BatchRow) (c : FeatureCatalog)
      → row_of encoders plan c ≡ some row
      → is_sealed row ≡ false
      → Raises (seal_row encoders plan results object_id now (some row) c).0
      → IsOpen encoders plan (seal_row encoders plan results object_id now (some row) c).1
  unfolding seal_row
  seal_row-IsOpen plan results object_id now row c found unsealed h = rw unsealed (
      seal_gathered-IsOpen plan results object_id now row (gathered_of encoders plan c) c found
        unsealed (rw unsealed at h))

  module _ (definition : String → Bool) (parse_uuid : String → Option String) where
    seal_opened-IsOpen :
        (plan : SnapshotBatchPlan) (results : List MaterializationResult) (object_id : String)
        (now : ℕ) (opened : Result SnapshotError String × FeatureCatalog) (row : BatchRow)
        → ((id : String) → opened.0 ≡ ok id → row_of encoders plan opened.1 ≡ some row)
        → (Raises opened.0 → IsOpen encoders plan opened.1)
        → is_sealed row ≡ false
        → Raises (seal_opened encoders definition parse_uuid plan results object_id now opened).0
        → IsOpen encoders plan
            (seal_opened encoders definition parse_uuid plan results object_id now opened).1
    unfolding seal_opened
    seal_opened-IsOpen plan results object_id now (err raised, c) row found raises unsealed h =
        raises (raised, refl)
    seal_opened-IsOpen plan results object_id now (ok id, c) row found raises unsealed h =
        rw (found id refl) (
          seal_row-IsOpen plan results object_id now row c (found id refl) unsealed
            (rw (found id refl) at h))

    open_batch-Raises :
        (plan : SnapshotBatchPlan) (now : ℕ) (c : FeatureCatalog)
        → row_of encoders plan c ≡ none
        → Raises (open_batch encoders definition plan now c).0
        → IsOpen encoders plan (open_batch encoders definition plan now c).1
    unfolding open_batch
    open_batch-Raises plan now c absent (raised, h) =
        elim (Bool-cases (all definition (unique_definition_hashes plan))) [
          | inr unpublished ↦ rw unpublished (λ row found. absurd ground (arith, absent))
          | inl published ↦ absurd ground (arith, published, absent)
        ]

    seal_found-IsOpen :
        (plan : SnapshotBatchPlan) (results : List MaterializationResult) (object_id : String)
        (now : ℕ) (o : Option BatchRow) (c : FeatureCatalog)
        → row_of encoders plan c ≡ o
        → IsOpen encoders plan c
        → Raises (seal_found encoders definition parse_uuid plan results object_id now o c).0
        → IsOpen encoders plan
            (seal_found encoders definition parse_uuid plan results object_id now o c).1
    unfolding seal_found
    seal_found-IsOpen plan results object_id now (some row) c found is_open h =
        seal_row-IsOpen plan results object_id now row c found (is_open row found) h
    seal_found-IsOpen plan results object_id now none c absent is_open h =
        seal_opened-IsOpen plan results object_id now (open_batch encoders definition plan now c)
          (pending_row encoders plan now)
          (λ id is_ok. (open_batch-pending encoders definition plan now c id absent is_ok).0)
          (open_batch-Raises plan now c absent) (pending_row-unsealed encoders plan now) h

    pub seal-IsOpen :
        (plan : SnapshotBatchPlan) (results : List MaterializationResult) (object_id : String)
        (now : ℕ) (c : FeatureCatalog)
        → IsOpen encoders plan c
        → Raises (seal encoders definition parse_uuid plan results object_id now c).0
        → IsOpen encoders plan (seal encoders definition parse_uuid plan results object_id now c).1
    unfolding seal
    seal-IsOpen plan results object_id now c is_open h = elim (Bool-cases (is_blank object_id)) [
      | inl blank ↦ rw blank is_open
      | inr named ↦ elim (Bool-cases (is_some (parse_uuid object_id))) [
        | inr fails ↦ rw (named, fails) is_open
        | inl parses ↦
            rw (named, parses)
              (seal_found-IsOpen plan results object_id now (row_of encoders plan c) c refl is_open
                (rw (named, parses) at h))
      ]
    ]
