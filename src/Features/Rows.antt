-- ===== src/Features/Rows.antt =====
-- The rows of the batch table under the calls of the builder
-- (market_pipeline_lib/features/snapshots.py).
use idea2strategy_data_pipel.Prelude.{
  ℕ, String, Bool, true, false, ◌≡◌, refl, sym, subst, Option, none, some, List, [], ◌∷◌, arith,
  inl, inr, if◌then◌else◌, Bool-cases, Option-cases, all, is_empty, is_some,
}
use idea2strategy_data_pipel.Prelude.Eq.{string_eq}
use idea2strategy_data_pipel.Prelude.Text.{is_blank}
use idea2strategy_data_pipel.Prelude.Result.{Result, ok, err}
use idea2strategy_data_pipel.Features.Hashing.{Encoders}
use idea2strategy_data_pipel.Features.Plan.{SnapshotBatchPlan, batch_id, unique_definition_hashes}
use idea2strategy_data_pipel.Features.Builder.{
  BatchRow, FeatureCatalog, MaterializationResult, SnapshotError, upsert, find_row, is_sealed, mark,
  pending_row, row_of, open_batch, Usable, Gathered, row_count_of,
}
use idea2strategy_data_pipel.Features.Seal.{
  sealed_row, seal_counted, seal_gathered, gathered_of, seal_row, seal_opened, seal_found, seal,
}

pub find_row-upsert :
    (id : String) (r : BatchRow) (rows : List BatchRow)
    → find_row id (upsert r rows) ≡ (if string_eq.beq r.id id then some r else find_row id rows)
find_row-upsert id r [] = refl
find_row-upsert id r (row ∷ rows) = ground (
  arith,
  string_eq.beq_iff row.id r.id,
  string_eq.beq_iff row.id id,
  string_eq.beq_iff r.id id,
  find_row-upsert id r rows,
)

pub find_row-upsert_self :
    (id : String) (r : BatchRow) (rows : List BatchRow)
    → r.id ≡ id
    → find_row id (upsert r rows) ≡ some r
find_row-upsert_self id r rows h =
    ground (arith, string_eq.beq_iff r.id id, find_row-upsert id r rows)

pub find_row-id :
    (id : String) (rows : List BatchRow) (row : BatchRow)
    → find_row id rows ≡ some row
    → row.id ≡ id
find_row-id id [] row h = absurd ground arith
find_row-id id (r ∷ rows) row h = ground (arith, string_eq.beq_iff r.id id, find_row-id id rows row)

-- A sealed row that the table has under an id is there afterwards.
abbrev pub KeepsSealed : FeatureCatalog → FeatureCatalog → Type 0
KeepsSealed c c' =
    (id : String) (row : BatchRow)
    → find_row id c.batches ≡ some row
    → is_sealed row ≡ true
    → find_row id c'.batches ≡ some row

pub KeepsSealed-trans :
    (c d e : FeatureCatalog) → KeepsSealed c d → KeepsSealed d e → KeepsSealed c e
KeepsSealed-trans c d e k l id row found is_done = l id row (k id row found is_done) is_done

-- Writing a row keeps the sealed ones where the id has no row, or one that is not sealed.
upsert-KeepsSealed :
    (c : FeatureCatalog) (r : BatchRow)
    → ((row : BatchRow) → find_row r.id c.batches ≡ some row → is_sealed row ≡ false)
    → KeepsSealed c (record c { batches = upsert r c.batches })
upsert-KeepsSealed c r unsealed id row found is_done = elim (Bool-cases (string_eq.beq r.id id)) [
  | inl same ↦
      let e : id ≡ r.id = sym ((string_eq.beq_iff r.id id).0 same) in
      absurd ground (arith, unsealed row (subst (λ j. find_row j c.batches ≡ some row) e found))
  | inr other ↦ ground (arith, find_row-upsert id r c.batches)
]

mark-KeepsSealed :
    (status id : String) (row : BatchRow) (c : FeatureCatalog)
    → find_row id c.batches ≡ some row
    → is_sealed row ≡ false
    → KeepsSealed c (mark status row c)
unfolding mark
mark-KeepsSealed status id row c found unsealed =
    elim (Bool-cases (string_eq.beq row.status status)) [
      | inl same ↦ rw same (λ _ _ found _. found)
      | inr other ↦ rw other (
          upsert-KeepsSealed c
            (record row {
              status = status;
              batch_hash = none;
              row_count = none;
              available_at = none;
            })
            (λ r found_r.
              let e : row.id ≡ id = find_row-id id c.batches row found in
              ground (arith, subst (λ j. find_row j c.batches ≡ some r) e found_r)))
    ]

module _ {F D : Type 0} (encoders : Encoders F D) where
  pub pending_row-id :
      (plan : SnapshotBatchPlan) (now : ℕ)
      → (pending_row encoders plan now).id ≡ batch_id encoders plan
  unfolding pending_row
  pending_row-id plan now = refl

  pub sealed_row-id :
      (plan : SnapshotBatchPlan) (object_id : String) (members : List Usable) (count now : ℕ)
      (row : BatchRow)
      → (sealed_row encoders plan object_id members count now row).id ≡ batch_id encoders plan
  unfolding sealed_row
  sealed_row-id plan object_id members count now row = pending_row-id plan now

  seal_counted-KeepsSealed :
      (plan : SnapshotBatchPlan) (object_id : String) (now : ℕ) (row : BatchRow)
      (members : List Usable) (r : Result SnapshotError ℕ) (c : FeatureCatalog)
      → row_of encoders plan c ≡ some row
      → is_sealed row ≡ false
      → KeepsSealed c (seal_counted encoders plan object_id now row members r c).1
  unfolding seal_counted
  seal_counted-KeepsSealed plan object_id now row members (err raised) c found unsealed =
      λ _ _ found _. found
  seal_counted-KeepsSealed plan object_id now row members (ok count) c found unsealed =
      let e = sealed_row-id plan object_id members count now row in
      upsert-KeepsSealed c (sealed_row encoders plan object_id members count now row)
        (λ r found_r. ground (arith, subst (λ j. find_row j c.batches ≡ some r) e found_r))

  seal_gathered-KeepsSealed :
      (plan : SnapshotBatchPlan) (results : List MaterializationResult) (object_id : String)
      (now : ℕ) (row : BatchRow) (gathered : Gathered) (c : FeatureCatalog)
      → row_of encoders plan c ≡ some row
      → is_sealed row ≡ false
      → KeepsSealed c (seal_gathered encoders plan results object_id now row gathered c).1
  unfolding seal_gathered
  seal_gathered-KeepsSealed plan results object_id now row gathered c found unsealed =
      elim (Bool-cases (is_empty gathered.missing)) [
        | inl none_missing ↦ rw none_missing (
            seal_counted-KeepsSealed plan object_id now row gathered.members
              (row_count_of gathered.members results) c found unsealed)
        | inr some_missing ↦ rw some_missing (
            mark-KeepsSealed (if gathered.failed then "FAILED" else "PENDING")
              (batch_id encoders plan) row c found unsealed)
      ]

  seal_row-KeepsSealed :
      (plan : SnapshotBatchPlan) (results : List MaterializationResult) (object_id : String)
      (now : ℕ) (o : Option BatchRow) (c : FeatureCatalog)
      → row_of encoders plan c ≡ o
      → KeepsSealed c (seal_row encoders plan results object_id now o c).1
  unfolding seal_row
  seal_row-KeepsSealed plan results object_id now none c found = λ _ _ found _. found
  seal_row-KeepsSealed plan results object_id now (some row) c found =
      elim (Bool-cases (is_sealed row)) [
        | inl is_done ↦ rw is_done (λ _ _ found _. found)
        | inr unsealed ↦ rw unsealed (
            seal_gathered-KeepsSealed plan results object_id now row (gathered_of encoders plan c) c
              found unsealed)
      ]

  module _ (definition : String → Bool) where
    pub open_batch-KeepsSealed :
        (plan : SnapshotBatchPlan) (now : ℕ) (c : FeatureCatalog)
        → KeepsSealed c (open_batch encoders definition plan now c).1
    unfolding open_batch
    open_batch-KeepsSealed plan now c =
        elim (Bool-cases (all definition (unique_definition_hashes plan))) [
          | inr unpublished ↦ rw unpublished (λ _ _ found _. found)
          | inl published ↦ elim (Option-cases (row_of encoders plan c)) [
            | inr (row, there) ↦ rw (published, there) (λ _ _ found _. found)
            | inl absent ↦
                rw (published, absent)
                  (upsert-KeepsSealed c (pending_row encoders plan now) (λ r found_r.
                    absurd ground (
                      arith,
                      absent,
                      subst (λ j. find_row j c.batches ≡ some r) (pending_row-id plan now) found_r,
                    )))
          ]
        ]

    module _ (parse_uuid : String → Option String) where
      seal_opened-KeepsSealed :
          (plan : SnapshotBatchPlan) (results : List MaterializationResult) (object_id : String)
          (now : ℕ) (opened : Result SnapshotError String × FeatureCatalog)
          → KeepsSealed opened.1
              (seal_opened encoders definition parse_uuid plan results object_id now opened).1
      unfolding seal_opened
      seal_opened-KeepsSealed plan results object_id now (err raised, c) = λ _ _ found _. found
      seal_opened-KeepsSealed plan results object_id now (ok _, c) =
          seal_row-KeepsSealed plan results object_id now (row_of encoders plan c) c refl

      seal_found-KeepsSealed :
          (plan : SnapshotBatchPlan) (results : List MaterializationResult) (object_id : String)
          (now : ℕ) (o : Option BatchRow) (c : FeatureCatalog)
          → row_of encoders plan c ≡ o
          → KeepsSealed c
              (seal_found encoders definition parse_uuid plan results object_id now o c).1
      unfolding seal_found
      seal_found-KeepsSealed plan results object_id now (some row) c found =
          seal_row-KeepsSealed plan results object_id now (some row) c found
      seal_found-KeepsSealed plan results object_id now none c found =
          KeepsSealed-trans c (open_batch encoders definition plan now c).1
            (seal_opened encoders definition parse_uuid plan results object_id now
              (open_batch encoders definition plan now c)).1
            (open_batch-KeepsSealed plan now c)
            (seal_opened-KeepsSealed plan results object_id now
              (open_batch encoders definition plan now c))

      pub seal-KeepsSealed :
          (plan : SnapshotBatchPlan) (results : List MaterializationResult) (object_id : String)
          (now : ℕ) (c : FeatureCatalog)
          → KeepsSealed c (seal encoders definition parse_uuid plan results object_id now c).1
      unfolding seal
      seal-KeepsSealed plan results object_id now c = elim (Bool-cases (is_blank object_id)) [
        | inl blank ↦ rw blank (λ _ _ found _. found)
        | inr named ↦ elim (Bool-cases (is_some (parse_uuid object_id))) [
          | inl parses ↦
              rw (named, parses)
                (seal_found-KeepsSealed plan results object_id now (row_of encoders plan c) c refl)
          | inr fails ↦ rw (named, fails) (λ _ _ found _. found)
        ]
      ]
