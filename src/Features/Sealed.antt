-- ===== src/Features/Sealed.antt =====
-- `seal` and `consume` together (market_pipeline_lib/features/snapshots.py).
use idea2strategy_data_pipel.Prelude.{
  ℕ, ◌<◌, String, Bool, true, ◌≡◌, refl, sym, ◌∙◌, ap, subst, Option, some, List, [], ◌∷◌, arith,
  inl, inr, ◌⊎◌, Bool-cases, Option-cases, is_empty, length, All, any, is_some,
}
use idea2strategy_data_pipel.Prelude.Eq.{pair_eq, string_eq}
use idea2strategy_data_pipel.Prelude.Dict.{has}
use idea2strategy_data_pipel.Prelude.Text.{is_blank}
use idea2strategy_data_pipel.Prelude.Result.{Result, ok, Result-cases}
use idea2strategy_data_pipel.Features.Hashing.{Encoders}
use idea2strategy_data_pipel.Features.Plan.{
  SnapshotBatchPlan, Member, expected_members, expected_member_count,
}
use idea2strategy_data_pipel.Features.Builder.{
  BatchRow, FeatureCatalog, MaterializationResult, SealedSnapshotBatch, SnapshotError, Usable,
  by_id, is_sealed, row_of, sealed_from_row, expected_results, pending_row,
}
use idea2strategy_data_pipel.Features.Seal.{
  sealed_row, sealed_batch, gathered_of, seal_row, seal_found, seal, consume_row, consume,
}
use idea2strategy_data_pipel.Features.Sealing.{
  IsUsable, gather_complete, members_of, length-members_of, length-expected_members,
}
use idea2strategy_data_pipel.Features.Counting.{
  Key, key_of, result_key, expected_results-All, row_count_of-supplied,
}
use idea2strategy_data_pipel.Features.Finality.{consume_row-sealed, sealed-consume_row}
use idea2strategy_data_pipel.Features.Writing.{IsOpen, Writes, Seals, seal-writes}
use idea2strategy_data_pipel.Features.Refusing.{seal-IsOpen}

ok-injective :
    (a b : SealedSnapshotBatch)
    → ◌≡◌ {A = Result SnapshotError SealedSnapshotBatch} (ok a) (ok b)
    → a ≡ b
ok-injective a b h = cc

module _ {F D : Type 0} (encoders : Encoders F D) (plan : SnapshotBatchPlan) where
  -- What `seal` found when it wrote a batch `b`: the members, all of them usable, and their rows.
  pub record IsComplete (results : List MaterializationResult) (c : FeatureCatalog)
      (b : SealedSnapshotBatch) : Type 0 where
    pub usable : All (IsUsable encoders plan (by_id [] c.materializations)) (expected_members plan)
    pub supplied :
        All
          (λ (m : Member). any (λ r. pair_eq.beq (result_key r) (key_of m)) results ≡ true)
          (expected_members plan)
    pub has_rows : 0 < b.row_count
    pub counts_all : b.member_count ≡ expected_member_count plan

  All-supplied :
      (members : List Usable) (results : List MaterializationResult) (planned : List Member)
      → ((k : Key)
          → has k (expected_results [] members) ≡ true
          → any (λ r. pair_eq.beq (result_key r) k) results ≡ true)
      → All (λ (m : Member). has (key_of m) (expected_results [] members) ≡ true) planned
      → All
          (λ (m : Member). any (λ r. pair_eq.beq (result_key r) (key_of m)) results ≡ true)
          planned
  All-supplied members results [] supplied keyed = tt
  All-supplied members results (m ∷ planned) supplied keyed =
      (supplied (key_of m) keyed.0, All-supplied members results planned supplied keyed.1)

  gathered_of_complete :
      (c : FeatureCatalog)
      → is_empty (gathered_of encoders plan c).missing ≡ true
      → All (IsUsable encoders plan (by_id [] c.materializations)) (expected_members plan)
        × (members_of (gathered_of encoders plan c).members ≡ expected_members plan)
  unfolding gathered_of
  gathered_of_complete c h =
      gather_complete encoders plan (by_id [] c.materializations) (expected_members plan) h

  count-gathered :
      (members : List Usable)
      → members_of members ≡ expected_members plan
      → length members ≡ expected_member_count plan
  count-gathered members h =
      sym (length-members_of members) ∙ ap length h ∙ length-expected_members plan

  pub sealed_batch-counts :
      (object_id : String) (members : List Usable) (count : ℕ)
      → ((sealed_batch encoders plan object_id members count).member_count ≡ length members)
        × ((sealed_batch encoders plan object_id members count).row_count ≡ count)
  unfolding sealed_batch
  sealed_batch-counts object_id members count = (refl, refl)

  Seals-IsComplete :
      (results : List MaterializationResult) (c c' : FeatureCatalog) (b : SealedSnapshotBatch)
      → Seals encoders plan results b (gathered_of encoders plan c) c'
      → IsComplete results c b
  unfolding Writes
  Seals-IsComplete results c c' b
        (none_missing, (object_id, count, now, row, counted, is_batch, written)) =
      let members = (gathered_of encoders plan c).members in
      let (usable, same) = gathered_of_complete c none_missing in
      let (positive, supplied) = row_count_of-supplied members results count counted in
      let (member_count, row_count) = sealed_batch-counts object_id members count in
      record {
        usable = usable;
        supplied = All-supplied members results (expected_members plan) supplied (
            subst (All (λ m. has (key_of m) (expected_results [] members) ≡ true)) same
              (expected_results-All members []));
        has_rows =
            subst (λ n. 0 < n)
              (sym (ap (λ (x : SealedSnapshotBatch). x.row_count) is_batch ∙ row_count)) positive;
        counts_all =
            ap (λ (x : SealedSnapshotBatch). x.member_count) is_batch
            ∙ member_count
            ∙ count-gathered members same;
      }

  sealed_row-sealed :
      (object_id : String) (members : List Usable) (count now : ℕ) (row : BatchRow)
      → is_sealed (sealed_row encoders plan object_id members count now row) ≡ true
  unfolding sealed_row
  sealed_row-sealed object_id members count now row = refl

  sealed_from_row-sealed_row :
      (object_id : String) (members : List Usable) (count now : ℕ) (row : BatchRow)
      → length members ≡ expected_member_count plan
      → sealed_from_row plan (sealed_row encoders plan object_id members count now row)
        ≡ ok (sealed_batch encoders plan object_id members count)
  unfolding sealed_from_row sealed_row sealed_batch pending_row
  sealed_from_row-sealed_row object_id members count now row h = rw h refl

  Seals-consume :
      (results : List MaterializationResult) (c c' : FeatureCatalog) (b : SealedSnapshotBatch)
      → Seals encoders plan results b (gathered_of encoders plan c) c'
      → consume encoders plan c' ≡ ok b
  unfolding Writes consume
  Seals-consume results c c' b
        (none_missing, (object_id, count, now, row, counted, is_batch, written)) =
      let members = (gathered_of encoders plan c).members in
      let (usable, same) = gathered_of_complete c none_missing in
      ap (consume_row encoders plan) written
      ∙ sealed-consume_row encoders plan (sealed_row encoders plan object_id members count now row)
          (sealed_row-sealed object_id members count now row)
      ∙ sealed_from_row-sealed_row object_id members count now row (count-gathered members same)
      ∙ ap ok (sym is_batch)

  IsOpen-consume :
      (c : FeatureCatalog) (b : SealedSnapshotBatch)
      → IsOpen encoders plan c
      → consume encoders plan c ≡ ok b
      → ⊥
  unfolding consume
  IsOpen-consume c b is_open h =
      let (row, found, is_done, same) =
        consume_row-sealed encoders plan (row_of encoders plan c) b h in
      ground (arith, is_open row found)

  IsOpen-or_sealed :
      (c : FeatureCatalog)
      → IsOpen encoders plan c
        ⊎ ((row : BatchRow) × (row_of encoders plan c ≡ some row) × (is_sealed row ≡ true))
  IsOpen-or_sealed c = elim (Option-cases (row_of encoders plan c)) [
    | inl absent ↦ inl (λ row found. absurd ground (arith, absent))
    | inr (row, found) ↦ elim (Bool-cases (is_sealed row)) [
      | inl is_done ↦ inr (row, found, is_done)
      | inr unsealed ↦ inl (λ r found_r. ground (arith, found))
    ]
  ]

  module _ (definition : String → Bool) (parse_uuid : String → Option String) where
    -- A batch that was not sealed before a call of `seal` and can be consumed after it is complete: every
    -- planned member has a SUCCEEDED materialization with a result hash, one of the supplied results at
    -- least is that member's, the batch counts all members, and it has rows.
    pub consume-IsComplete :
        (results : List MaterializationResult) (object_id : String) (now : ℕ) (c : FeatureCatalog)
        (b : SealedSnapshotBatch)
        → IsOpen encoders plan c
        → consume encoders plan (seal encoders definition parse_uuid plan results object_id now c).1
          ≡ ok b
        → IsComplete results c b
    consume-IsComplete results object_id now c b is_open h =
        elim (Result-cases (seal encoders definition parse_uuid plan results object_id now c).0) [
          | inr raises ↦ absurd (
              IsOpen-consume (seal encoders definition parse_uuid plan results object_id now c).1 b
                (seal-IsOpen encoders definition parse_uuid plan results object_id now c is_open
                  raises)
                h)
          | inl (sealed, returns) ↦
              let after = (seal encoders definition parse_uuid plan results object_id now c).1 in
              let writes =
                seal-writes encoders definition parse_uuid plan results object_id now c sealed
                  is_open returns in
              subst (IsComplete results c)
                (ok-injective sealed b (sym (Seals-consume results c after sealed writes) ∙ h))
                (Seals-IsComplete results c after sealed writes)
        ]

    seal_found-sealed :
        (results : List MaterializationResult) (object_id : String) (now : ℕ) (row : BatchRow)
        (c : FeatureCatalog) (b : SealedSnapshotBatch)
        → row_of encoders plan c ≡ some row
        → is_sealed row ≡ true
        → (seal_found encoders definition parse_uuid plan results object_id now (some row) c).0
          ≡ ok b
        → consume encoders plan
            (seal_found encoders definition parse_uuid plan results object_id now (some row) c).1
          ≡ ok b
    unfolding seal_found seal_row consume
    seal_found-sealed results object_id now row c b found is_done h = rw is_done (
        ap (consume_row encoders plan) found
        ∙ sealed-consume_row encoders plan row is_done
        ∙ (rw is_done at h))

    seal-sealed :
        (results : List MaterializationResult) (object_id : String) (now : ℕ) (row : BatchRow)
        (c : FeatureCatalog) (b : SealedSnapshotBatch)
        → row_of encoders plan c ≡ some row
        → is_sealed row ≡ true
        → (seal encoders definition parse_uuid plan results object_id now c).0 ≡ ok b
        → consume encoders plan (seal encoders definition parse_uuid plan results object_id now c).1
          ≡ ok b
    unfolding seal
    seal-sealed results object_id now row c b found is_done h =
        elim (Bool-cases (is_blank object_id)) [
          | inl blank ↦ absurd ground (arith, blank)
          | inr named ↦ elim (Bool-cases (is_some (parse_uuid object_id))) [
            | inr fails ↦ absurd ground (arith, named, fails)
            | inl parses ↦
                rw (named, parses, found)
                  (seal_found-sealed results object_id now row c b found is_done
                    (rw (named, parses, found) at h))
          ]
        ]

    pub seal-consume :
        (results : List MaterializationResult) (object_id : String) (now : ℕ) (c : FeatureCatalog)
        (b : SealedSnapshotBatch)
        → (seal encoders definition parse_uuid plan results object_id now c).0 ≡ ok b
        → consume encoders plan (seal encoders definition parse_uuid plan results object_id now c).1
          ≡ ok b
    seal-consume results object_id now c b h = elim (IsOpen-or_sealed c) [
      | inl is_open ↦
          Seals-consume results c
            (seal encoders definition parse_uuid plan results object_id now c).1 b
            (seal-writes encoders definition parse_uuid plan results object_id now c b is_open h)
      | inr (row, found, is_done) ↦ seal-sealed results object_id now row c b found is_done h
    ]
