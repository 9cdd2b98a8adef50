-- ===== src/Features/Accepted.antt =====
-- The document of a batch that `seal` returned before the validator
-- (market_pipeline_lib/features/snapshots.py and validation.py).
use idea2strategy_data_pipel.Prelude.{
  ℕ, ◌<◌, String, Bool, true, false, ◌≡◌, refl, sym, ◌∙◌, ap, subst, Option, List, [], ◌∷◌, arith,
  length, is_empty, Bool-cases, all, ◌*◌,
}
use idea2strategy_data_pipel.Prelude.Eq.{string_eq, distinct}
use idea2strategy_data_pipel.Prelude.Sort.{text_lt, sorted, length-sorted}
use idea2strategy_data_pipel.Prelude.Result.{ok}
use idea2strategy_data_pipel.RealtimeIngest.Json.{Fields}
use idea2strategy_data_pipel.Features.Hashing.{
  Encoders, iso_utc, is_sha256_hex, canonical_sha256, is_batch,
}
use idea2strategy_data_pipel.Features.Plan.{
  MarketInput, SnapshotBatchPlan, unique_definition_hashes, expected_member_count, feature_set_hash,
  input_market_set_hash,
}
use idea2strategy_data_pipel.Features.Builder.{
  FeatureCatalog, MaterializationResult, SealedSnapshotBatch, batch_hash_of, Usable,
}
use idea2strategy_data_pipel.Features.Seal.{sealed_batch, seal, gathered_of}
use idea2strategy_data_pipel.Features.Document.{validate, to_document, ends_in_z}
use idea2strategy_data_pipel.Features.Plan.{snapshot_batch_plan}
use idea2strategy_data_pipel.Features.Coherent.{IsCoherent, IsCoherent-accepted}
use idea2strategy_data_pipel.Features.Writing.{IsOpen, Writes, seal-writes}
use idea2strategy_data_pipel.Features.Sealed.{sealed_batch-counts, consume-IsComplete, seal-consume}

distinct-positive : (xs : List String) → is_empty xs ≡ false → 0 < length (distinct xs)
distinct-positive [] h = absurd ground arith
distinct-positive (x ∷ []) h = ground arith
distinct-positive (x ∷ y ∷ xs) h = ground (arith, distinct-positive (y ∷ xs) refl)

length-positive : (xs : List MarketInput) → is_empty xs ≡ false → 0 < length xs
length-positive [] h = absurd ground arith
length-positive (x ∷ xs) h = ground arith

product-positive : (n m : ℕ) → 0 < n → 0 < m → 0 < n * m
product-positive n m h k = grind arith

plan-members :
    (plan : SnapshotBatchPlan)
    → snapshot_batch_plan plan ≡ ok plan
    → (is_empty plan.definition_hashes ≡ false) × (is_empty plan.market_inputs ≡ false)
unfolding snapshot_batch_plan
plan-members plan h = ground (
  arith,
  Bool-cases (is_empty plan.definition_hashes),
  Bool-cases (all is_sha256_hex plan.definition_hashes),
  Bool-cases (is_empty plan.market_inputs),
)

expected_member_count-positive :
    (plan : SnapshotBatchPlan) → snapshot_batch_plan plan ≡ ok plan → 0 < expected_member_count plan
unfolding expected_member_count unique_definition_hashes
expected_member_count-positive plan h =
    let (hashes, inputs) = plan-members plan h in
    product-positive (length (sorted text_lt (distinct plan.definition_hashes)))
      (length plan.market_inputs)
      (subst (λ n. 0 < n) (sym (length-sorted text_lt (distinct plan.definition_hashes)))
        (distinct-positive plan.definition_hashes hashes))
      (length-positive plan.market_inputs inputs)

-- The texts that SHA-256 and `isoformat` give.
pub record IsEncoding {F D : Type 0} (encoders : Encoders F D) : Type 0 where
  pub digest : (s : String) → is_sha256_hex (encoders.sha256 s) ≡ true
  pub utc : (t : ℕ) → ends_in_z (encoders.isoformat t) ≡ true

module _ {F D : Type 0} (encoders : Encoders F D) (plan : SnapshotBatchPlan) where
  sealed_batch-IsCoherent :
      (object_id : String) (members : List Usable) (count : ℕ)
      → IsEncoding encoders
      → text_lt (iso_utc encoders plan.period_start) (iso_utc encoders plan.period_end) ≡ true
      → 0 < count
      → 0 < length members
      → IsCoherent encoders (sealed_batch encoders plan object_id members count)
  unfolding sealed_batch feature_set_hash input_market_set_hash batch_hash_of canonical_sha256
  sealed_batch-IsCoherent object_id members count s ordered rows counts = record {
    identity = s.digest _;
    inputs = s.digest _;
    result = s.digest _;
    start_utc = s.utc plan.period_start;
    end_utc = s.utc plan.period_end;
    has_period = ordered;
    has_rows = rows;
    has_members = counts;
    has_succeeded = refl;
  }

  module _ (definition : String → Bool) (parse_uuid : String → Option String) where
    -- The document of the batch that `seal` made of an open one is accepted by the validator, where SHA-256
    -- gives digests, instants are rendered with a final Z and the two ends of the period in their order:
    -- it is rendered without an error, and every check of it passes.
    pub seal-accepted :
        (results : List MaterializationResult) (object_id : String) (now : ℕ) (c : FeatureCatalog)
        (b : SealedSnapshotBatch)
        → IsEncoding encoders
        → snapshot_batch_plan plan ≡ ok plan
        → text_lt (iso_utc encoders plan.period_start) (iso_utc encoders plan.period_end) ≡ true
        → IsOpen encoders plan c
        → (seal encoders definition parse_uuid plan results object_id now c).0 ≡ ok b
        → (document : Fields F D) × (to_document encoders b ≡ ok document)
          × ((validate document).decision ≡ "ACCEPTED")
    unfolding Writes
    seal-accepted results object_id now c b s planned ordered is_open h =
        let complete =
          consume-IsComplete encoders plan definition parse_uuid results object_id now c b is_open
            (seal-consume encoders plan definition parse_uuid results object_id now c b h) in
        let (_, (object, count, at, row, counted, is_batch, written)) =
          seal-writes encoders definition parse_uuid plan results object_id now c b is_open h in
        let members = (gathered_of encoders plan c).members in
        let (member_count, row_count) = sealed_batch-counts encoders plan object members count in
        let coherent =
          sealed_batch-IsCoherent object members count s ordered
            (subst (λ n. 0 < n) (ap (λ (x : SealedSnapshotBatch). x.row_count) is_batch ∙ row_count)
              complete.has_rows)
            (subst (λ n. 0 < n)
              (sym complete.counts_all
                ∙ ap (λ (x : SealedSnapshotBatch). x.member_count) is_batch
                ∙ member_count)
              (expected_member_count-positive plan planned)) in
        IsCoherent-accepted encoders b (subst (IsCoherent encoders) (sym is_batch) coherent)
