-- ===== src/Features/Examples.antt =====
-- A batch of one definition and one instrument (market_pipeline_lib/features/snapshots.py).
use idea2strategy_data_pipel.Prelude.{
  String, Bool, true, false, ◌≡◌, ◌↔◌, refl, Option, some, List, [], ◌∷◌, arith,
}
use idea2strategy_data_pipel.Prelude.Eq.{string_eq, pair_eq}
use idea2strategy_data_pipel.Prelude.Sort.{text_lt, sorted, insert_sorted}
use idea2strategy_data_pipel.Prelude.Text.{append, decimal, strip}
use idea2strategy_data_pipel.Prelude.Result.{ok, err}
use idea2strategy_data_pipel.RealtimeIngest.Json.{Fields}
use idea2strategy_data_pipel.Features.Hashing.{
  Encoders, canonical_sha256, is_sha256_hex, batch_version, parse_feature_materialization_version,
  ParsedFeatureVersion, is_batch, matches, prefix_of,
}
use idea2strategy_data_pipel.Features.Version.{batch_version-parse}
use idea2strategy_data_pipel.Features.Plan.{
  SnapshotBatchPlan, snapshot_batch_plan, unique_definition_hashes, expected_members,
  feature_set_hash, input_market_set_hash, idempotency_key, deterministic_uuid, batch_id,
  materialization_id,
}
use idea2strategy_data_pipel.Features.Builder.{
  Materialization, FeatureCatalog, MaterializationResult, SealedSnapshotBatch, members_missing,
  BatchRow, usable_hash, gather_one, count_results, row_count_of, batch_hash_of, pending_row,
  gather, open_batch, row_of, is_sealed,
}
use idea2strategy_data_pipel.Features.Seal.{
  sealed_batch, seal_counted, seal_gathered, gathered_of, seal_row, consume, seal_opened,
  seal_found, seal,
}
use idea2strategy_data_pipel.Features.Finality.{opens, seals, materializes, happen, consume-final}
use idea2strategy_data_pipel.Features.Sealed.{IsComplete, consume-IsComplete, seal-consume}
use idea2strategy_data_pipel.Features.Document.{ends_in_z, to_document, validate}
use idea2strategy_data_pipel.Features.Accepted.{IsEncoding, seal-accepted}

abbrev digest_a : String
digest_a = "aaaaaaaaaaaaaaaaaaaaaaaaaaaaaaaaaaaaaaaaaaaaaaaaaaaaaaaaaaaaaaaa"

abbrev encoders : Encoders Unit Unit
encoders = record {
  dumps = λ _. "{}";
  sha256 = λ _. digest_a;
  uuid5 = λ s. s;
  isoformat = λ t. append (decimal t) "Z";
  strftime = λ t. append (decimal t) "Z";
}

abbrev plan : SnapshotBatchPlan
plan = record {
  definition_hashes = digest_a ∷ digest_a ∷ [];
  market_inputs = record { instrument_id = "i"; input_dataset_set_hash = digest_a } ∷ [];
  period_start = 10;
  period_end = 20;
  source_start_watermark = "w";
  source_end_watermark = "x";
}

abbrev results : List MaterializationResult
results =
    record {
      definition_hash = digest_a;
      instrument_id = "i";
      result_hash = digest_a;
      row_count = 5;
    }
    ∷ []

abbrev member_id : String
member_id =
    append "feature-materialization|" (append digest_a (append "|i|" (append digest_a "|10Z|20Z")))

abbrev stored : List Materialization
stored = record { id = member_id; status = "SUCCEEDED"; result_hash = some digest_a } ∷ []

abbrev empty_catalog : FeatureCatalog
empty_catalog = record { materializations = []; batches = [] }

abbrev catalog : FeatureCatalog
catalog = record { materializations = stored; batches = [] }

abbrev published : String → Bool
published _ = true

abbrev parse_uuid : String → Option String
parse_uuid s = some s

plan_test : snapshot_batch_plan plan ≡ ok plan
unfolding snapshot_batch_plan is_sha256_hex strip
plan_test = refl

abbrev batch : SealedSnapshotBatch
batch = record {
  id =
      append "feature-snapshot-batch|fsb1:"
        (append (prefix_of digest_a) (append ":" (append (prefix_of digest_a) ":10Z:20Z")));
  feature_set_hash = digest_a;
  input_market_set_hash = digest_a;
  batch_hash = digest_a;
  period_start = 10;
  period_end = 20;
  source_start_watermark = "w";
  source_end_watermark = "x";
  member_count = 1;
  row_count = 5;
  snapshot_object_id = "o";
  status = "SUCCEEDED";
}

seal_test : (seal encoders published parse_uuid plan results "o" 7 catalog).0 ≡ ok batch
unfolding seal seal_found seal_opened seal_row seal_gathered seal_counted sealed_batch gathered_of
    gather gather_one usable_hash row_count_of count_results open_batch pending_row batch_hash_of
    batch_id idempotency_key deterministic_uuid materialization_id feature_set_hash
    input_market_set_hash expected_members unique_definition_hashes canonical_sha256 decimal sorted
    insert_sorted
seal_test = refl

-- Without the materialization, the batch is not sealed, and its member is named.
missing_test :
    (seal encoders published parse_uuid plan results "o" 7 empty_catalog).0
    ≡ err (members_missing (append digest_a "/i (absent)" ∷ []))
unfolding seal seal_found seal_opened seal_row seal_gathered gathered_of gather gather_one
    open_batch pending_row batch_id idempotency_key deterministic_uuid materialization_id
    feature_set_hash input_market_set_hash expected_members unique_definition_hashes
    canonical_sha256 decimal sorted insert_sorted
missing_test = refl

is_open : (row : BatchRow) → row_of encoders plan catalog ≡ some row → is_sealed row ≡ false
is_open row found = absurd ground arith

ordered_test : text_lt (append (decimal 10) "Z") (append (decimal 20) "Z") ≡ true
unfolding decimal
ordered_test = refl

consume-IsComplete_example : IsComplete encoders plan results catalog batch
consume-IsComplete_example =
    consume-IsComplete encoders plan published parse_uuid results "o" 7 catalog batch is_open
      (seal-consume encoders plan published parse_uuid results "o" 7 catalog batch seal_test)

-- The materialization is gone and the batch sealed against another object: it is what it was.
consume-final_example :
    consume encoders plan (
      happen encoders published parse_uuid
        (materializes [] ∷ opens plan 8 ∷ seals plan [] "p" 9 ∷ [])
        (seal encoders published parse_uuid plan results "o" 7 catalog).1)
    ≡ ok batch
consume-final_example =
    consume-final encoders published parse_uuid plan
      (materializes [] ∷ opens plan 8 ∷ seals plan [] "p" 9 ∷ [])
      (seal encoders published parse_uuid plan results "o" 7 catalog).1 batch
      (seal-consume encoders plan published parse_uuid results "o" 7 catalog batch seal_test)

ends_in_z-append : (s : String) → ends_in_z (append s "Z") ≡ true
ends_in_z-append String.[] = refl
ends_in_z-append (String.◌∷◌ c String.[]) = refl
ends_in_z-append (String.◌∷◌ c (String.◌∷◌ d s)) = ends_in_z-append (String.◌∷◌ d s)

digest_a-hex : is_sha256_hex digest_a ≡ true
unfolding is_sha256_hex
digest_a-hex = refl

encoders-IsEncoding : IsEncoding encoders
encoders-IsEncoding = record { digest = λ _. digest_a-hex; utc = λ t. ends_in_z-append (decimal t) }

seal-accepted_example :
    (document : Fields Unit Unit) × (to_document encoders batch ≡ ok document)
    × ((validate document).decision ≡ "ACCEPTED")
seal-accepted_example =
    seal-accepted encoders plan published parse_uuid results "o" 7 catalog batch encoders-IsEncoding
      plan_test ordered_test is_open seal_test

batch_version-parse_example :
    (text : String) × (parsed : ParsedFeatureVersion) × (batch_version digest_a digest_a digest_a
      ≡ ok text)
    × (parse_feature_materialization_version text ≡ ok parsed)
    × (is_batch parsed ≡ true)
    × ((other_identity other_inputs other_result : String)
        → (matches parsed other_identity other_inputs other_result ≡ true) ↔ (
            (prefix_of digest_a ≡ prefix_of other_identity)
            × (prefix_of digest_a ≡ prefix_of other_inputs)
            × (prefix_of digest_a ≡ prefix_of other_result)))
batch_version-parse_example =
    batch_version-parse digest_a digest_a digest_a digest_a-hex digest_a-hex digest_a-hex
