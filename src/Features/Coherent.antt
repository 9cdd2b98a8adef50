-- ===== src/Features/Coherent.antt =====
-- The document of a coherent batch before the validator
-- (market_pipeline_lib/features/snapshots.py and validation.py).
use idea2strategy_data_pipel.Prelude.{ℕ, ◌<◌, String, true, ◌≡◌, refl, arith, not}
use idea2strategy_data_pipel.Prelude.Eq.{string_eq}
use idea2strategy_data_pipel.Prelude.Sort.{text_lt}
use idea2strategy_data_pipel.Prelude.Int.{pos, ltb_ℤ}
use idea2strategy_data_pipel.Prelude.Result.{ok}
use idea2strategy_data_pipel.RealtimeIngest.Json.{Fields}
use idea2strategy_data_pipel.Features.Hashing.{
  ParsedFeatureVersion, Encoders, iso_utc, is_sha256_hex, parse_feature_materialization_version,
  is_batch, matches,
}
use idea2strategy_data_pipel.Features.Version.{
  version_of, parsed_of, batch_version-hex, parse-version_of, is_batch-parsed_of, matches-parsed_of,
}
use idea2strategy_data_pipel.Features.Builder.{SealedSnapshotBatch}
use idea2strategy_data_pipel.Features.Document.{
  check_period, check_version, check_document, validate, document_of, to_document, ends_in_z,
}

module _ {F D : Type 0} (encoders : Encoders F D) where
  is_count-pos : (n : ℕ) → 0 < n → not (ltb_ℤ (pos n) (pos 1)) ≡ true
  is_count-pos n h = ground arith

  -- What the validator asks of the batch behind a document.
  pub record IsCoherent (b : SealedSnapshotBatch) : Type 0 where
    pub identity : is_sha256_hex b.feature_set_hash ≡ true
    pub inputs : is_sha256_hex b.input_market_set_hash ≡ true
    pub result : is_sha256_hex b.batch_hash ≡ true
    pub start_utc : ends_in_z (iso_utc encoders b.period_start) ≡ true
    pub end_utc : ends_in_z (iso_utc encoders b.period_end) ≡ true
    pub has_period :
        text_lt (iso_utc encoders b.period_start) (iso_utc encoders b.period_end) ≡ true
    pub has_rows : 0 < b.row_count
    pub has_members : 0 < b.member_count
    pub has_succeeded : string_eq.beq b.status "SUCCEEDED" ≡ true

  check_period-document :
      (b : SealedSnapshotBatch) (version : String)
      → IsCoherent b
      → check_period (document_of encoders b version) ≡ ok tt
  unfolding check_period
  check_period-document b version s = rw (s.start_utc, s.end_utc, s.has_period) refl

  check_version-document :
      (b : SealedSnapshotBatch) (version : String) (parsed : ParsedFeatureVersion)
      → parse_feature_materialization_version version ≡ ok parsed
      → is_batch parsed ≡ true
      → matches parsed b.feature_set_hash b.input_market_set_hash b.batch_hash ≡ true
      → check_version
          (document_of encoders b version)
          b.feature_set_hash
          b.input_market_set_hash
          b.batch_hash
        ≡ ok tt
  unfolding check_version
  check_version-document b version parsed parses batch same = rw (parses, batch, same) refl

  check_document-document :
      (b : SealedSnapshotBatch) (version : String)
      → IsCoherent b
      → check_version
          (document_of encoders b version)
          b.feature_set_hash
          b.input_market_set_hash
          b.batch_hash
        ≡ ok tt
      → check_document (document_of encoders b version) ≡ ok tt
  unfolding check_document
  check_document-document b version s checked =
      rw (s.identity, s.inputs, s.result, s.has_succeeded, check_period-document b version s)
        (rw
          (is_count-pos b.row_count s.has_rows, is_count-pos b.member_count s.has_members, checked)
          refl)

  validate-accepts :
      (document : Fields F D)
      → check_document document ≡ ok tt
      → (validate document).decision ≡ "ACCEPTED"
  unfolding validate
  validate-accepts document h = rw (validate, h) refl

  pub IsCoherent-accepted :
      (b : SealedSnapshotBatch)
      → IsCoherent b
      → (document : Fields F D) × (to_document encoders b ≡ ok document)
        × ((validate document).decision ≡ "ACCEPTED")
  unfolding to_document
  IsCoherent-accepted b s =
      let version = version_of b.feature_set_hash b.input_market_set_hash b.batch_hash in
      let matched =
        matches-parsed_of b.feature_set_hash b.input_market_set_hash b.batch_hash b.feature_set_hash
          b.input_market_set_hash b.batch_hash in
      (
        document_of encoders b version,
        rw
            (batch_version-hex b.feature_set_hash b.input_market_set_hash b.batch_hash s.identity
              s.inputs s.result)
            refl,
        validate-accepts (document_of encoders b version) (
            check_document-document b version s (
              check_version-document b version
                (parsed_of b.feature_set_hash b.input_market_set_hash b.batch_hash)
                (parse-version_of b.feature_set_hash b.input_market_set_hash b.batch_hash s.identity
                  s.inputs s.result)
                (is_batch-parsed_of b.feature_set_hash b.input_market_set_hash b.batch_hash)
                (matched.1 (refl, refl, refl)))),
      )
