-- ===== src/Features/Document.antt =====
-- The `feature-snapshot` document: `SealedSnapshotBatch.to_document` of
-- market_pipeline_lib/features/snapshots.py and `FeatureSnapshotValidator` of
-- market_pipeline_lib/features/validation.py.
use Prim.Native.Char.{code}
use idea2strategy_data_pipel.Prelude.{
  String, Bool, true, false, not, Option, none, some, List, [], ◌∷◌, if◌then◌else◌, ◌==◌, is_some,
  is_empty, filter,
}
use idea2strategy_data_pipel.Prelude.Int.{pos, ltb_ℤ}
use idea2strategy_data_pipel.Prelude.Sort.{text_lt}
use idea2strategy_data_pipel.Prelude.Eq.{string_eq}
use idea2strategy_data_pipel.Prelude.Result.{Result, ok, err, ◌>>=◌, guard, or_raise}
use idea2strategy_data_pipel.RealtimeIngest.Json.{Json, null, int, text, Fields, end, field, get}
use idea2strategy_data_pipel.Features.Hashing.{
  Encoders, iso_utc, is_sha256_hex, batch_version, VersionError, is_batch, matches,
  parse_feature_materialization_version,
}
use idea2strategy_data_pipel.Features.Builder.{SealedSnapshotBatch}

-- `_violation`'s answers, without their wording.
pub data Violation : Type 0 where
  missing_fields : List String → Violation
  not_a_hash not_utc : String → Violation
  not_succeeded empty_period bad_row_count bad_member_count bad_version not_a_batch
        foreign_version :
      Violation

-- `REQUIRED_FIELDS` and `_HASH_FIELDS`.
abbrev pub required_fields : List String
required_fields =
    "feature_materialization_version" ∷ "feature_set_hash" ∷ "input_market_set_hash" ∷ "batch_hash"
    ∷ "period_start" ∷ "period_end" ∷ "row_count" ∷ "snapshot_object_id" ∷ "status" ∷ []

-- `text.endswith("Z")`.
abbrev pub ends_in_z : String → Bool
ends_in_z String.[] = false
ends_in_z (String.◌∷◌ c String.[]) = code c == 90
ends_in_z (String.◌∷◌ c (String.◌∷◌ d s)) = ends_in_z (String.◌∷◌ d s)

pub record Decision (F D : Type 0) : Type 0 where
  pub decision : String
  pub feature_materialization_version : Option (Json F D)
  pub batch_hash : Option (Json F D)
  pub violation : Option Violation
  pub feature_set_hash : Option (Json F D)
  pub input_market_set_hash : Option (Json F D)
  pub row_count : Option (Json F D)

module _ {F D : Type 0} where
  -- `document[key]` of a key that is there, where it is a text.
  abbrev pub text_at : String → Fields F D → Option String
  text_at key document = elim (get key document) [ some (text s) ↦ some s | _ ↦ none ]

  abbrev pub hash_at : String → Fields F D → Result Violation String
  hash_at key document = elim (text_at key document) [
    | none ↦ err (not_a_hash key)
    | some s ↦ if is_sha256_hex s then ok s else err (not_a_hash key)
  ]

  abbrev pub utc_at : String → Fields F D → Result Violation String
  utc_at key document = elim (text_at key document) [
    | none ↦ err (not_utc key)
    | some s ↦ if ends_in_z s then ok s else err (not_utc key)
  ]

  -- An `int` that is no `bool`, and at least one.
  abbrev pub is_count : Option (Json F D) → Bool
  is_count (some (int n)) = not (ltb_ℤ n (pos 1))
  is_count _ = false

  -- `None`, or a count.
  abbrev pub is_optional_count : Option (Json F D) → Bool
  is_optional_count none = true
  is_optional_count (some null) = true
  is_optional_count (some v) = is_count (some v)

  -- `_period_violation`.
  unfoldable pub check_period : Fields F D → Result Violation (Unit {0})
  check_period document = do
    start ← utc_at "period_start" document
    finish ← utc_at "period_end" document
    guard (text_lt start finish) empty_period

  -- The cross-check of the version with the three hashes.
  unfoldable pub check_version : Fields F D → String → String → String → Result Violation (Unit {0})
  check_version document identity inputs result = do
    value ← or_raise (text_at "feature_materialization_version" document) bad_version
    parsed ← elim (parse_feature_materialization_version value) [
      | ok p ↦ ok p
      | err _ ↦ err bad_version
    ]
    _ ← guard (is_batch parsed) not_a_batch
    guard (matches parsed identity inputs result) foreign_version

  abbrev pub lacks : Fields F D → String → Bool
  lacks document key = not (is_some (get key document))

  -- `_violation`, an error for each of its answers.
  unfoldable pub check_document : Fields F D → Result Violation (Unit {0})
  check_document document =
      let missing = filter (lacks document) required_fields in
      do
        _ ← guard (is_empty missing) (missing_fields missing)
        identity ← hash_at "feature_set_hash" document
        inputs ← hash_at "input_market_set_hash" document
        result ← hash_at "batch_hash" document
        status ← or_raise (text_at "status" document) not_succeeded
        _ ← guard (string_eq.beq status "SUCCEEDED") not_succeeded
        _ ← check_period document
        _ ← guard (is_count (get "row_count" document)) bad_row_count
        _ ← guard (is_optional_count (get "member_count" document)) bad_member_count
        check_version document identity inputs result

  -- `validate`.
  unfoldable pub validate : Fields F D → Decision F D
  validate document = elim (check_document document) [
    | err violation ↦ record {
      decision = "REJECTED";
      feature_materialization_version = get "feature_materialization_version" document;
      batch_hash = get "batch_hash" document;
      violation = some violation;
      feature_set_hash = none;
      input_market_set_hash = none;
      row_count = none;
    }
    | ok _ ↦ record {
      decision = "ACCEPTED";
      feature_materialization_version = get "feature_materialization_version" document;
      batch_hash = get "batch_hash" document;
      violation = none;
      feature_set_hash = get "feature_set_hash" document;
      input_market_set_hash = get "input_market_set_hash" document;
      row_count = get "row_count" document;
    }
  ]

module _ {F D : Type 0} (encoders : Encoders F D) where
  abbrev pub document_of : SealedSnapshotBatch → String → Fields F D
  document_of b version = field "feature_materialization_version" (text version) (
      field "feature_set_hash" (text b.feature_set_hash) (
        field "input_market_set_hash" (text b.input_market_set_hash) (
          field "batch_hash" (text b.batch_hash) (
            field "period_start" (text (iso_utc encoders b.period_start)) (
              field "period_end" (text (iso_utc encoders b.period_end)) (
                field "source_start_watermark" (text b.source_start_watermark) (
                  field "source_end_watermark" (text b.source_end_watermark) (
                    field "member_count" (int (pos b.member_count)) (
                      field "row_count" (int (pos b.row_count)) (
                        field "snapshot_object_id" (text b.snapshot_object_id)
                          (field "status" (text b.status) end)))))))))))

  -- `to_document`; its first field is the property `feature_materialization_version`, which may raise.
  unfoldable pub to_document : SealedSnapshotBatch → Result VersionError (Fields F D)
  to_document b = do
    version ← batch_version b.feature_set_hash b.input_market_set_hash b.batch_hash
    ok (document_of b version)
