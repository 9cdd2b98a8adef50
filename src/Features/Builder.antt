-- ===== src/Features/Builder.antt =====
-- `FeatureSnapshotBatchBuilder` of market_pipeline_lib/features/snapshots.py, over the tables that it reads
-- and writes. `upsert` is that of `LocalCatalog` on a table keyed by `id`; `definition` is
-- `FeatureDefinitionRegistry.get`, whose answer the builder drops.
use idea2strategy_data_pipel.Prelude.{
  ℕ, ◌+◌, String, Bool, false, ◌||◌, ◌&&◌, Option, none, some, List, [], ◌∷◌, if◌then◌else◌, ltb,
  all, is_some,
}
use idea2strategy_data_pipel.Prelude.Eq.{string_eq, pair_eq}
use idea2strategy_data_pipel.Prelude.Dict.{Dict, lookup, has, insert, keys, values}
use idea2strategy_data_pipel.Prelude.Int.{pos}
use idea2strategy_data_pipel.Prelude.Text.{append}
use idea2strategy_data_pipel.Prelude.Result.{Result, ok, err, ◌>>=◌, guard}
use idea2strategy_data_pipel.RealtimeIngest.Json.{Json, int, text, array, object, end, field}
use idea2strategy_data_pipel.Features.Hashing.{Encoders, canonical_sha256, iso_utc}
use idea2strategy_data_pipel.Features.Plan.{
  SnapshotBatchPlan, Member, unique_definition_hashes, expected_member_count, items, sort_entries,
  feature_set_hash, input_market_set_hash, idempotency_key, batch_id, materialization_id,
}

-- The columns of `feature_materializations` that the builder reads.
pub record Materialization : Type 0 where
  pub id : String
  pub status : String
  pub result_hash : Option String

-- A row of `feature_snapshot_batches`.
pub record BatchRow : Type 0 where
  pub id : String
  pub feature_set_hash : String
  pub input_market_set_hash : String
  pub source_start_watermark : String
  pub source_end_watermark : String
  pub period_start : String
  pub period_end : String
  pub idempotency_key : String
  pub snapshot_object_id : Option String
  pub batch_hash : Option String
  pub row_count : Option ℕ
  pub status : String
  pub available_at : Option String
  pub created_at : String

pub record FeatureCatalog : Type 0 where
  pub materializations : List Materialization
  pub batches : List BatchRow

-- The parts of a `MaterializationResult` that are counted; `row_count` is the number of its values.
pub record MaterializationResult : Type 0 where
  pub definition_hash : String
  pub instrument_id : String
  pub result_hash : String
  pub row_count : ℕ

pub record SealedSnapshotBatch : Type 0 where
  pub id : String
  pub feature_set_hash : String
  pub input_market_set_hash : String
  pub batch_hash : String
  pub period_start : ℕ
  pub period_end : ℕ
  pub source_start_watermark : String
  pub source_end_watermark : String
  pub member_count : ℕ
  pub row_count : ℕ
  pub snapshot_object_id : String
  pub status : String

-- The `ValueError`s, `FeatureDefinitionNotPublished`, the causes of `PartialSnapshotBatch` and of
-- `SnapshotBatchNotConsumable`, and the `TypeError` of `int(None)`.
pub data SnapshotError : Type 0 where
  no_object not_a_uuid not_published foreign_result result_missing no_rows never_opened not_sealed
        no_row_count :
      SnapshotError
  members_missing : List String → SnapshotError

-- `LocalCatalog.upsert`: the row of the same id is replaced at its place.
abbrev pub upsert : BatchRow → List BatchRow → List BatchRow
upsert record_ [] = record_ ∷ []
upsert record_ (row ∷ rows) =
    if string_eq.beq row.id record_.id then record_ ∷ rows else row ∷ upsert record_ rows

-- `{str(item["id"]): item for item in rows}`, the rows that were read so far first.
abbrev pub by_id : Dict String Materialization → List Materialization → Dict String Materialization
by_id stored [] = stored
by_id stored (m ∷ ms) = by_id (insert m.id m stored) ms

abbrev pub find_row : String → List BatchRow → Option BatchRow
find_row id [] = none
find_row id (row ∷ rows) = if string_eq.beq row.id id then some row else find_row id rows

abbrev pub text_or_none : Option String → String
text_or_none none = "None"
text_or_none (some s) = s

-- A usable member with the hash of its result.
abbrev pub Usable : Type 0
Usable = Member × String

-- `(members, missing, failed)`.
pub record Gathered : Type 0 where
  pub members : List Usable
  pub missing : List String
  pub failed : Bool

abbrev label : Member → String → String
label m why = append m.0 (append "/" (append m.1.instrument_id (append " (" (append why ")"))))

unfoldable pub usable_hash : Materialization → Option String
usable_hash row = if string_eq.beq row.status "SUCCEEDED" then row.result_hash else none

-- One round of the loop over the planned members, in front of what the later ones give.
unfoldable pub gather_one : Member → Option Materialization → Gathered → Gathered
gather_one m none rest = record rest { missing = label m "absent" ∷ rest.missing }
gather_one m (some row) rest = elim (usable_hash row) [
  | some result_hash ↦ record rest { members = (m, result_hash) ∷ rest.members }
  | none ↦ record rest {
    missing = label m row.status ∷ rest.missing;
    failed = string_eq.beq row.status "FAILED" || rest.failed;
  }
]

-- The dictionary of the expected result hashes.
abbrev pub expected_results :
    Dict (String × String) String → List Usable → Dict (String × String) String
expected_results d [] = d
expected_results d ((m, hash) ∷ ms) = expected_results (insert (m.0, m.1.instrument_id) hash d) ms

abbrev pub agrees : Option String → String → Bool
agrees none hash = false
agrees (some expected) hash = string_eq.beq expected hash

-- The loop over the supplied results.
unfoldable pub count_results :
    Dict (String × String) String
    → Dict (String × String) ℕ
    → List MaterializationResult
    → Result SnapshotError (Dict (String × String) ℕ)
count_results expected seen [] = ok seen
count_results expected seen (r ∷ results) =
    let key : String × String = (r.definition_hash, r.instrument_id) in
    let rest = count_results expected (insert key r.row_count seen) results in
    if agrees (lookup key expected) r.result_hash then rest else err foreign_result

abbrev pub sum : List ℕ → ℕ
sum [] = 0
sum (n ∷ ns) = n + sum ns

-- `set(a) == set(b)` of the keys.
abbrev pub same_keys : Dict (String × String) ℕ → Dict (String × String) String → Bool
same_keys a b = all (λ k. has k b) (keys a) && all (λ k. has k a) (keys b)

-- `_row_count`.
unfoldable pub row_count_of : List Usable → List MaterializationResult → Result SnapshotError ℕ
row_count_of members results =
    let expected = expected_results [] members in
    do
      seen ← count_results expected [] results
      _ ← guard (same_keys seen expected) result_missing
      _ ← guard (ltb 0 (sum (values seen))) no_rows
      ok (sum (values seen))

-- Whether a row is that of a sealed batch.
abbrev pub is_sealed : BatchRow → Bool
is_sealed row = string_eq.beq row.status "SUCCEEDED" && is_some row.batch_hash

-- `_mark`, on the row that was read.
unfoldable pub mark : String → BatchRow → FeatureCatalog → FeatureCatalog
mark status row catalog = if string_eq.beq row.status status then catalog else record catalog {
  batches =
      upsert
        (record row { status = status; batch_hash = none; row_count = none; available_at = none })
        catalog.batches;
}

-- `_sealed_from_row`.
unfoldable pub sealed_from_row :
    SnapshotBatchPlan → BatchRow → Result SnapshotError SealedSnapshotBatch
sealed_from_row plan row = elim row.row_count [
  | none ↦ err no_row_count
  | some row_count ↦ ok record {
    id = row.id;
    feature_set_hash = row.feature_set_hash;
    input_market_set_hash = row.input_market_set_hash;
    batch_hash = text_or_none row.batch_hash;
    period_start = plan.period_start;
    period_end = plan.period_end;
    source_start_watermark = row.source_start_watermark;
    source_end_watermark = row.source_end_watermark;
    member_count = expected_member_count plan;
    row_count = row_count;
    snapshot_object_id = text_or_none row.snapshot_object_id;
    status = "SUCCEEDED";
  }
]

module _ {F D : Type 0} (encoders : Encoders F D) where
  -- An entry of `_batch_hash`.
  abbrev pub member_entry : Usable → Json F D
  member_entry (m, result_hash) = object (
      field "definition_hash" (text m.0) (
        field "input_dataset_set_hash" (text m.1.input_dataset_set_hash) (
          field "instrument_id" (text m.1.instrument_id)
            (field "result_hash" (text result_hash) end))))

  abbrev pub member_entries : List Usable → List (Json F D)
  member_entries [] = []
  member_entries (m ∷ members) = member_entry m ∷ member_entries members

  -- `_batch_hash`.
  unfoldable pub batch_hash_of : SnapshotBatchPlan → List Usable → String
  batch_hash_of plan members = canonical_sha256 encoders (
      object (
        field "batch_schema_version" (int (pos 1)) (
          field "feature_set_hash" (text (feature_set_hash encoders plan)) (
            field "input_market_set_hash" (text (input_market_set_hash encoders plan)) (
              field "members"
                (array (items encoders (sort_entries encoders (member_entries members))))
                (field "period_end" (text (iso_utc encoders plan.period_end)) (
                  field "period_start" (text (iso_utc encoders plan.period_start)) (
                    field "source_end_watermark" (text plan.source_end_watermark) (
                      field "source_start_watermark" (text plan.source_start_watermark) end)))))))))

  -- `base_record`, with the columns that `open` adds to it.
  unfoldable pub pending_row : SnapshotBatchPlan → ℕ → BatchRow
  pending_row plan now = record {
    id = batch_id encoders plan;
    feature_set_hash = feature_set_hash encoders plan;
    input_market_set_hash = input_market_set_hash encoders plan;
    source_start_watermark = plan.source_start_watermark;
    source_end_watermark = plan.source_end_watermark;
    period_start = iso_utc encoders plan.period_start;
    period_end = iso_utc encoders plan.period_end;
    idempotency_key = idempotency_key encoders plan;
    snapshot_object_id = none;
    batch_hash = none;
    row_count = none;
    status = "PENDING";
    available_at = none;
    created_at = iso_utc encoders now;
  }

  -- `_row`.
  abbrev pub row_of : SnapshotBatchPlan → FeatureCatalog → Option BatchRow
  row_of plan catalog = find_row (batch_id encoders plan) catalog.batches

  -- The loop of `seal` over the planned members.
  unfoldable pub gather : SnapshotBatchPlan → Dict String Materialization → List Member → Gathered
  unfolding gather_one
  gather plan stored [] = record { members = []; missing = []; failed = false }
  gather plan stored (m ∷ planned) =
      gather_one m (lookup (materialization_id encoders plan m) stored) (gather plan stored planned)

  module _ (definition : String → Bool) where
    unfoldable pub open_batch :
        SnapshotBatchPlan → ℕ → FeatureCatalog → Result SnapshotError String × FeatureCatalog
    unfolding pending_row
    open_batch plan now catalog =
        if all definition (unique_definition_hashes plan)
        then elim (row_of plan catalog) [
          | some row ↦ (ok row.id, catalog)
          | none ↦ (
            ok (batch_id encoders plan),
            record catalog { batches = upsert (pending_row plan now) catalog.batches },
          )
        ]
        else (err not_published, catalog)
