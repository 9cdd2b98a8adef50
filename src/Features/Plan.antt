-- ===== src/Features/Plan.antt =====
-- `MarketInput` and `SnapshotBatchPlan` of market_pipeline_lib/features/snapshots.py: the declared contents
-- of a batch, and the identity that they give it. `parse_uuid` is `str(UUID(value))`, `none` where it raises.
use idea2strategy_data_pipel.Prelude.{
  ℕ, ◌*◌, String, Bool, not, Option, List, [], ◌∷◌, ◌++◌, ltb, length, is_empty, all, is_some, ◌==◌,
}
use idea2strategy_data_pipel.Prelude.Eq.{string_eq, distinct}
use idea2strategy_data_pipel.Prelude.Int.{pos}
use idea2strategy_data_pipel.Prelude.Sort.{text_lt, sorted}
use idea2strategy_data_pipel.Prelude.Text.{append, strip, is_blank, text_length}
use idea2strategy_data_pipel.Prelude.Result.{Result, ok, ◌>>=◌, guard}
use idea2strategy_data_pipel.RealtimeIngest.Json.{
  Json, int, text, array, object, Items, nil, cons, end, field,
}
use idea2strategy_data_pipel.Features.Hashing.{
  Encoders, canonical_json, canonical_sha256, iso_utc, compact_utc, is_sha256_hex, prefix_of,
}

pub record MarketInput : Type 0 where
  pub instrument_id : String
  pub input_dataset_set_hash : String

pub record SnapshotBatchPlan : Type 0 where
  pub definition_hashes : List String
  pub market_inputs : List MarketInput
  pub period_start : ℕ
  pub period_end : ℕ
  pub source_start_watermark : String
  pub source_end_watermark : String

-- The causes of the `ValueError`s.
pub data PlanError : Type 0 where
  bad_instrument bad_dataset_hash no_definition bad_definition_hash no_market_input
        same_instrument_twice empty_period blank_watermark long_watermark :
      PlanError

-- `MarketInput.__post_init__`.
unfoldable pub market_input :
    (String → Option String) → String → String → Result PlanError MarketInput
market_input parse_uuid instrument_id input_dataset_set_hash = do
  _ ← guard (is_some (parse_uuid instrument_id)) bad_instrument
  _ ← guard (is_sha256_hex input_dataset_set_hash) bad_dataset_hash
  ok record { instrument_id = instrument_id; input_dataset_set_hash = input_dataset_set_hash }

abbrev instruments : List MarketInput → List String
instruments [] = []
instruments (i ∷ inputs) = i.instrument_id ∷ instruments inputs

abbrev check_watermark : String → Result PlanError (Unit {0})
check_watermark watermark = do
  _ ← guard (not (is_blank (strip watermark))) blank_watermark
  guard (not (ltb 300 (text_length watermark))) long_watermark

-- `SnapshotBatchPlan.__post_init__`.
unfoldable pub snapshot_batch_plan : SnapshotBatchPlan → Result PlanError SnapshotBatchPlan
snapshot_batch_plan plan = do
  _ ← guard (not (is_empty plan.definition_hashes)) no_definition
  _ ← guard (all is_sha256_hex plan.definition_hashes) bad_definition_hash
  _ ← guard (not (is_empty plan.market_inputs)) no_market_input
  _ ←
      guard
        (length (distinct (instruments plan.market_inputs))
          == length (instruments plan.market_inputs))
        same_instrument_twice
  _ ← guard (ltb plan.period_start plan.period_end) empty_period
  _ ← check_watermark plan.source_start_watermark
  _ ← check_watermark plan.source_end_watermark
  ok plan

-- `":".join(texts)`.
abbrev join_colon : String → List String → String
join_colon s [] = s
join_colon s (t ∷ ts) = append s (append ":" (join_colon t ts))

unfoldable pub unique_definition_hashes : SnapshotBatchPlan → List String
unique_definition_hashes plan = sorted text_lt (distinct plan.definition_hashes)

abbrev pub by_instrument : MarketInput → MarketInput → Bool
by_instrument a b = text_lt a.instrument_id b.instrument_id

-- A member of the batch: a definition's hash and the input that it is computed from.
abbrev pub Member : Type 0
Member = String × MarketInput

-- `itertools.product`, the right factor in front.
abbrev pub beside : String → List MarketInput → List Member
beside hash [] = []
beside hash (i ∷ inputs) = (hash, i) ∷ beside hash inputs

abbrev pub product : List String → List MarketInput → List Member
product [] inputs = []
product (hash ∷ hashes) inputs = beside hash inputs ++ product hashes inputs

unfoldable pub expected_members : SnapshotBatchPlan → List Member
expected_members plan =
    product (unique_definition_hashes plan) (sorted by_instrument plan.market_inputs)

unfoldable pub expected_member_count : SnapshotBatchPlan → ℕ
expected_member_count plan = length (unique_definition_hashes plan) * length plan.market_inputs

-- `"|".join(texts)`.
abbrev join_bar : String → List String → String
join_bar s [] = s
join_bar s (t ∷ ts) = append s (append "|" (join_bar t ts))

module _ {F D : Type 0} (encoders : Encoders F D) where
  -- A JSON array.
  abbrev pub items : List (Json F D) → Items F D
  items [] = nil
  items (x ∷ xs) = cons x (items xs)

  abbrev texts : List String → List (Json F D)
  texts [] = []
  texts (s ∷ ss) = text s ∷ texts ss

  -- `sorted(entries, key=canonical_json)`.
  abbrev pub sort_entries : List (Json F D) → List (Json F D)
  sort_entries entries =
      sorted (λ a b. text_lt (canonical_json encoders a) (canonical_json encoders b)) entries

  unfoldable pub feature_set_hash : SnapshotBatchPlan → String
  feature_set_hash plan = canonical_sha256 encoders (
      object (
        field "definition_hashes" (array (items (texts (unique_definition_hashes plan))))
          (field "feature_set_schema_version" (int (pos 1)) end)))

  -- `MarketInput.entry`.
  abbrev pub entry : MarketInput → Json F D
  entry i = object (
      field "input_dataset_set_hash" (text i.input_dataset_set_hash)
        (field "instrument_id" (text i.instrument_id) end))

  abbrev pub entries_of : List MarketInput → List (Json F D)
  entries_of [] = []
  entries_of (i ∷ inputs) = entry i ∷ entries_of inputs

  unfoldable pub input_market_set_hash : SnapshotBatchPlan → String
  input_market_set_hash plan = canonical_sha256 encoders (
      object (
        field "market_inputs" (array (items (sort_entries (entries_of plan.market_inputs))))
          (field "market_set_schema_version" (int (pos 1)) end)))

  -- The key is of fixed width, so the check of its length does not fail.
  unfoldable pub idempotency_key : SnapshotBatchPlan → String
  idempotency_key plan = join_colon "fsb1" (
      prefix_of (feature_set_hash plan)
      ∷ prefix_of (input_market_set_hash plan)
      ∷ compact_utc encoders plan.period_start
      ∷ compact_utc encoders plan.period_end
      ∷ [])

  -- `contracts.deterministic_uuid`.
  unfoldable pub deterministic_uuid : String → List String → String
  deterministic_uuid first rest = encoders.uuid5 (join_bar first rest)

  unfoldable pub batch_id : SnapshotBatchPlan → String
  batch_id plan = deterministic_uuid "feature-snapshot-batch" (idempotency_key plan ∷ [])

  unfoldable pub materialization_id : SnapshotBatchPlan → Member → String
  materialization_id plan m = deterministic_uuid "feature-materialization" (
      m.0
      ∷ m.1.instrument_id
      ∷ m.1.input_dataset_set_hash
      ∷ iso_utc encoders plan.period_start
      ∷ iso_utc encoders plan.period_end
      ∷ [])
