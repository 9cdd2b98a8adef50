-- ===== src/RealtimeIngest/Event.antt =====
-- `MarketEvent` and `parse_market_event` of market_pipeline_lib/realtime_ingest.py.
use Prim.Native.Char.{code}
use idea2strategy_data_pipel.Prelude.{
  ℕ, String, Bool, not, ◌&&◌, ◌||◌, Option, none, some, List, [], ◌∷◌, filter, is_empty, ltb,
  ◌==◌ as nat_beq, if◌then◌else◌, is_none,
}
use idea2strategy_data_pipel.Prelude.Int.{ℤ, pos, eqb_ℤ}
use idea2strategy_data_pipel.Prelude.Text.{strip, is_blank}
use idea2strategy_data_pipel.Prelude.Result.{Result, ok, err, ◌>>=◌, ◌>>◌, guard}
use idea2strategy_data_pipel.Watermarks.Position.{DateTime, naive, aware, StreamPosition}
use idea2strategy_data_pipel.RealtimeIngest.Json.{Json, Fields, get, has_fields}
use idea2strategy_data_pipel.RealtimeIngest.Fault.{
  RealtimeFault, not_an_object, missing_fields, not_a_text, not_a_timestamp, no_offset,
  received_before_occurred, bad_sequence, bad_revision, correction_of_original, correction_missing,
  bad_values, IngestError, realtime, unsupported_event_version, Platform,
}

-- `MARKET_EVENT_FIELDS`.
abbrev pub market_event_fields : List String
market_event_fields =
    "eventId" ∷ "schemaVersion" ∷ "instrumentId" ∷ "provider" ∷ "feed" ∷ "eventType"
    ∷ "providerEventId" ∷ "occurredAt" ∷ "receivedAt" ∷ "sequence" ∷ "revision"
    ∷ "correctionOfEventId" ∷ "values" ∷ []

-- `MARKET_EVENT_SCHEMA_VERSION`.
abbrev pub market_event_schema_version : ℤ
market_event_schema_version = pos 1

pub record MarketEvent (F D : Type 0) : Type 0 where
  pub event_id : String
  pub schema_version : ℤ
  pub instrument_id : String
  pub provider : String
  pub feed : String
  pub event_type : String
  pub provider_event_id : String
  pub occurred_at : ℕ
  pub received_at : ℕ
  pub sequence : ℕ
  pub revision : ℕ
  pub correction_of_event_id : Option String
  pub values : Fields F D

-- `raw[:-1] + "+00:00"` if the text ends in Z or z.
unfoldable pub with_offset : String → String
with_offset String.[] = String.[]
with_offset (String.◌∷◌ c s) =
    if is_blank s && (nat_beq (code c) b'Z' || nat_beq (code c) b'z')
    then "+00:00"
    else String.◌∷◌ c (with_offset s)

unfoldable pub stripped : String → String → Result IngestError String
stripped key s = if is_blank (strip s) then err (realtime (not_a_text key)) else ok (strip s)

utc_of : String → Option DateTime → Result IngestError ℕ
utc_of key none = err (realtime (not_a_timestamp key))
utc_of key (some (naive t)) = err (realtime (no_offset key))
utc_of key (some (aware t)) = ok t

unfoldable pub named_correction : String → Result IngestError (Option String)
named_correction s =
    if is_blank (strip s) then err (realtime correction_missing) else ok (some (strip s))

module _ {F D : Type 0} where
  -- `is_correction` and `position`.
  abbrev pub is_correction : MarketEvent F D → Bool
  is_correction e = ltb 0 e.revision

  abbrev pub position : MarketEvent F D → StreamPosition
  position e = record { source_event_at = e.occurred_at; sequence = some (pos e.sequence) }

  unfoldable pub text_of : String → Option (Json F D) → Result IngestError String
  unfolding stripped
  text_of key (some (Json.text s)) = stripped key s
  text_of key _ = err (realtime (not_a_text key))

  -- `_text`.
  unfoldable pub text : String → Fields F D → Result IngestError String
  unfolding text_of
  text key document = text_of key (get key document)

  -- `_utc`.
  unfoldable pub utc : Platform F D → String → Fields F D → Result IngestError ℕ
  unfolding text utc_of
  utc platform key document = do
    raw ← text key document
    utc_of key (platform.fromisoformat (with_offset raw))

  -- The tests on `schemaVersion`: a bool is no integer.
  unfoldable pub check_version : Option (Json F D) → Result IngestError ℤ
  check_version (some (Json.int v)) =
      if eqb_ℤ v market_event_schema_version then ok v else err unsupported_event_version
  check_version _ = err unsupported_event_version

  -- The tests on `sequence` and `revision`.
  unfoldable pub non_negative : RealtimeFault → Option (Json F D) → Result IngestError ℕ
  non_negative fault (some (Json.int (pos n))) = ok n
  non_negative fault _ = err (realtime fault)

  -- `correctionOfEventId` is null exactly when the revision is 0.
  unfoldable pub check_correction : ℕ → Option (Json F D) → Result IngestError (Option String)
  unfolding named_correction
  check_correction ℕ.zero (some Json.null) = ok none
  check_correction ℕ.zero _ = err (realtime correction_of_original)
  check_correction (ℕ.suc r) (some (Json.text s)) = named_correction s
  check_correction (ℕ.suc r) _ = err (realtime correction_missing)

  unfoldable pub check_values : Option (Json F D) → Result IngestError (Fields F D)
  check_values (some (Json.object values)) =
      if has_fields values then ok values else err (realtime bad_values)
  check_values _ = err (realtime bad_values)

  unfoldable pub fields_of : Json F D → Result IngestError (Fields F D)
  fields_of (Json.object fields) = ok fields
  fields_of _ = err (realtime not_an_object)

  -- `parse_market_event`.
  unfoldable pub parse_market_event : Platform F D → Json F D → Result IngestError (MarketEvent F D)
  parse_market_event platform event = do
    document ← fields_of event
    let missing = filter (λ (name : String). is_none (get name document)) market_event_fields
    guard (is_empty missing) (realtime (missing_fields missing))
    schema_version ← check_version (get "schemaVersion" document)
    occurred_at ← utc platform "occurredAt" document
    received_at ← utc platform "receivedAt" document
    guard (not (ltb received_at occurred_at)) (realtime received_before_occurred)
    sequence ← non_negative bad_sequence (get "sequence" document)
    revision ← non_negative bad_revision (get "revision" document)
    correction ← check_correction revision (get "correctionOfEventId" document)
    values ← check_values (get "values" document)
    event_id ← text "eventId" document
    instrument_id ← text "instrumentId" document
    provider ← text "provider" document
    feed ← text "feed" document
    event_type ← text "eventType" document
    provider_event_id ← text "providerEventId" document
    ok (record {
      event_id = event_id;
      schema_version = schema_version;
      instrument_id = instrument_id;
      provider = provider;
      feed = feed;
      event_type = event_type;
      provider_event_id = provider_event_id;
      occurred_at = occurred_at;
      received_at = received_at;
      sequence = sequence;
      revision = revision;
      correction_of_event_id = correction;
      values = values;
    })
