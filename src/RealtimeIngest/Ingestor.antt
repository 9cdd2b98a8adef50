-- ===== src/RealtimeIngest/Ingestor.antt =====
-- `RealtimeIngestor` of market_pipeline_lib/realtime_ingest.py: its state, and `_prepare`, which
-- decides everything about an event and changes nothing.
use idea2strategy_data_pipel.Prelude.{
  ℕ, String, not, ◌||◌, Option, none, some, List, [], ◌∷◌, or_else, ltb, ◌==◌ as nat_beq,
  if◌then◌else◌,
}
use idea2strategy_data_pipel.Prelude.Int.{ℤ}
use idea2strategy_data_pipel.Prelude.Eq.{◌==◌, string_eq, nat_eq, pair_eq, contains}
use idea2strategy_data_pipel.Prelude.Dict.{Dict, lookup, insert, has}
use idea2strategy_data_pipel.Prelude.Result.{Result, ok, err, ◌>>=◌, ◌>>◌, guard, or_raise}
use idea2strategy_data_pipel.Contracts.Calendar.{Date, date_eq}
use idea2strategy_data_pipel.Contracts.Partition.{Granularity}
use idea2strategy_data_pipel.Contracts.Shard.{ShardError, Hashing, stable_shard_key}
use idea2strategy_data_pipel.Watermarks.Ledger.{WatermarkLedger}
use idea2strategy_data_pipel.RealtimeIngest.Json.{Json, Fields, get}
use idea2strategy_data_pipel.RealtimeIngest.Fault.{
  missing_value, not_numeric, not_whole, not_an_integer, wrong_provider, wrong_feed,
  unmapped_instrument, revision_conflict, bad_retention, IngestError, realtime, value_error,
  Platform,
}
use idea2strategy_data_pipel.RealtimeIngest.Event.{MarketEvent, parse_market_event}

-- `BarFieldMap`.
pub record BarFieldMap : Type 0 where
  pub open_ : String
  pub high : String
  pub low : String
  pub close : String
  pub volume : String
  pub trade_count : Option String
  pub vwap : Option String

-- `RealtimeIngestSpec`: what ingestion reads of it.
pub record RealtimeIngestSpec : Type 0 where
  pub event_type : String
  pub source_provider : String
  pub source_feed : String
  pub partition_granularity : Granularity
  pub fields : BarFieldMap

-- One bar, with `float64` prices.
pub record BarRow (F : Type 0) : Type 0 where
  pub instrument_id : String
  pub provider_symbol : String
  pub bar_start_at : ℕ
  pub session_date_et : Date
  pub open_ : F
  pub high : F
  pub low : F
  pub close : F
  pub volume : ℤ
  pub trade_count : Option ℤ
  pub vwap : Option F

-- `_BarSlot`, and the key `(instrument, bar_start)`.
pub record BarSlot : Type 0 where
  pub revision : ℕ
  pub event_id : String
  pub session : Date

abbrev pub SlotKey : Type 0
SlotKey = String × ℕ

-- `(partition_start, partition_end, shard_key)`.
abbrev pub PartitionKey : Type 0
PartitionKey = (Date × Date) × String

pub record RealtimeIngestor (F : Type 0) : Type 0 where
  pub spec : RealtimeIngestSpec
  pub ledger : WatermarkLedger
  pub shard_count : ℕ
  pub dedup_session_retention : ℕ
  pub symbols : Dict String String
  pub buffer : Dict PartitionKey (Dict SlotKey (BarRow F))
  pub seen_event_ids : Dict String Date
  pub slots : Dict SlotKey BarSlot

-- `_BatchOverlay`.
pub record BatchOverlay : Type 0 where
  pub event_ids : List String
  pub slots : Dict SlotKey BarSlot

abbrev pub empty_overlay : BatchOverlay
empty_overlay = record { event_ids = []; slots = [] }

-- The reasons of an `IngestDecision`.
pub data Reason : Type 0 where
  non_bar_event_type event_type_not_ingested duplicate_event superseded_revision : Reason
  correction_applied accepted_new accepted_late : Reason

-- `_PreparedEvent`: a rejection, or the bar that the event becomes.
pub data PreparedEvent (F D : Type 0) : Type 0 where
  rejected : MarketEvent F D → String → Reason → PreparedEvent F D
  accepted : MarketEvent F D → String → BarRow F → Date → SlotKey → PreparedEvent F D

-- `RealtimeIngestor.__init__`, with the symbols of the engine's mappings.
unfoldable pub realtime_ingestor :
    {F : Type 0}
    → RealtimeIngestSpec
    → WatermarkLedger
    → ℕ
    → ℕ
    → Dict String String
    → Result IngestError (RealtimeIngestor F)
realtime_ingestor spec ledger shard_count retention symbols =
    if ltb retention 1
    then err (realtime bad_retention)
    else ok (record {
      spec = spec;
      ledger = ledger;
      shard_count = shard_count;
      dedup_session_retention = retention;
      symbols = symbols;
      buffer = [];
      seen_event_ids = [];
      slots = [];
    })

unfoldable pub shard_key_of : Result ShardError String → Result IngestError String
shard_key_of (ok key) = ok key
shard_key_of (err e) = err value_error

module _ {F D : Type 0} (platform : Platform F D) where
  -- `_number` on the value of a field.
  number_of : String → Option (Json F D) → Result IngestError F
  number_of key none = err (realtime (missing_value key))
  number_of key (some (Json.decimal d)) = ok (platform.float_of_decimal d)
  number_of key (some (Json.int n)) = ok (platform.float_of_int n)
  number_of key (some (Json.float f)) = ok f
  number_of key (some _) = err (realtime (not_numeric key))

  whole_of : String → Option ℤ → Result IngestError ℤ
  whole_of key none = err (realtime (not_whole key))
  whole_of key (some n) = ok n

  -- `_integer` on the value of a field.
  integer_of : String → Option (Json F D) → Result IngestError ℤ
  unfolding whole_of
  integer_of key none = err (realtime (missing_value key))
  integer_of key (some (Json.decimal d)) = whole_of key (platform.whole_value d)
  integer_of key (some (Json.int n)) = ok n
  integer_of key (some _) = err (realtime (not_an_integer key))

  optional_number : Option String → Fields F D → Result IngestError (Option F)
  optional_number none values = ok none
  optional_number (some source) values = do n ← number_of source (get source values); ok (some n)

  optional_integer : Option String → Fields F D → Result IngestError (Option ℤ)
  optional_integer none values = ok none
  optional_integer (some source) values = do n ← integer_of source (get source values); ok (some n)

  -- `_bar_row`.
  unfoldable pub bar_row :
      BarFieldMap → String → String → ℕ → Fields F D → Result IngestError (BarRow F)
  unfolding number_of integer_of optional_number optional_integer
  bar_row fields instrument_id symbol bar_start values = do
    open_ ← number_of fields.open_ (get fields.open_ values)
    high ← number_of fields.high (get fields.high values)
    low ← number_of fields.low (get fields.low values)
    close ← number_of fields.close (get fields.close values)
    volume ← integer_of fields.volume (get fields.volume values)
    trade_count ← optional_integer fields.trade_count values
    vwap ← optional_number fields.vwap values
    ok (record {
      instrument_id = instrument_id;
      provider_symbol = symbol;
      bar_start_at = bar_start;
      session_date_et = platform.date_et bar_start;
      open_ = open_;
      high = high;
      low = low;
      close = close;
      volume = volume;
      trade_count = trade_count;
      vwap = vwap;
    })

  -- `NON_BAR_EVENT_TYPES`, and the reason for an event of another type.
  abbrev pub other_type_reason : String → Reason
  other_type_reason event_type =
      if (event_type == "QUOTE") || (event_type == "TRADE")
      then non_bar_event_type
      else event_type_not_ingested

  -- The part of `_prepare` from the bar row on.
  unfoldable pub admit :
      RealtimeIngestor F
      → BatchOverlay
      → MarketEvent F D
      → String
      → String
      → Result IngestError (PreparedEvent F D × BatchOverlay)
  admit s overlay e symbol shard_key = do
    let session = platform.date_et e.occurred_at
    row ← bar_row s.spec.fields e.instrument_id symbol e.occurred_at e.values
    let slot : BarSlot = record { revision = e.revision; event_id = e.event_id; session = session }
    ok (
      accepted e shard_key row session (e.instrument_id, e.occurred_at),
      record {
        event_ids = e.event_id ∷ overlay.event_ids;
        slots = insert (e.instrument_id, e.occurred_at) slot overlay.slots;
      },
    )

  -- The comparison with what is held for the bar.
  unfoldable pub against_held :
      RealtimeIngestor F
      → BatchOverlay
      → MarketEvent F D
      → String
      → String
      → Option BarSlot
      → Result IngestError (PreparedEvent F D × BatchOverlay)
  unfolding admit
  against_held s overlay e symbol shard_key none = admit s overlay e symbol shard_key
  against_held s overlay e symbol shard_key (some held) =
      if ltb e.revision held.revision
      then ok (rejected e shard_key superseded_revision, overlay)
      else if nat_beq e.revision held.revision
      then err (realtime (revision_conflict e.event_id held.event_id))
      else admit s overlay e symbol shard_key

  -- `_prepare` after the parse.
  unfoldable pub prepare_parsed :
      Hashing
      → RealtimeIngestor F
      → BatchOverlay
      → MarketEvent F D
      → Result IngestError (PreparedEvent F D × BatchOverlay)
  unfolding against_held shard_key_of
  prepare_parsed hashing s overlay e = do
    guard (e.provider == s.spec.source_provider) (realtime (wrong_provider e.provider))
    guard (e.feed == s.spec.source_feed) (realtime (wrong_feed e.feed))
    symbol ←
        or_raise (lookup e.instrument_id s.symbols) (realtime (unmapped_instrument e.instrument_id))
    shard_key ← shard_key_of (stable_shard_key hashing e.instrument_id s.shard_count)
    if not (e.event_type == s.spec.event_type)
        then ok (rejected e shard_key (other_type_reason e.event_type), overlay)
        else if has e.event_id s.seen_event_ids || contains overlay.event_ids e.event_id
        then ok (rejected e shard_key duplicate_event, overlay)
        else against_held s overlay e symbol shard_key (
            or_else (lookup (e.instrument_id, e.occurred_at) overlay.slots)
              (lookup (e.instrument_id, e.occurred_at) s.slots))

  -- `_prepare`.
  unfoldable pub prepare :
      Hashing
      → RealtimeIngestor F
      → BatchOverlay
      → Json F D
      → Result IngestError (PreparedEvent F D × BatchOverlay)
  prepare hashing s overlay event = do
    e ← parse_market_event platform event
    prepare_parsed hashing s overlay e
