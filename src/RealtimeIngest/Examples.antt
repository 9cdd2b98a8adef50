-- ===== src/RealtimeIngest/Examples.antt =====
-- One stream with one instrument, and messages for it (market_pipeline_lib/realtime_ingest.py).
use idea2strategy_data_pipel.Prelude.{
  ℕ, String, ◌≡◌, refl, arith, Option, none, some, [], ◌∷◌, if◌then◌else◌,
}
use idea2strategy_data_pipel.Prelude.Int.{pos}
use idea2strategy_data_pipel.Prelude.Text.{strip}
use idea2strategy_data_pipel.Prelude.Eq.{string_eq, pair_eq, nat_eq}
use idea2strategy_data_pipel.Prelude.Result.{ok}
use idea2strategy_data_pipel.Contracts.Calendar.{Date, date_eq}
use idea2strategy_data_pipel.Contracts.Partition.{day}
use idea2strategy_data_pipel.Contracts.Shard.{
  Hashing, stable_shard_key, stable_shard_number, shard_name,
}
use idea2strategy_data_pipel.Watermarks.Position.{aware}
use idea2strategy_data_pipel.Watermarks.Ledger.{WatermarkLedger}
use idea2strategy_data_pipel.RealtimeIngest.Json
use idea2strategy_data_pipel.RealtimeIngest.Json.{Json, Fields}
use idea2strategy_data_pipel.RealtimeIngest.Fault.{Platform}
use idea2strategy_data_pipel.RealtimeIngest.Event.{MarketEvent, parse_market_event, with_offset}
use idea2strategy_data_pipel.RealtimeIngest.Envelope.{
  IsEnvelope, parse_market_event-IsEnvelope, envelope, IsStamp, IsTrimmed,
  parse_market_event-envelope,
}
use idea2strategy_data_pipel.RealtimeIngest.Ingestor.{
  BarRow, RealtimeIngestor, BatchOverlay, empty_overlay, PreparedEvent, accepted, bar_row, admit,
  against_held, shard_key_of, prepare_parsed,
}

-- Instants are written as anything and read as 5; a whole number of the two number types is itself.
abbrev pub platform : Platform ℕ ℕ
platform = record {
  fromisoformat = λ s. some (aware 5);
  float_of_int = λ n. 0;
  float_of_decimal = λ d. d;
  whole_value = λ d. some (pos d);
  date_et = λ t. record { year = 2024; month = 1; day = 2 };
}

abbrev pub hashing : Hashing
hashing = record {
  canonical_uuid = λ s. some s;
  sha256_head = λ s. if string_eq.beq s "i" then 0 else 1;
}

abbrev pub bar_values : Fields ℕ ℕ
bar_values = Json.field "o" (Json.float 1) (
    Json.field "h" (Json.float 3) (
      Json.field "l" (Json.float 1)
        (Json.field "c" (Json.float 2) (Json.field "v" (Json.int (pos 7)) Json.end))))

abbrev pub event_of : String → String → ℕ → Option String → MarketEvent ℕ ℕ
event_of id instrument revision correction = record {
  event_id = id;
  schema_version = pos 1;
  instrument_id = instrument;
  provider = "P";
  feed = "F";
  event_type = "BAR";
  provider_event_id = "x";
  occurred_at = 5;
  received_at = 5;
  sequence = 1;
  revision = revision;
  correction_of_event_id = correction;
  values = bar_values;
}

abbrev pub event : MarketEvent ℕ ℕ
event = event_of "e1" "i" 0 none

abbrev pub stamp : ℕ → String
stamp t = "T"

event-IsEnvelope : IsEnvelope event
event-IsEnvelope = record {
  version = refl;
  in_order = omega arith;
  corrects = refl;
  carries_values = refl;
  named = refl;
  instrument = refl;
  from_provider = refl;
  from_feed = refl;
  typed = refl;
  provider_named = refl;
}

event-IsTrimmed : IsTrimmed event
unfolding strip
event-IsTrimmed = record {
  event_id = refl;
  instrument_id = refl;
  provider = refl;
  feed = refl;
  event_type = refl;
  provider_event_id = refl;
  correction = tt;
}

event-IsStamp : IsStamp platform stamp 5
unfolding strip with_offset
event-IsStamp = record { trimmed = refl; named = refl; read = refl }

parse_market_event-envelope_example :
    parse_market_event platform (envelope platform stamp event) ≡ ok event
parse_market_event-envelope_example =
    parse_market_event-envelope platform stamp event event-IsStamp event-IsStamp event-IsEnvelope
      event-IsTrimmed

pub parsed_test : parse_market_event platform (envelope platform stamp event) ≡ ok event
parsed_test =
    parse_market_event-envelope platform stamp event event-IsStamp event-IsStamp event-IsEnvelope
      event-IsTrimmed

parse_market_event-IsEnvelope_example : IsEnvelope event × IsTrimmed event
parse_market_event-IsEnvelope_example =
    parse_market_event-IsEnvelope platform (envelope platform stamp event) event parsed_test

-- The ledger declares the first of two shards.
abbrev pub ledger : WatermarkLedger
ledger = record {
  feed_id = "f";
  shard_keys = "s00-of-2" ∷ [];
  resumed_from = none;
  heads = ("s00-of-2", none) ∷ [];
}

abbrev pub ingestor : RealtimeIngestor ℕ
ingestor = record {
  spec = record {
    event_type = "BAR";
    source_provider = "P";
    source_feed = "F";
    partition_granularity = day;
    fields = record {
      open_ = "o";
      high = "h";
      low = "l";
      close = "c";
      volume = "v";
      trade_count = none;
      vwap = none;
    };
  };
  ledger = ledger;
  shard_count = 2;
  dedup_session_retention = 2;
  symbols = ("i", "I") ∷ ("j", "J") ∷ [];
  buffer = [];
  seen_event_ids = [];
  slots = [];
}

abbrev pub row_of : String → String → BarRow ℕ
row_of instrument symbol = record {
  instrument_id = instrument;
  provider_symbol = symbol;
  bar_start_at = 5;
  session_date_et = record { year = 2024; month = 1; day = 2 };
  open_ = 1;
  high = 3;
  low = 1;
  close = 2;
  volume = pos 7;
  trade_count = none;
  vwap = none;
}

abbrev pub trading_day : Date
trading_day = record { year = 2024; month = 1; day = 2 }

abbrev pub first : PreparedEvent ℕ ℕ
first = accepted event "s00-of-2" (row_of "i" "I") trading_day ("i", 5)

pub first_test :
    prepare_parsed platform hashing ingestor empty_overlay event
    ≡ ok (
      first,
      record {
        event_ids = "e1" ∷ [];
        slots = (("i", 5), record { revision = 0; event_id = "e1"; session = trading_day }) ∷ [];
      },
    )
unfolding prepare_parsed against_held admit shard_key_of bar_row stable_shard_key
    stable_shard_number shard_name
first_test = refl

abbrev pub other : MarketEvent ℕ ℕ
other = event_of "e9" "j" 0 none

other-IsEnvelope : IsEnvelope other
other-IsEnvelope = record {
  version = refl;
  in_order = omega arith;
  corrects = refl;
  carries_values = refl;
  named = refl;
  instrument = refl;
  from_provider = refl;
  from_feed = refl;
  typed = refl;
  provider_named = refl;
}

other-IsTrimmed : IsTrimmed other
unfolding strip
other-IsTrimmed = record {
  event_id = refl;
  instrument_id = refl;
  provider = refl;
  feed = refl;
  event_type = refl;
  provider_event_id = refl;
  correction = tt;
}

pub other_parsed_test : parse_market_event platform (envelope platform stamp other) ≡ ok other
other_parsed_test =
    parse_market_event-envelope platform stamp other event-IsStamp event-IsStamp other-IsEnvelope
      other-IsTrimmed

pub other_test :
    (ov : BatchOverlay) × (prepare_parsed platform hashing ingestor
        (record {
          event_ids = "e1" ∷ [];
          slots = (("i", 5), record { revision = 0; event_id = "e1"; session = trading_day }) ∷ [];
        })
        other
      ≡ ok (accepted other "s01-of-2" (row_of "j" "J") trading_day ("j", 5), ov))
unfolding prepare_parsed against_held admit shard_key_of bar_row stable_shard_key
    stable_shard_number shard_name
other_test = (
  record {
    event_ids = "e9" ∷ "e1" ∷ [];
    slots =
        (("i", 5), record { revision = 0; event_id = "e1"; session = trading_day })
        ∷ (("j", 5), record { revision = 0; event_id = "e9"; session = trading_day })
        ∷ [];
  },
  refl,
)
