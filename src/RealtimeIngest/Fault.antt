-- ===== src/RealtimeIngest/Fault.antt =====
-- What the realtime path raises, and the facilities of Python and its libraries that it calls.
use idea2strategy_data_pipel.Prelude.{ℕ, String, Option, List}
use idea2strategy_data_pipel.Prelude.Int.{ℤ}
use idea2strategy_data_pipel.Contracts.Calendar.{Date}
use idea2strategy_data_pipel.Watermarks.Position.{DateTime, WatermarkError}

-- The causes of a `RealtimeIngestError`.
pub data RealtimeFault : Type 0 where
  not_an_object : RealtimeFault
  missing_fields : List String → RealtimeFault
  not_a_text : String → RealtimeFault
  not_a_timestamp : String → RealtimeFault
  no_offset : String → RealtimeFault
  received_before_occurred : RealtimeFault
  bad_sequence : RealtimeFault
  bad_revision : RealtimeFault
  correction_of_original : RealtimeFault
  correction_missing : RealtimeFault
  bad_values : RealtimeFault
  missing_value : String → RealtimeFault
  not_numeric : String → RealtimeFault
  not_whole : String → RealtimeFault
  not_an_integer : String → RealtimeFault
  wrong_provider : String → RealtimeFault
  wrong_feed : String → RealtimeFault
  unmapped_instrument : String → RealtimeFault
  revision_conflict : String → String → RealtimeFault
  bad_spec : RealtimeFault
  bad_retention : RealtimeFault
  bad_body : RealtimeFault
  event_not_an_object : RealtimeFault
  bad_limit : RealtimeFault

-- An exception of the ingestor: `RealtimeIngestError`, its subclass `UnsupportedEventVersion`, or
-- any other, here a `ValueError` of the shard key or an error of the watermark ledger.
pub data IngestError : Type 0 where
  realtime : RealtimeFault → IngestError
  unsupported_event_version : IngestError
  value_error : IngestError
  watermark : WatermarkError → IngestError

-- `datetime.fromisoformat`, the conversions to `float`, the whole value of a `Decimal` if it has one,
-- and the date in `America/New_York` of an instant.
pub record Platform (F D : Type 0) : Type 0 where
  pub fromisoformat : String → Option DateTime
  pub float_of_int : ℤ → F
  pub float_of_decimal : D → F
  pub whole_value : D → Option ℤ
  pub date_et : ℕ → Date
