-- ===== src/Watermarks/Row.antt =====
-- `StreamWatermark` of market_pipeline_lib/watermarks.py, and the record that its row holds.
use idea2strategy_data_pipel.Prelude.{
  ℕ, String, ◌≡◌, false, Option, none, some, arith, if◌then◌else◌,
}
use idea2strategy_data_pipel.Prelude.Int.{ℤ}
use idea2strategy_data_pipel.Prelude.Eq.{◌==◌, string_eq}
use idea2strategy_data_pipel.Prelude.Result.{Result, ok, err, ◌>>=◌}
use idea2strategy_data_pipel.Watermarks.Position.{
  DateTime, aware, WatermarkError, empty_feed_id, StreamPosition, as_utc, stream_position,
}

pub record StreamWatermark : Type 0 where
  pub feed_id : String
  pub position : StreamPosition
  pub ingested_at : ℕ
  pub updated_at : Option ℕ

optional_utc : Option DateTime → Result WatermarkError (Option ℕ)
optional_utc none = ok none
optional_utc (some t) = do u ← as_utc t; ok (some u)

-- `StreamWatermark(...)` with its `__post_init__`.
unfoldable pub stream_watermark :
    String → StreamPosition → DateTime → Option DateTime → Result WatermarkError StreamWatermark
unfolding as_utc optional_utc
stream_watermark feed_id position ingested_at updated_at =
    if feed_id == "" then err empty_feed_id else do
      ingested ← as_utc ingested_at
      updated ← optional_utc updated_at
      ok (record {
        feed_id = feed_id;
        position = position;
        ingested_at = ingested;
        updated_at = updated;
      })

-- The record of `as_record`, also the argument of `from_record`.
pub record WatermarkRecord : Type 0 where
  pub feed_id : String
  pub last_source_event_at : DateTime
  pub last_ingested_at : DateTime
  pub last_sequence : Option ℤ
  pub updated_at : DateTime

-- `self.updated_at or self.ingested_at`: a datetime is never falsy.
abbrev pub updated_or_ingested : StreamWatermark → ℕ
updated_or_ingested w = elim w.updated_at [ none ↦ w.ingested_at | some t ↦ t ]

unfoldable pub as_record : StreamWatermark → WatermarkRecord
as_record w = record {
  feed_id = w.feed_id;
  last_source_event_at = aware w.position.source_event_at;
  last_ingested_at = aware w.ingested_at;
  last_sequence = w.position.sequence;
  updated_at = aware (updated_or_ingested w);
}

unfoldable pub from_record : WatermarkRecord → Result WatermarkError StreamWatermark
unfolding stream_watermark stream_position as_utc
from_record r = do
  source ← as_utc r.last_source_event_at
  position ← stream_position (aware source) r.last_sequence
  ingested ← as_utc r.last_ingested_at
  updated ← as_utc r.updated_at
  stream_watermark r.feed_id position (aware ingested) (some (aware updated))

-- `replace(watermark, updated_at=watermark.updated_at or watermark.ingested_at)`.
abbrev pub effective : StreamWatermark → StreamWatermark
effective w = record w { updated_at = some (updated_or_ingested w) }

-- A watermark with a feed comes back from its record, with `updated_at` filled in.
pub from_record-as_record :
    (w : StreamWatermark) → (w.feed_id == "") ≡ false → from_record (as_record w) ≡ ok (effective w)
unfolding from_record as_record
from_record-as_record w h = ground arith
