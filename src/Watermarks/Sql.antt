-- ===== src/Watermarks/Sql.antt =====
-- `SqlWatermarkRepository` of market_pipeline_lib/watermarks.py: the advance-only rule as one
-- `INSERT ... ON CONFLICT DO UPDATE ... WHERE ... RETURNING` statement.
use idea2strategy_data_pipel.Prelude.{
  ℕ, String, ◌≡◌, Bool, false, ◌&&◌, ◌||◌, Option, none, some, arith, ltb, ◌==◌ as nat_beq,
  if◌then◌else◌,
}
use idea2strategy_data_pipel.Prelude.Int.{ℤ, ltb_ℤ}
use idea2strategy_data_pipel.Prelude.Eq.{string_eq, ◌==◌}
use idea2strategy_data_pipel.Prelude.Dict.{Dict, lookup, insert, lookup-insert, lookup-insert_self}
use idea2strategy_data_pipel.Prelude.Result.{Result, ok, ◌>>=◌, or_raise}
use idea2strategy_data_pipel.Watermarks.Position.{
  aware, WatermarkError, row_vanished, not_a_uuid, sequence_key, as_utc,
}
use idea2strategy_data_pipel.Watermarks.Row.{
  StreamWatermark, WatermarkRecord, as_record, from_record, effective, updated_or_ingested,
}
use idea2strategy_data_pipel.Watermarks.Repository.{Rows, memory_load, memory_advance}

-- A row of `market_data.stream_watermarks`, whose timestamps are instants.
pub record Row : Type 0 where
  pub last_source_event_at : ℕ
  pub last_ingested_at : ℕ
  pub last_sequence : Option ℤ
  pub updated_at : ℕ

-- The table, by its primary key `feed_id`.
abbrev pub Table : Type 0
Table = Dict String Row

-- `from_db_row` on a row: its timestamps carry the timezone UTC.
abbrev pub from_db_row : String → Row → WatermarkRecord
from_db_row feed_id r = record {
  feed_id = feed_id;
  last_source_event_at = aware r.last_source_event_at;
  last_ingested_at = aware r.last_ingested_at;
  last_sequence = r.last_sequence;
  updated_at = aware r.updated_at;
}

-- The `where` of the statement, on the stored row and the excluded one.
unfoldable pub is_newer_row : Row → Row → Bool
is_newer_row current excluded =
    ltb current.last_source_event_at excluded.last_source_event_at
    || nat_beq current.last_source_event_at excluded.last_source_event_at
      && ltb_ℤ (sequence_key current.last_sequence) (sequence_key excluded.last_sequence)

-- `INSERT ... ON CONFLICT (feed_id) DO UPDATE SET <all> = excluded WHERE ... RETURNING *`.
unfoldable pub upsert : Table → String → Row → Option Row × Table
unfolding is_newer_row
upsert table key row = elim (lookup key table) [
  | none ↦ (some row, insert key row table)
  | some current ↦
      if is_newer_row current row then (some row, insert key row table) else (none, table)
]

-- `uuid.UUID(text)` printed back: the canonical form of a UUID, or nothing for any other text.
module _ (canonical_uuid : String → Option String) where
  -- `to_db_params` on the record of a watermark.
  to_db_params : WatermarkRecord → Result WatermarkError (String × Row)
  to_db_params r = do
    key ← or_raise (canonical_uuid r.feed_id) not_a_uuid
    source ← as_utc r.last_source_event_at
    ingested ← as_utc r.last_ingested_at
    updated ← as_utc r.updated_at
    ok (
      key,
      record {
        last_source_event_at = source;
        last_ingested_at = ingested;
        last_sequence = r.last_sequence;
        updated_at = updated;
      },
    )

  load_row : Table → String → Result WatermarkError (Option StreamWatermark)
  load_row table key = elim (lookup key table) [
    | none ↦ ok none
    | some row ↦ (do w ← from_record (from_db_row key row); ok (some w))
  ]

  -- `SqlWatermarkRepository.load`.
  unfoldable pub sql_load : Table → String → Result WatermarkError (Option StreamWatermark)
  unfolding load_row
  sql_load table feed_id = do key ← or_raise (canonical_uuid feed_id) not_a_uuid; load_row table key

  -- The row that `RETURNING` gave, else the one that is read back.
  returned_row : Option Row → Table → String → Result WatermarkError Row
  returned_row none table key = or_raise (lookup key table) row_vanished
  returned_row (some row) table key = ok row

  -- `SqlWatermarkRepository.advance`.
  unfoldable pub sql_advance :
      Table → StreamWatermark → Result WatermarkError (StreamWatermark × Table)
  unfolding to_db_params returned_row as_record as_utc
  sql_advance table watermark = do
    (key, row) ← to_db_params (as_record watermark)
    let (returned, table') = upsert table key row
    stored ← returned_row returned table' key
    w ← from_record (from_db_row key stored)
    ok (w, table')

-- What `from_record` makes of a row.
abbrev pub row_watermark : String → Row → StreamWatermark
row_watermark f row = record {
  feed_id = f;
  position = record { source_event_at = row.last_source_event_at; sequence = row.last_sequence };
  ingested_at = row.last_ingested_at;
  updated_at = some row.updated_at;
}

abbrev row_of : StreamWatermark → Row
row_of w = record {
  last_source_event_at = w.position.source_event_at;
  last_ingested_at = w.ingested_at;
  last_sequence = w.position.sequence;
  updated_at = updated_or_ingested w;
}

abbrev pub as_watermark : String → Option Row → Option StreamWatermark
as_watermark f none = none
as_watermark f (some row) = some (row_watermark f row)

-- A table and in-memory rows hold the same watermark for each feed.
pub record SameRows (table : Table) (rows : Rows) : Type 0 where
  pub same : (f : String) → memory_load rows f ≡ as_watermark f (lookup f table)

upsert-SameRows :
    (table : Table) (rows : Rows) (w : StreamWatermark)
    → SameRows table rows
    → SameRows (upsert table w.feed_id (row_of w)).1 (memory_advance rows w).1
unfolding upsert memory_advance memory_load
upsert-SameRows table rows w s = record {
  same = λ f. ground (
    arith,
    s.same f,
    s.same w.feed_id,
    lookup-insert w.feed_id f (row_of w) table,
    lookup-insert w.feed_id f (effective w) rows,
    string_eq.beq_iff w.feed_id f,
  );
}

module _ (canonical_uuid : String → Option String) where
  sql_advance-returns :
      (table : Table) (rows : Rows) (w : StreamWatermark)
      → SameRows table rows
      → canonical_uuid w.feed_id ≡ some w.feed_id
      → (w.feed_id == "") ≡ false
      → sql_advance canonical_uuid table w
        ≡ ok ((memory_advance rows w).0, (upsert table w.feed_id (row_of w)).1)
  unfolding sql_advance upsert memory_advance memory_load from_record
  sql_advance-returns table rows w s canonical named =
      ground (arith, s.same w.feed_id, lookup-insert_self w.feed_id (row_of w) table)

  -- The SQL repository does exactly what the in-memory one does: on a table that holds the same
  -- watermarks, `advance` returns the same stored watermark and leaves a table that holds the same
  -- watermarks, for a watermark whose feed is a UUID in canonical form.
  pub sql_advance-memory_advance :
      (table : Table) (rows : Rows) (w : StreamWatermark)
      → SameRows table rows
      → canonical_uuid w.feed_id ≡ some w.feed_id
      → (w.feed_id == "") ≡ false
      → (table' : Table) × (sql_advance canonical_uuid table w
          ≡ ok ((memory_advance rows w).0, table'))
        × SameRows table' (memory_advance rows w).1
  sql_advance-memory_advance table rows w s canonical named = (
    (upsert table w.feed_id (row_of w)).1,
    sql_advance-returns table rows w s canonical named,
    upsert-SameRows table rows w s,
  )
