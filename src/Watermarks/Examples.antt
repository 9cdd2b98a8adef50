-- ===== src/Watermarks/Examples.antt =====
-- Concrete watermarks of market_pipeline_lib/watermarks.py.
use idea2strategy_data_pipel.Prelude.{All, String, ◌≡◌, refl, none, some, List, [], ◌∷◌}
use idea2strategy_data_pipel.Prelude.Int.{pos}
use idea2strategy_data_pipel.Prelude.Eq.{string_eq}
use idea2strategy_data_pipel.Prelude.Result.{ok}
use idea2strategy_data_pipel.Watermarks.Position.{StreamPosition}
use idea2strategy_data_pipel.Watermarks.Row.{
  StreamWatermark, from_record, as_record, effective, from_record-as_record,
}
use idea2strategy_data_pipel.Watermarks.Repository.{Rows, memory_advance, memory_load, in_memory}
use idea2strategy_data_pipel.Watermarks.Ledger.{
  WatermarkDecision, advanced, WatermarkLedger, watermark_ledger, from_keys, observe, head_of,
  completion_floor, min_position, resume,
}
use idea2strategy_data_pipel.Watermarks.Heads.{AtLeast, observe-never_rewinds}
use idea2strategy_data_pipel.Watermarks.Restart.{
  Processes, observed, here, next, restart-skips_nothing,
}
use idea2strategy_data_pipel.Watermarks.Sql.{
  Table, SameRows, sql_advance, sql_advance-memory_advance,
}
use idea2strategy_data_pipel.Watermarks.Racing.{
  sql_advances, row_position, IsWrittenOr, sql_advances-keeps_newest,
}

abbrev at_three : StreamPosition
at_three = record { source_event_at = 3; sequence = some (pos 1) }

abbrev at_five : StreamPosition
at_five = record { source_event_at = 5; sequence = none }

abbrev at_nine : StreamPosition
at_nine = record { source_event_at = 9; sequence = some (pos 4) }

abbrev feed_watermark : StreamWatermark
feed_watermark = record { feed_id = "f"; position = at_five; ingested_at = 7; updated_at = none }

abbrev shards : List String
shards = "a" ∷ "b" ∷ []

abbrev resumed : WatermarkLedger
resumed = record {
  feed_id = "f";
  shard_keys = shards;
  resumed_from = some at_five;
  heads = from_keys shards (some at_five);
}

abbrev moved : WatermarkLedger
moved = record resumed { heads = ("b", some at_five) ∷ ("a", some at_nine) ∷ [] }

abbrev told : WatermarkDecision
told = record { shard_key = "a"; outcome = advanced; position = at_nine; head = at_nine }

observe_test : observe resumed "a" at_nine ≡ ok (told, moved)
unfolding observe
observe_test = refl

floor_test : completion_floor moved ≡ some at_five
unfolding completion_floor min_position
floor_test = refl

observe-never_rewinds_example : AtLeast (head_of moved "a") (head_of resumed "a")
observe-never_rewinds_example = observe-never_rewinds resumed "a" at_nine observe_test "a"

abbrev rows : Rows
rows = ("f", feed_watermark) ∷ []

resume_test : resume in_memory rows "f" shards ≡ ok resumed
unfolding resume watermark_ledger memory_load
resume_test = refl

fresh : Processes moved "b" at_nine
unfolding observe
fresh = (
  record { shard_key = "b"; outcome = advanced; position = at_nine; head = at_nine },
  record moved { heads = ("b", some at_nine) ∷ ("a", some at_nine) ∷ [] },
  refl,
  refl,
)

restart-skips_nothing_example : Processes resumed "b" at_nine
restart-skips_nothing_example =
    restart-skips_nothing in_memory rows "f" shards resumed
      (record { ledger = moved; store = rows }) resumed "b" at_nine resume_test
      (next here (observed (record { ledger = resumed; store = rows }) "a" at_nine observe_test))
      resume_test fresh

abbrev empty_table : Table
empty_table = []

abbrev empty_rows : Rows
empty_rows = []

empty-SameRows : SameRows empty_table empty_rows
unfolding memory_load
empty-SameRows = record { same = λ f. refl }

sql_advance-memory_advance_example :
    (table' : Table) × (sql_advance (λ s. some s) empty_table feed_watermark
      ≡ ok ((memory_advance empty_rows feed_watermark).0, table'))
    × SameRows table' (memory_advance empty_rows feed_watermark).1
sql_advance-memory_advance_example =
    sql_advance-memory_advance (λ s. some s) empty_table empty_rows feed_watermark empty-SameRows
      refl refl

abbrev newer_watermark : StreamWatermark
newer_watermark = record feed_watermark { position = at_nine }

abbrev older_watermark : StreamWatermark
older_watermark = record feed_watermark { position = at_three }

-- The table after three writes, of which the last is old.
abbrev writes : List StreamWatermark
writes = feed_watermark ∷ newer_watermark ∷ older_watermark ∷ []

sql_advances-keeps_newest_example :
    (table' : Table) × (sql_advances (λ s. some s) empty_table writes ≡ ok table')
    × AtLeast (row_position table' "f") none
    × All
        (λ (w : StreamWatermark). AtLeast (row_position table' w.feed_id) (some w.position))
        writes
    × IsWrittenOr none "f" writes (row_position table' "f")
sql_advances-keeps_newest_example =
    sql_advances-keeps_newest (λ s. some s) empty_table writes "f"
      ((refl, refl), ((refl, refl), ((refl, refl), tt)))

from_record-as_record_example :
    from_record (as_record feed_watermark) ≡ ok (effective feed_watermark)
from_record-as_record_example = from_record-as_record feed_watermark refl
