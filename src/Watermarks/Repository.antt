-- ===== src/Watermarks/Repository.antt =====
-- The repositories of market_pipeline_lib/watermarks.py: the port with its advance-only contract,
-- and `InMemoryWatermarkRepository`, which fills it.
use idea2strategy_data_pipel.Prelude.{
  String, ◌≡◌, ◌≢◌, Option, none, some, List, [], ◌∷◌, arith, if◌then◌else◌,
}
use idea2strategy_data_pipel.Prelude.Eq.{string_eq, beq_ne}
use idea2strategy_data_pipel.Prelude.Dict.{Dict, lookup, insert, lookup-insert, lookup-insert_self}
use idea2strategy_data_pipel.Watermarks.Position.{le}
use idea2strategy_data_pipel.Watermarks.Row.{StreamWatermark, effective}

-- What `advance` stores: the stored watermark if it is as new, else the written one.
abbrev pub keep_newer : Option StreamWatermark → StreamWatermark → StreamWatermark
keep_newer none w = effective w
keep_newer (some s) w = if le w.position s.position then s else effective w

-- The port `WatermarkRepository`, as operations on a store `R` with the contract of its docstrings.
pub record WatermarkRepository (R : Type 0) : Type 0 where
  pub load : R → String → Option StreamWatermark
  pub advance : R → StreamWatermark → StreamWatermark × R
  pub advance_returns :
      (r : R) (w : StreamWatermark) → (advance r w).0 ≡ keep_newer (load r w.feed_id) w
  pub load-advance :
      (r : R) (w : StreamWatermark) → load (advance r w).1 w.feed_id ≡ some (advance r w).0
  pub load-advance_ne :
      (r : R) (w : StreamWatermark) (f : String) → w.feed_id ≢ f → load (advance r w).1 f ≡ load r f

-- The field `_rows`.
abbrev pub Rows : Type 0
Rows = Dict String StreamWatermark

-- `InMemoryWatermarkRepository.__init__`: of two rows of a feed the later one stays.
unfoldable pub initial_rows : List StreamWatermark → Rows → Rows
initial_rows [] rows = rows
initial_rows (w ∷ ws) rows = initial_rows ws (insert w.feed_id w rows)

-- `InMemoryWatermarkRepository.load`.
unfoldable pub memory_load : Rows → String → Option StreamWatermark
memory_load rows feed_id = lookup feed_id rows

store_newer : Option StreamWatermark → Rows → StreamWatermark → StreamWatermark × Rows
store_newer none rows w = (effective w, insert w.feed_id (effective w) rows)
store_newer (some s) rows w =
    if le w.position s.position
    then (s, rows)
    else (effective w, insert w.feed_id (effective w) rows)

-- `InMemoryWatermarkRepository.advance`.
unfoldable pub memory_advance : Rows → StreamWatermark → StreamWatermark × Rows
unfolding store_newer
memory_advance rows w = store_newer (lookup w.feed_id rows) rows w

pub memory_returns :
    (rows : Rows) (w : StreamWatermark)
    → (memory_advance rows w).0 ≡ keep_newer (memory_load rows w.feed_id) w
unfolding memory_advance memory_load
memory_returns rows w = ground arith

pub memory_load-advance :
    (rows : Rows) (w : StreamWatermark)
    → memory_load (memory_advance rows w).1 w.feed_id ≡ some (memory_advance rows w).0
unfolding memory_advance memory_load
memory_load-advance rows w = ground (arith, lookup-insert_self w.feed_id (effective w) rows)

pub memory_load-advance_ne :
    (rows : Rows) (w : StreamWatermark) (f : String)
    → w.feed_id ≢ f
    → memory_load (memory_advance rows w).1 f ≡ memory_load rows f
unfolding memory_advance memory_load
memory_load-advance_ne rows w f h =
    ground (arith, lookup-insert w.feed_id f (effective w) rows, beq_ne w.feed_id f h)

-- The in-memory repository meets the contract of the port.
instance abbrev pub in_memory : WatermarkRepository Rows
in_memory = record {
  load = memory_load;
  advance = memory_advance;
  advance_returns = memory_returns;
  load-advance = memory_load-advance;
  load-advance_ne = memory_load-advance_ne;
}
