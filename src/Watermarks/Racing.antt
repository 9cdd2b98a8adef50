-- ===== src/Watermarks/Racing.antt =====
-- Writes of several workers to one table through `SqlWatermarkRepository` of
-- market_pipeline_lib/watermarks.py, in whatever order their transactions are carried out.
use mathlib.Core.Bool.{false≢true}
use idea2strategy_data_pipel.Prelude.{
  String, ◌≡◌, inl, inr, ◌⊎◌, false, Option, none, some, List, [], ◌∷◌, refl, Bool-cases, All, ap,
  sym, ◌∙◌, subst,
}
use idea2strategy_data_pipel.Prelude.Among.{Among}
use idea2strategy_data_pipel.Prelude.Eq.{string_eq, ◌==◌}
use idea2strategy_data_pipel.Prelude.Dict.{lookup}
use idea2strategy_data_pipel.Prelude.Result.{Result, ok, ◌>>=◌}
use idea2strategy_data_pipel.Watermarks.Position.{StreamPosition, WatermarkError, le}
use idea2strategy_data_pipel.Watermarks.Row.{StreamWatermark}
use idea2strategy_data_pipel.Watermarks.Repository.{
  WatermarkRepository, Rows, memory_load, memory_advance, keep_newer, in_memory,
}
use idea2strategy_data_pipel.Watermarks.Ledger.{position_of, stored_position}
use idea2strategy_data_pipel.Watermarks.Heads.{AtLeast, AtLeast-refl, AtLeast-trans}
use idea2strategy_data_pipel.Watermarks.Monotone.{advance-never_regresses}
use idea2strategy_data_pipel.Watermarks.Sql.{
  Table, SameRows, as_watermark, row_watermark, sql_advance, sql_advance-memory_advance,
}

-- What a repository holds of a feed after a write: what it held, or the written position.
abbrev pub IsWrittenOr :
    Option StreamPosition → String → List StreamWatermark → Option StreamPosition → Type 0
IsWrittenOr before f ws after =
    (after ≡ before)
    ⊎ ((w : StreamWatermark) × Among w ws × (w.feed_id ≡ f) × (after ≡ some w.position))

keep_newer-either :
    (o : Option StreamWatermark) (w : StreamWatermark)
    → (position_of (some (keep_newer o w)) ≡ position_of o)
      ⊎ (position_of (some (keep_newer o w)) ≡ some w.position)
keep_newer-either none w = inr refl
keep_newer-either (some s) w = elim (Bool-cases (le w.position s.position)) [
  | inl older ↦ inl (rw older refl)
  | inr newer ↦ inr (rw newer refl)
]

module _ {R : Type 0} (repo : WatermarkRepository R) where
  open repo use {load, advance, advance_returns, load-advance, load-advance_ne}

  abbrev run : R → List StreamWatermark → R
  run r [] = r
  run r (w ∷ ws) = run (advance r w).1 ws

  run-keeps :
      (r : R) (ws : List StreamWatermark) (f : String)
      → AtLeast (stored_position repo (run r ws) f) (stored_position repo r f)
  run-keeps r [] f = AtLeast-refl (stored_position repo r f)
  run-keeps r (w ∷ ws) f =
      AtLeast-trans (stored_position repo (run r (w ∷ ws)) f)
        (stored_position repo (advance r w).1 f) (stored_position repo r f)
        (run-keeps (advance r w).1 ws f) (advance-never_regresses repo r w f).0

  run-reaches :
      (r : R) (ws : List StreamWatermark)
      → All
          (λ (w : StreamWatermark).
            AtLeast (stored_position repo (run r ws) w.feed_id) (some w.position))
          ws
  run-reaches r [] = tt
  run-reaches r (w ∷ ws) = (
    AtLeast-trans (stored_position repo (run r (w ∷ ws)) w.feed_id)
        (stored_position repo (advance r w).1 w.feed_id) (some w.position)
        (run-keeps (advance r w).1 ws w.feed_id) (advance-never_regresses repo r w w.feed_id).1,
    run-reaches (advance r w).1 ws,
  )

  advance-written_self :
      (r : R) (w : StreamWatermark)
      → (stored_position repo (advance r w).1 w.feed_id ≡ stored_position repo r w.feed_id)
        ⊎ (stored_position repo (advance r w).1 w.feed_id ≡ some w.position)
  advance-written_self r w =
      rw (load-advance r w, advance_returns r w) (keep_newer-either (load r w.feed_id) w)

  advance-written :
      (r : R) (w : StreamWatermark) (f : String)
      → (stored_position repo (advance r w).1 f ≡ stored_position repo r f)
        ⊎ ((w.feed_id ≡ f) × (stored_position repo (advance r w).1 f ≡ some w.position))
  advance-written r w f = elim (Bool-cases (string_eq.beq w.feed_id f)) [
    | inr other ↦ inl (
        ap position_of (
          load-advance_ne r w f
            (λ e. false≢true (sym other ∙ (string_eq.beq_iff w.feed_id f).1 e))))
    | inl same ↦
        let e : w.feed_id ≡ f = (string_eq.beq_iff w.feed_id f).0 same in
        elim (advance-written_self r w) [
          | inl kept ↦ inl (
              subst (λ g. stored_position repo (advance r w).1 g ≡ stored_position repo r g) e kept)
          | inr wrote ↦
              inr (e, subst (λ g. stored_position repo (advance r w).1 g ≡ some w.position) e wrote)
        ]
  ]

  run-written :
      (r : R) (ws : List StreamWatermark) (f : String)
      → IsWrittenOr (stored_position repo r f) f ws (stored_position repo (run r ws) f)
  run-written r [] f = inl refl
  run-written r (w ∷ ws) f = elim (run-written (advance r w).1 ws f) [
    | inr (v, later, its_feed, end) ↦ inr (v, inr later, its_feed, end)
    | inl kept ↦ elim (advance-written r w f) [
      | inl as_before ↦ inl (kept ∙ as_before)
      | inr (its_feed, wrote) ↦ inr (w, inl refl, its_feed, kept ∙ wrote)
    ]
  ]

-- The transactions of the workers, one after another.
unfoldable pub sql_advances :
    (String → Option String) → Table → List StreamWatermark → Result WatermarkError Table
sql_advances canonical_uuid table [] = ok table
sql_advances canonical_uuid table (w ∷ ws) = do
  (_, table') ← sql_advance canonical_uuid table w
  sql_advances canonical_uuid table' ws

-- The feed of a watermark is a UUID in canonical form.
abbrev pub IsWritable : (String → Option String) → StreamWatermark → Type 0
IsWritable canonical_uuid w =
    (canonical_uuid w.feed_id ≡ some w.feed_id) × ((w.feed_id == "") ≡ false)

-- The position that a table holds of a feed.
abbrev pub row_position : Table → String → Option StreamPosition
row_position table f = position_of (as_watermark f (lookup f table))

abbrev rows_of : Table → Rows
rows_of [] = []
rows_of ((f, row) ∷ table) = (f, row_watermark f row) ∷ rows_of table

lookup-rows_of :
    (table : Table) (f : String) → lookup f (rows_of table) ≡ as_watermark f (lookup f table)
lookup-rows_of [] f = refl
lookup-rows_of ((g, row) ∷ table) f = elim (Bool-cases (string_eq.beq g f)) [
  | inl same ↦ rw same rw ((string_eq.beq_iff g f).0 same) refl
  | inr other ↦ rw other (lookup-rows_of table f)
]

rows_of-SameRows : (table : Table) → SameRows table (rows_of table)
unfolding memory_load
rows_of-SameRows table = record { same = lookup-rows_of table }

row_position-stored :
    (table : Table) (rows : Rows) (f : String)
    → SameRows table rows
    → stored_position in_memory rows f ≡ row_position table f
row_position-stored table rows f s = ap position_of (s.same f)

reached :
    (table : Table) (rows : Rows) (ws : List StreamWatermark)
    → SameRows table rows
    → All
        (λ (w : StreamWatermark).
          AtLeast (stored_position in_memory rows w.feed_id) (some w.position))
        ws
    → All (λ (w : StreamWatermark). AtLeast (row_position table w.feed_id) (some w.position)) ws
reached table rows [] same all = tt
reached table rows (w ∷ ws) same (one, more) = (
  subst (λ o. AtLeast o (some w.position)) (row_position-stored table rows w.feed_id same) one,
  reached table rows ws same more,
)

module _ (canonical_uuid : String → Option String) where
  sql_advances-SameRows :
      (table : Table) (rows : Rows) (ws : List StreamWatermark)
      → SameRows table rows
      → All (IsWritable canonical_uuid) ws
      → (table' : Table) × (sql_advances canonical_uuid table ws ≡ ok table')
        × SameRows table' (run in_memory rows ws)
  unfolding sql_advances
  sql_advances-SameRows table rows [] same writable = (table, refl, same)
  sql_advances-SameRows table rows (w ∷ ws) same (one, more) =
      let (table1, wrote, same1) =
        sql_advance-memory_advance canonical_uuid table rows w same one.0 one.1 in
      let (table', wrote_all, same') =
        sql_advances-SameRows table1 (memory_advance rows w).1 ws same1 more in
      (table', rw (sql_advances, wrote) wrote_all, same')

  -- Whatever writes are carried out on a table, in whatever order, for feeds that are UUIDs in canonical
  -- form: all of them return; the position of no feed moves back; the position of each written feed is
  -- at least every written one for it; and the position of a feed is the one from before or one that
  -- was written for it.
  pub sql_advances-keeps_newest :
      (table : Table) (ws : List StreamWatermark) (f : String)
      → All (IsWritable canonical_uuid) ws
      → (table' : Table) × (sql_advances canonical_uuid table ws ≡ ok table')
        × AtLeast (row_position table' f) (row_position table f)
        × All
            (λ (w : StreamWatermark). AtLeast (row_position table' w.feed_id) (some w.position))
            ws
        × IsWrittenOr (row_position table f) f ws (row_position table' f)
  sql_advances-keeps_newest table ws f writable =
      let rows = rows_of table in
      let (table', wrote, same') =
        sql_advances-SameRows table rows ws (rows_of-SameRows table) writable in
      let before = row_position-stored table rows f (rows_of-SameRows table) in
      let after = row_position-stored table' (run in_memory rows ws) f same' in
      (
        table',
        wrote,
        subst (λ o. AtLeast o (row_position table f)) after
            (subst (AtLeast (stored_position in_memory (run in_memory rows ws) f)) before
              (run-keeps in_memory rows ws f)),
        reached table' (run in_memory rows ws) ws same' (run-reaches in_memory rows ws),
        subst (IsWrittenOr (row_position table f) f ws) after (
            subst (λ o. IsWrittenOr o f ws (stored_position in_memory (run in_memory rows ws) f))
              before (run-written in_memory rows ws f)),
      )
