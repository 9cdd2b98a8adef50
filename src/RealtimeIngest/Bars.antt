-- ===== src/RealtimeIngest/Bars.antt =====
-- What a call of `submit` that returned has done (market_pipeline_lib/realtime_ingest.py).
use idea2strategy_data_pipel.Prelude.{
  String, ◌<◌, ◌≡◌, ◌⊎◌, inl, inr, true, false, Option, none, some, arith, sym,
}
use idea2strategy_data_pipel.Prelude.Eq.{string_eq, pair_eq, nat_eq}
use idea2strategy_data_pipel.Prelude.Dict.{lookup, lookup-insert_self}
use idea2strategy_data_pipel.Prelude.Result.{ok, Result-cases}
use idea2strategy_data_pipel.Contracts.Calendar.{Date, date_eq}
use idea2strategy_data_pipel.Contracts.Partition.{partition_bounds}
use idea2strategy_data_pipel.Contracts.Shard.{Hashing, stable_shard_key}
use idea2strategy_data_pipel.Watermarks.Ledger.{WatermarkLedger, observe}
use idea2strategy_data_pipel.RealtimeIngest.Json.{Json}
use idea2strategy_data_pipel.RealtimeIngest.Fault.{Platform}
use idea2strategy_data_pipel.RealtimeIngest.Event.{MarketEvent, position, parse_market_event}
use idea2strategy_data_pipel.RealtimeIngest.Ingestor.{
  BarRow, BarSlot, SlotKey, RealtimeIngestor, BatchOverlay, empty_overlay, PreparedEvent, rejected,
  accepted, bar_row, admit, against_held, shard_key_of, prepare_parsed, prepare,
}
use idea2strategy_data_pipel.RealtimeIngest.Commit.{
  IngestDecision, retain, with_bar, store, commit, commit_prepared, submit, rows_at,
}
use idea2strategy_data_pipel.RealtimeIngest.Admission.{prepare_parsed-Routed}
use idea2strategy_data_pipel.RealtimeIngest.Filing.{retain-spec}
use idea2strategy_data_pipel.RealtimeIngest.Batch.{buffered}

module _ {F D : Type 0} (platform : Platform F D) (hashing : Hashing) where
  -- The bar that the state or the batch holds, if any, is of a lower revision.
  abbrev pub IsNewer : Option BarSlot → MarketEvent F D → Type 0
  IsNewer none e = Unit
  IsNewer (some held) e = held.revision < e.revision

  admit-row :
      (s : RealtimeIngestor F) (ov : BatchOverlay) (e : MarketEvent F D) (symbol k : String)
      {e' : MarketEvent F D} {k' : String} {row : BarRow F} {day : Date} {slot : SlotKey}
      {ov' : BatchOverlay}
      → admit platform s ov e symbol k ≡ ok (accepted e' k' row day slot, ov')
      → bar_row platform s.spec.fields e.instrument_id symbol e.occurred_at e.values ≡ ok row
  unfolding admit
  admit-row s ov e symbol k h =
      elim (Result-cases
        (bar_row platform s.spec.fields e.instrument_id symbol e.occurred_at e.values)) [
          | inl (row, made) ↦ ground arith
          | inr (x, refused) ↦ ground arith
        ]

  against_held-IsNewer :
      (s : RealtimeIngestor F) (ov : BatchOverlay) (e : MarketEvent F D) (symbol k : String)
      (o : Option BarSlot) {e' : MarketEvent F D} {k' : String} {row : BarRow F} {day : Date}
      {slot : SlotKey} {ov' : BatchOverlay}
      → against_held platform s ov e symbol k o ≡ ok (accepted e' k' row day slot, ov')
      → IsNewer o e × (admit platform s ov e symbol k ≡ ok (accepted e' k' row day slot, ov'))
  unfolding against_held
  against_held-IsNewer s ov e symbol k none h = (tt, h)
  against_held-IsNewer s ov e symbol k (some held) h = ground arith

  prepare_parsed-IsNewer :
      (s : RealtimeIngestor F) (e : MarketEvent F D) {e' : MarketEvent F D} {k : String}
      {row : BarRow F} {day : Date} {slot : SlotKey} {ov' : BatchOverlay}
      → prepare_parsed platform hashing s empty_overlay e ≡ ok (accepted e' k row day slot, ov')
      → (symbol : String) × (lookup e.instrument_id s.symbols ≡ some symbol)
        × IsNewer (lookup (e.instrument_id, e.occurred_at) s.slots) e
        × (bar_row platform s.spec.fields e.instrument_id symbol e.occurred_at e.values ≡ ok row)
  unfolding prepare_parsed shard_key_of
  prepare_parsed-IsNewer s e {e' = e'} {k = k} {row = row} {day = day} {slot = slot} {ov' = ov'} h =
      let (r, _, _, _) = prepare_parsed-Routed platform hashing s empty_overlay e h in
      let found = lookup (e.instrument_id, e.occurred_at) s.slots in
      let held : against_held platform s empty_overlay e r.symbol k found
          ≡ ok (accepted e' k row day slot, ov') =
        ground (arith, r.provider, r.feed, r.mapped, r.sharded, r.event_type) in
      let (newer, admitted) = against_held-IsNewer s empty_overlay e r.symbol k found held in
      (r.symbol, r.mapped, newer, admit-row s empty_overlay e r.symbol k admitted)

  -- The effect of an accepted event: the row of its bar and where it is filed.
  pub record Effect (s : RealtimeIngestor F) (e : MarketEvent F D) (d : IngestDecision)
      (s' : RealtimeIngestor F) : Type 0 where
    pub symbol : String
    pub row : BarRow F
    pub mapped : lookup e.instrument_id s.symbols ≡ some symbol
    pub sharded : stable_shard_key hashing e.instrument_id s.shard_count ≡ ok d.shard_key
    pub newer : IsNewer (lookup (e.instrument_id, e.occurred_at) s.slots) e
    pub built :
        bar_row platform s.spec.fields e.instrument_id symbol e.occurred_at e.values ≡ ok row
    pub filed :
        lookup
          (e.instrument_id, e.occurred_at)
          (rows_at (
            lookup
              (
                partition_bounds (platform.date_et e.occurred_at) s.spec.partition_granularity,
                d.shard_key,
              )
              s'.buffer))
        ≡ some row
    pub held :
        lookup (e.instrument_id, e.occurred_at) s'.slots
        ≡ some (record {
          revision = e.revision;
          event_id = e.event_id;
          session = platform.date_et e.occurred_at;
        })

  with_bar-filed :
      (s : RealtimeIngestor F) (e : MarketEvent F D) (k : String) (row : BarRow F) (day : Date)
      (slot : SlotKey) (l : WatermarkLedger)
      → lookup slot (
          rows_at (
            lookup
              (partition_bounds day s.spec.partition_granularity, k)
              (with_bar (retain s day) e k row day slot l).buffer))
        ≡ some row
  with_bar-filed s e k row day slot l = rw (retain-spec s day) (
      buffered (partition_bounds day s.spec.partition_granularity, k) slot row
        (retain s day).buffer)

  with_bar-held :
      (s : RealtimeIngestor F) (e : MarketEvent F D) (k : String) (row : BarRow F) (day : Date)
      (slot : SlotKey) (l : WatermarkLedger)
      → lookup slot (with_bar (retain s day) e k row day slot l).slots
        ≡ some (record { revision = e.revision; event_id = e.event_id; session = day })
  with_bar-held s e k row day slot l = lookup-insert_self slot _ (retain s day).slots

  commit-Effect :
      (s : RealtimeIngestor F) (e : MarketEvent F D) (p : PreparedEvent F D) (ov : BatchOverlay)
      {d : IngestDecision} {s' : RealtimeIngestor F}
      → prepare_parsed platform hashing s empty_overlay e ≡ ok (p, ov)
      → commit s p ≡ (ok d, s')
      → ((d.accepted ≡ false) × (s' ≡ s)) ⊎ ((d.accepted ≡ true) × Effect s e d s')
  unfolding commit store
  commit-Effect s e (rejected e' k reason) ov prepared done = inl ground arith
  commit-Effect s e (accepted e' k row day slot) ov {d = d} {s' = s'} prepared done =
      let (r, same, at, when) = prepare_parsed-Routed platform hashing s empty_overlay e prepared in
      let (symbol, mapped, newer, built) = prepare_parsed-IsNewer s e prepared in
      elim (Result-cases (observe (retain s day).ledger k (position e'))) [
        | inr (x, unknown) ↦ absurd ground arith
        | inl ((w, l), told) ↦
            let after : s' ≡ with_bar (retain s day) e' k row day slot l = ground arith in
            let shard : d.shard_key ≡ k = ground arith in
            inr (
              ground arith,
              record {
                symbol = symbol;
                row = row;
                mapped = mapped;
                sharded = rw shard r.sharded;
                newer = newer;
                built = built;
                filed = rw (shard, after, sym at, sym when) (with_bar-filed s e' k row day slot l);
                held = rw (after, sym at, sym when, sym same) (with_bar-held s e' k row day slot l);
              },
            )
      ]

  -- A call of `submit` that returned either did not accept the event and left the ingestor as it was, or
  -- accepted it; then the event's revision is above that of the bar held for its instrument and instant,
  -- if one is held, the row made of its values is in the buffer, in the partition of its trading day under
  -- the shard of its instrument, and the bar is held at the event's revision.
  pub submit-files_newer_bar :
      (s : RealtimeIngestor F) (event : Json F D) (e : MarketEvent F D) (d : IngestDecision)
      (s' : RealtimeIngestor F)
      → parse_market_event platform event ≡ ok e
      → submit platform hashing s event ≡ (ok d, s')
      → ((d.accepted ≡ false) × (s' ≡ s)) ⊎ ((d.accepted ≡ true) × Effect s e d s')
  unfolding submit commit_prepared prepare
  submit-files_newer_bar s event e d s' parsed h =
      elim (Result-cases (prepare_parsed platform hashing s empty_overlay e)) [
        | inr (x, bad) ↦ absurd ground arith
        | inl ((p, ov), prepared) ↦ commit-Effect s e p ov prepared (rw (parsed, prepared) at h)
      ]
