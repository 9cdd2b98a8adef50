-- ===== src/RealtimeIngest/Admission.antt =====
-- What an accepted event of `_prepare` has passed, and what `_commit` of it leaves behind
-- (market_pipeline_lib/realtime_ingest.py).
use idea2strategy_data_pipel.Prelude.{
  String, ◌≡◌, inl, inr, true, ◌||◌, Option, none, some, refl, arith, or_else,
}
use idea2strategy_data_pipel.Prelude.Eq.{◌==◌, string_eq, nat_eq, pair_eq, contains}
use idea2strategy_data_pipel.Prelude.Dict.{lookup, has}
use idea2strategy_data_pipel.Prelude.Result.{ok, Result-cases}
use idea2strategy_data_pipel.Contracts.Calendar.{Date}
use idea2strategy_data_pipel.Contracts.Shard.{Hashing, stable_shard_key}
use idea2strategy_data_pipel.RealtimeIngest.Fault.{Platform}
use idea2strategy_data_pipel.RealtimeIngest.Event.{MarketEvent}
use idea2strategy_data_pipel.RealtimeIngest.Ingestor.{
  BarRow, BarSlot, SlotKey, RealtimeIngestor, BatchOverlay, duplicate_event, rejected, accepted,
  admit, against_held, shard_key_of, bar_row, prepare_parsed,
}

module _ {F D : Type 0} (platform : Platform F D) (hashing : Hashing) where
  -- The tests of an event against the stream, in any state with the same stream.
  pub record Routed (s : RealtimeIngestor F) (e : MarketEvent F D) (k : String) : Type 0 where
    pub symbol : String
    pub provider : (e.provider == s.spec.source_provider) ≡ true
    pub feed : (e.feed == s.spec.source_feed) ≡ true
    pub mapped : lookup e.instrument_id s.symbols ≡ some symbol
    pub sharded : stable_shard_key hashing e.instrument_id s.shard_count ≡ ok k
    pub event_type : (e.event_type == s.spec.event_type) ≡ true

  admit-accepted :
      (s : RealtimeIngestor F) (ov : BatchOverlay) (e : MarketEvent F D) (symbol k : String)
      {e' : MarketEvent F D} {k' : String} {row : BarRow F} {day : Date} {slot : SlotKey}
      {ov' : BatchOverlay}
      → admit platform s ov e symbol k ≡ ok (accepted e' k' row day slot, ov')
      → (e' ≡ e)
        × (k' ≡ k)
        × (slot ≡ (e.instrument_id, e.occurred_at))
        × (day ≡ platform.date_et e.occurred_at)
  unfolding admit
  admit-accepted s ov e symbol k h =
      elim (Result-cases
        (bar_row platform s.spec.fields e.instrument_id symbol e.occurred_at e.values)) [
          | inl (row, made) ↦ ground arith
          | inr (x, refused) ↦ ground arith
        ]

  held_of : RealtimeIngestor F → BatchOverlay → MarketEvent F D → Option BarSlot
  held_of s ov e =
      or_else (lookup (e.instrument_id, e.occurred_at) ov.slots)
        (lookup (e.instrument_id, e.occurred_at) s.slots)

  against_held-accepted :
      (s : RealtimeIngestor F) (ov : BatchOverlay) (e : MarketEvent F D) (symbol k : String)
      (o : Option BarSlot) {e' : MarketEvent F D} {k' : String} {row : BarRow F} {day : Date}
      {slot : SlotKey} {ov' : BatchOverlay}
      → against_held platform s ov e symbol k o ≡ ok (accepted e' k' row day slot, ov')
      → admit platform s ov e symbol k ≡ ok (accepted e' k' row day slot, ov')
  unfolding against_held
  against_held-accepted s ov e symbol k none h = h
  against_held-accepted s ov e symbol k (some held) h = ground arith

  pub Routed-prepare :
      (s : RealtimeIngestor F) (ov : BatchOverlay) (e : MarketEvent F D) (k : String)
      → Routed s e k
      → (has e.event_id s.seen_event_ids || contains ov.event_ids e.event_id) ≡ true
      → prepare_parsed platform hashing s ov e ≡ ok (rejected e k duplicate_event, ov)
  unfolding prepare_parsed shard_key_of
  Routed-prepare s ov e k r seen =
      rw (r.provider, r.feed, r.mapped, r.sharded, r.event_type, seen) refl

  pub prepare_parsed-Routed :
      (s : RealtimeIngestor F) (ov : BatchOverlay) (e : MarketEvent F D) {e' : MarketEvent F D}
      {k : String} {row : BarRow F} {day : Date} {slot : SlotKey} {ov' : BatchOverlay}
      → prepare_parsed platform hashing s ov e ≡ ok (accepted e' k row day slot, ov')
      → Routed s e k
        × (e' ≡ e)
        × (slot ≡ (e.instrument_id, e.occurred_at))
        × (day ≡ platform.date_et e.occurred_at)
  unfolding prepare_parsed shard_key_of
  prepare_parsed-Routed s ov e h =
      ground (arith, against_held-accepted s ov e, admit-accepted s ov e)
