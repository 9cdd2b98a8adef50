-- ===== src/RealtimeIngest/Redelivery.antt =====
-- An at-least-once redelivery of an accepted event (market_pipeline_lib/realtime_ingest.py).
use idea2strategy_data_pipel.Prelude.{String, ◌≡◌, inl, inr, true, false, none, refl, arith}
use idea2strategy_data_pipel.Prelude.Eq.{string_eq}
use idea2strategy_data_pipel.Prelude.Dict.{has, lookup-insert_self}
use idea2strategy_data_pipel.Prelude.Result.{ok, Result-cases}
use idea2strategy_data_pipel.Contracts.Calendar.{Date}
use idea2strategy_data_pipel.Contracts.Shard.{Hashing}
use idea2strategy_data_pipel.Watermarks.Ledger.{observe}
use idea2strategy_data_pipel.RealtimeIngest.Json.{Json}
use idea2strategy_data_pipel.RealtimeIngest.Fault.{Platform}
use idea2strategy_data_pipel.RealtimeIngest.Event.{MarketEvent, position, parse_market_event}
use idea2strategy_data_pipel.RealtimeIngest.Ingestor.{
  BarRow, SlotKey, RealtimeIngestor, BatchOverlay, empty_overlay, duplicate_event, PreparedEvent,
  rejected, accepted, prepare_parsed, prepare,
}
use idea2strategy_data_pipel.RealtimeIngest.Commit.{
  IngestDecision, decision, retain, store, commit, commit_prepared, submit,
}
use idea2strategy_data_pipel.RealtimeIngest.Admission.{
  Routed, Routed-prepare, prepare_parsed-Routed,
}

module _ {F : Type 0} where
  -- What `_commit` keeps of the stream, and the id that it records.
  pub record Recorded (s s' : RealtimeIngestor F) (event_id : String) : Type 0 where
    pub spec : s'.spec ≡ s.spec
    pub symbols : s'.symbols ≡ s.symbols
    pub shard_count : s'.shard_count ≡ s.shard_count
    pub seen : has event_id s'.seen_event_ids ≡ true

module _ {F D : Type 0} where
  pub commit-Recorded :
      (s : RealtimeIngestor F) (e : MarketEvent F D) (k : String) (row : BarRow F) (day : Date)
      (slot : SlotKey) {d : IngestDecision} {s' : RealtimeIngestor F}
      → commit s (accepted e k row day slot) ≡ (ok d, s')
      → Recorded s s' e.event_id
  unfolding commit store retain
  commit-Recorded s e k row day slot h =
      elim (Result-cases (observe (retain s day).ledger k (position e))) [
        | inl ((w, l), told) ↦ record {
          spec = ground arith;
          symbols = ground arith;
          shard_count = ground arith;
          seen = ground (arith, lookup-insert_self e.event_id day (retain s day).seen_event_ids);
        }
        | inr (x, unknown) ↦ ground arith
      ]

module _ {F D : Type 0} (platform : Platform F D) (hashing : Hashing) where
  redelivered :
      (s : RealtimeIngestor F) (e : MarketEvent F D) (p : PreparedEvent F D) (ov : BatchOverlay)
      {d : IngestDecision} {s' : RealtimeIngestor F}
      → prepare_parsed platform hashing s empty_overlay e ≡ ok (p, ov)
      → commit s p ≡ (ok d, s')
      → d.accepted ≡ true
      → (k : String) × (prepare_parsed platform hashing s' empty_overlay e
          ≡ ok (rejected e k duplicate_event, empty_overlay))
  unfolding commit
  redelivered s e (rejected e' k reason) ov prepared done taken = absurd ground arith
  redelivered s e (accepted e' k row day slot) ov {s' = s'} prepared done taken =
      let (routed, same, _, _) =
        prepare_parsed-Routed platform hashing s empty_overlay e prepared in
      let kept = commit-Recorded s e' k row day slot done in
      let here : Routed platform hashing s' e k = record {
        symbol = routed.symbol;
        provider = rw kept.spec routed.provider;
        feed = rw kept.spec routed.feed;
        mapped = rw kept.symbols routed.mapped;
        sharded = rw kept.shard_count routed.sharded;
        event_type = rw kept.spec routed.event_type;
      } in
      (k, Routed-prepare platform hashing s' empty_overlay e k here (ground (arith, kept.seen)))

  -- An event that was accepted is delivered again, in the state it left behind: the call returns, the
  -- event is refused as `DUPLICATE_EVENT`, and the ingestor is unchanged.
  pub resubmit-duplicate :
      (s : RealtimeIngestor F) (event : Json F D) (d : IngestDecision) (s' : RealtimeIngestor F)
      → submit platform hashing s event ≡ (ok d, s')
      → d.accepted ≡ true
      → (d' : IngestDecision) × (submit platform hashing s' event ≡ (ok d', s'))
        × (d'.accepted ≡ false)
        × (d'.reason ≡ duplicate_event)
  unfolding submit commit_prepared prepare commit
  resubmit-duplicate s event d s' h taken =
      elim (Result-cases (parse_market_event platform event)) [
        | inr (x, bad) ↦ absurd ground arith
        | inl (e, parsed) ↦
            elim (Result-cases (prepare_parsed platform hashing s empty_overlay e)) [
              | inr (x, bad) ↦ absurd ground arith
              | inl ((p, ov), prepared) ↦
                  let done : commit s p ≡ (ok d, s') = rw (parsed, prepared) at h in
                  let (k, again) = redelivered s e p ov prepared done taken in
                  (decision e k false duplicate_event none, rw (parsed, again) refl, refl, refl)
            ]
      ]
