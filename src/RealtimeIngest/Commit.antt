-- ===== src/RealtimeIngest/Commit.antt =====
-- `_retain`, `_commit`, `submit` and `submit_batch` of market_pipeline_lib/realtime_ingest.py. A call
-- gives back the ingestor beside its result, since what was written before a raise stays written.
use idea2strategy_data_pipel.Prelude.{
  ℕ, zero, suc, ◌+◌, ◌-◌, String, Bool, true, false, Option, none, some, List, [], ◌∷◌, ◌++◌,
  length, leb, if◌then◌else◌,
}
use idea2strategy_data_pipel.Prelude.Eq.{string_eq, nat_eq, pair_eq, contains, distinct}
use idea2strategy_data_pipel.Prelude.Sort.{sorted}
use idea2strategy_data_pipel.Prelude.Dict.{Dict, lookup, insert, values, filter_values}
use idea2strategy_data_pipel.Prelude.Result.{Result, ok, err, ◌>>=◌}
use idea2strategy_data_pipel.Contracts.Calendar.{Date, date_eq, date_lt}
use idea2strategy_data_pipel.Contracts.Partition.{partition_bounds}
use idea2strategy_data_pipel.Contracts.Shard.{Hashing}
use idea2strategy_data_pipel.Watermarks.Position.{WatermarkError}
use idea2strategy_data_pipel.Watermarks.Ledger.{
  WatermarkOutcome, advanced, WatermarkDecision, WatermarkLedger, observe,
}
use idea2strategy_data_pipel.RealtimeIngest.Json.{Json}
use idea2strategy_data_pipel.RealtimeIngest.Fault.{IngestError, watermark, Platform}
use idea2strategy_data_pipel.RealtimeIngest.Event.{MarketEvent, is_correction, position}
use idea2strategy_data_pipel.RealtimeIngest.Ingestor.{
  BarRow, BarSlot, SlotKey, PartitionKey, RealtimeIngestor, BatchOverlay, empty_overlay, Reason,
  correction_applied, accepted_new, accepted_late, PreparedEvent, rejected, accepted, prepare,
}

pub record IngestDecision : Type 0 where
  pub event_id : String
  pub instrument_id : String
  pub shard_key : String
  pub accepted : Bool
  pub reason : Reason
  pub revision : ℕ
  pub outcome : Option WatermarkOutcome

abbrev pub slot_sessions : List BarSlot → List Date
slot_sessions [] = []
slot_sessions (slot ∷ rest) = slot.session ∷ slot_sessions rest

unfoldable pub drop : ℕ → List Date → List Date
drop zero xs = xs
drop (suc n) [] = []
drop (suc n) (x ∷ xs) = drop n xs

-- `xs[-n:]` for a positive n.
unfoldable pub last_of : ℕ → List Date → List Date
unfolding drop
last_of n xs = drop (length xs - n) xs

module _ {F : Type 0} where
  -- The set of sessions that the state names, with the session of the event.
  unfoldable pub sessions : RealtimeIngestor F → Date → List Date
  unfolding slot_sessions
  sessions s session =
      distinct (session ∷ values s.seen_event_ids ++ slot_sessions (values s.slots))

  -- `set(sorted(sessions)[-retention:])`.
  unfoldable pub kept_sessions : RealtimeIngestor F → Date → List Date
  unfolding sessions last_of
  kept_sessions s session = last_of s.dedup_session_retention (sorted date_lt (sessions s session))

  -- `_retain`.
  unfoldable pub retain : RealtimeIngestor F → Date → RealtimeIngestor F
  unfolding kept_sessions
  retain s session =
      let keep = kept_sessions s session in
      if leb (length (sessions s session)) s.dedup_session_retention then s else record s {
        seen_event_ids = filter_values (λ seen. contains keep seen) s.seen_event_ids;
        slots = filter_values (λ (slot : BarSlot). contains keep slot.session) s.slots;
      }

  -- `self._buffer.setdefault(key, {})[slot_key] = row`.
  abbrev pub rows_at : Option (Dict SlotKey (BarRow F)) → Dict SlotKey (BarRow F)
  rows_at none = []
  rows_at (some rows) = rows

  unfoldable pub put_row :
      PartitionKey
      → SlotKey
      → BarRow F
      → Dict PartitionKey (Dict SlotKey (BarRow F))
      → Dict PartitionKey (Dict SlotKey (BarRow F))
  put_row key slot_key row buffer =
      insert key (insert slot_key row (rows_at (lookup key buffer))) buffer

  -- `pending_rows`.
  abbrev pub pending_in : Dict PartitionKey (Dict SlotKey (BarRow F)) → ℕ
  pending_in [] = 0
  pending_in ((_, rows) ∷ buffer) = length rows + pending_in buffer

  abbrev pub pending_rows : RealtimeIngestor F → ℕ
  pending_rows s = pending_in s.buffer

  unfoldable pub commit_next :
      Result IngestError IngestDecision
      → Result IngestError (List IngestDecision) × RealtimeIngestor F
      → RealtimeIngestor F
      → Result IngestError (List IngestDecision) × RealtimeIngestor F
  commit_next (err x) rest s = (err x, s)
  commit_next (ok d) (ok ds, s') s = (ok (d ∷ ds), s')
  commit_next (ok d) (err x, s') s = (err x, s')

module _ {F D : Type 0} where
  -- `_decision`.
  abbrev pub decision :
      MarketEvent F D → String → Bool → Reason → Option WatermarkOutcome → IngestDecision
  decision e shard_key is_accepted reason outcome = record {
    event_id = e.event_id;
    instrument_id = e.instrument_id;
    shard_key = shard_key;
    accepted = is_accepted;
    reason = reason;
    revision = e.revision;
    outcome = outcome;
  }

  abbrev pub accepted_reason : MarketEvent F D → WatermarkOutcome → Reason
  accepted_reason e outcome =
      if is_correction e
      then correction_applied
      else elim outcome [ advanced ↦ accepted_new | _ ↦ accepted_late ]

  -- The assignments of `_commit` to the buffer, the slots and the seen ids.
  abbrev pub with_bar :
      RealtimeIngestor F
      → MarketEvent F D
      → String
      → BarRow F
      → Date
      → SlotKey
      → WatermarkLedger
      → RealtimeIngestor F
  with_bar s e shard_key row session slot_key ledger =
      let bounds = partition_bounds session s.spec.partition_granularity in
      let slot : BarSlot = record {
        revision = e.revision;
        event_id = e.event_id;
        session = session;
      } in
      record s {
        ledger = ledger;
        buffer = put_row (bounds, shard_key) slot_key row s.buffer;
        slots = insert slot_key slot s.slots;
        seen_event_ids = insert e.event_id session s.seen_event_ids;
      }

  -- The part of `_commit` behind the call of the ledger.
  unfoldable pub store :
      RealtimeIngestor F
      → MarketEvent F D
      → String
      → BarRow F
      → Date
      → SlotKey
      → Result WatermarkError (WatermarkDecision × WatermarkLedger)
      → Result IngestError IngestDecision × RealtimeIngestor F
  store s e shard_key row session slot_key (err x) = (err (watermark x), s)
  store s e shard_key row session slot_key (ok (d, ledger)) = (
    ok (decision e shard_key true (accepted_reason e d.outcome) (some d.outcome)),
    with_bar s e shard_key row session slot_key ledger,
  )

  -- `_commit`.
  unfoldable pub commit :
      RealtimeIngestor F
      → PreparedEvent F D
      → Result IngestError IngestDecision × RealtimeIngestor F
  unfolding store
  commit s (rejected e shard_key reason) = (ok (decision e shard_key false reason none), s)
  commit s (accepted e shard_key row session slot_key) =
      let kept = retain s session in
      store kept e shard_key row session slot_key (observe kept.ledger shard_key (position e))

  -- The second pass of `submit_batch`.
  unfoldable pub commit_all :
      RealtimeIngestor F
      → List (PreparedEvent F D)
      → Result IngestError (List IngestDecision) × RealtimeIngestor F
  unfolding commit_next
  commit_all s [] = (ok [], s)
  commit_all s (p ∷ ps) =
      let (r, s') = commit s p in let rest = commit_all s' ps in commit_next r rest s'

  module _ (platform : Platform F D) (hashing : Hashing) where
    -- The first pass of `submit_batch`.
    unfoldable pub prepare_all :
        RealtimeIngestor F
        → BatchOverlay
        → List (Json F D)
        → Result IngestError (List (PreparedEvent F D))
    prepare_all s overlay [] = ok []
    prepare_all s overlay (event ∷ events) = do
      (p, overlay') ← prepare platform hashing s overlay event
      ps ← prepare_all s overlay' events
      ok (p ∷ ps)

    unfoldable pub commit_prepared :
        RealtimeIngestor F
        → Result IngestError (PreparedEvent F D × BatchOverlay)
        → Result IngestError IngestDecision × RealtimeIngestor F
    commit_prepared s (err x) = (err x, s)
    commit_prepared s (ok (p, _)) = commit s p

    -- `submit`.
    unfoldable pub submit :
        RealtimeIngestor F → Json F D → Result IngestError IngestDecision × RealtimeIngestor F
    unfolding commit_prepared
    submit s event = commit_prepared s (prepare platform hashing s empty_overlay event)

    unfoldable pub commit_batch :
        RealtimeIngestor F
        → Result IngestError (List (PreparedEvent F D))
        → Result IngestError (List IngestDecision) × RealtimeIngestor F
    commit_batch s (err x) = (err x, s)
    commit_batch s (ok ps) = commit_all s ps

    -- `submit_batch`.
    unfoldable pub submit_batch :
        RealtimeIngestor F
        → List (Json F D)
        → Result IngestError (List IngestDecision) × RealtimeIngestor F
    unfolding commit_batch
    submit_batch s events = commit_batch s (prepare_all s empty_overlay events)
