-- ===== src/RealtimeIngest/Runs.antt =====
-- Calls of the ingestor and of its consumer on the messages of `Examples`
-- (market_pipeline_lib/realtime_ingest.py).
use idea2strategy_data_pipel.Prelude.{
  ◌≤◌, ℕ, String, ◌≡◌, refl, ◌⊎◌, true, false, some, List, [], ◌∷◌, length, map, All,
}
use idea2strategy_data_pipel.Prelude.Eq.{contains, string_eq, pair_eq, nat_eq}
use idea2strategy_data_pipel.Prelude.Dict.{values, lookup}
use idea2strategy_data_pipel.Prelude.Result.{Result, ok, err}
use idea2strategy_data_pipel.Contracts.Calendar.{Date, date_eq}
use idea2strategy_data_pipel.Contracts.Partition.{day, partition_bounds}
use idea2strategy_data_pipel.Contracts.Shard.{
  Hashing, ShardError, stable_shard_key, stable_shard_number, shard_name,
}
use idea2strategy_data_pipel.Watermarks.Position.{unknown_shard}
use idea2strategy_data_pipel.Watermarks.Ledger.{advanced, observe}
use idea2strategy_data_pipel.RealtimeIngest.Json
use idea2strategy_data_pipel.RealtimeIngest.Json.{Json}
use idea2strategy_data_pipel.RealtimeIngest.Fault.{IngestError, watermark}
use idea2strategy_data_pipel.RealtimeIngest.Event.{fields_of, parse_market_event}
use idea2strategy_data_pipel.RealtimeIngest.Envelope.{envelope}
use idea2strategy_data_pipel.RealtimeIngest.Ingestor.{
  BarSlot, PartitionKey, PreparedEvent, RealtimeIngestor, duplicate_event, accepted_new, accepted,
  empty_overlay, prepare,
}
use idea2strategy_data_pipel.RealtimeIngest.Commit.{
  IngestDecision, submit, submit_batch, commit, store, retain, sessions, rows_at, commit_prepared,
  commit_batch, prepare_all,
}
use idea2strategy_data_pipel.RealtimeIngest.Redelivery.{resubmit-duplicate}
use idea2strategy_data_pipel.RealtimeIngest.Bars.{Effect, submit-files_newer_bar}
use idea2strategy_data_pipel.RealtimeIngest.Retention.{retain-bounded}
use idea2strategy_data_pipel.RealtimeIngest.Filing.{IsTaken}
use idea2strategy_data_pipel.RealtimeIngest.Batch.{
  IsCovering, submit_batch-whole_or_nothing, submit_batch-undeclared_shard,
}
use idea2strategy_data_pipel.RealtimeIngest.Consumer.{
  RealtimeDelivery, malformed_event, RealtimeIngestConsumer, ConsumerCycle, IngestorPort, no_cycle,
  events_of, refused, handle, handle_all, run_once,
}
use idea2strategy_data_pipel.RealtimeIngest.Settlement.{
  Entry, park, recording, IsBounded, run_once-disposes_each,
}
use idea2strategy_data_pipel.RealtimeIngest.Delivery.{realtime_port}
use idea2strategy_data_pipel.RealtimeIngest.Examples.{
  platform, hashing, event, stamp, parsed_test, ingestor, other, other_parsed_test, other_test,
  first, first_test, row_of, trading_day,
}

abbrev message : Json ℕ ℕ
message = envelope platform stamp event

abbrev decided : IngestDecision
decided = record {
  event_id = "e1";
  instrument_id = "i";
  shard_key = "s00-of-2";
  accepted = true;
  reason = accepted_new;
  revision = 0;
  outcome = some advanced;
}

abbrev after : RealtimeIngestor ℕ
after = (commit ingestor first).1

commit_test : commit ingestor first ≡ (ok decided, after)
unfolding commit store retain sessions observe
commit_test = refl

submit_test : submit platform hashing ingestor message ≡ (ok decided, after)
unfolding submit commit_prepared prepare
submit_test = rw (parsed_test, first_test) commit_test

resubmit-duplicate_example :
    (d' : IngestDecision) × (submit platform hashing after message ≡ (ok d', after))
    × (d'.accepted ≡ false)
    × (d'.reason ≡ duplicate_event)
resubmit-duplicate_example =
    resubmit-duplicate platform hashing ingestor message decided after submit_test refl

submit-files_newer_bar_example :
    ((decided.accepted ≡ false) × (after ≡ ingestor))
    ⊎ ((decided.accepted ≡ true) × Effect platform hashing ingestor event decided after)
submit-files_newer_bar_example =
    submit-files_newer_bar platform hashing ingestor message event decided after parsed_test
      submit_test

retain-bounded_example :
    (keep : List Date) × (length keep ≤ after.dedup_session_retention)
    × All (λ a. contains keep a ≡ true) (values (retain after trading_day).seen_event_ids)
    × All
        (λ (slot : BarSlot). contains keep slot.session ≡ true)
        (values (retain after trading_day).slots)
retain-bounded_example = retain-bounded after trading_day

-- A hashing that puts every instrument into the first shard, which the ledger declares.
abbrev one_shard : Hashing
one_shard = record { canonical_uuid = λ s. some s; sha256_head = λ s. 0 }

ok_injective : {a b : String} {x : Result ShardError String} → x ≡ ok a → x ≡ ok b → a ≡ b
ok_injective h k = cc

ingestor-IsCovering : IsCovering one_shard ingestor
unfolding stable_shard_key stable_shard_number shard_name
ingestor-IsCovering id symbol k mapped h =
    let e : "s00-of-2" ≡ k = ok_injective refl h in rw (← e) refl

abbrev place : PartitionKey
place = (partition_bounds trading_day day, "s00-of-2")

submit_batch-whole_or_nothing_example :
    ((ps : List (PreparedEvent ℕ ℕ)) × (ds : List IngestDecision) × (s' : RealtimeIngestor ℕ)
      × (prepare_all platform one_shard ingestor empty_overlay (message ∷ message ∷ []) ≡ ok ps)
      × (submit_batch platform one_shard ingestor (message ∷ message ∷ []) ≡ (ok ds, s'))
      × (length ds ≡ 2)
      × IsTaken place ("i", 5) "s00-of-2" ingestor ps ds s')
    ⊎ ((x : IngestError) × (submit_batch platform one_shard ingestor (message ∷ message ∷ [])
          ≡ (err x, ingestor)))
submit_batch-whole_or_nothing_example =
    submit_batch-whole_or_nothing platform one_shard ingestor (message ∷ message ∷ []) place
      ("i", 5) "s00-of-2" ingestor-IsCovering

both_test :
    prepare_all platform hashing ingestor empty_overlay
      (message ∷ envelope platform stamp other ∷ [])
    ≡ ok (first ∷ accepted other "s01-of-2" (row_of "j" "J") trading_day ("j", 5) ∷ [])
unfolding prepare_all prepare
both_test = rw (parsed_test, first_test, other_parsed_test, other_test.1) refl

submit_batch-undeclared_shard_example :
    (s' : RealtimeIngestor ℕ) × (submit_batch platform hashing ingestor
        (message ∷ envelope platform stamp other ∷ [])
      ≡ (err (watermark (unknown_shard "s01-of-2")), s'))
    × (lookup ("i", 5) (rows_at (lookup (partition_bounds trading_day day, "s00-of-2") s'.buffer))
        ≡ some (row_of "i" "I"))
submit_batch-undeclared_shard_example =
    submit_batch-undeclared_shard platform hashing ingestor message (envelope platform stamp other)
      event other "s00-of-2" "s01-of-2" (row_of "i" "I") (row_of "j" "J") trading_day trading_day
      ("i", 5) ("j", 5) both_test refl refl

-- A delivery with one event, which has none of the fields.
abbrev delivery : RealtimeDelivery ℕ ℕ
delivery = record {
  message_id = "m";
  body =
      Json.object
        (Json.field "events" (Json.array (Json.cons (Json.object Json.end) Json.nil)) Json.end);
  receipt_handle = "h";
  receive_count = 3;
}

abbrev consumer_of : RealtimeIngestConsumer ℕ
consumer_of = record {
  max_receive_count = 3;
  flush_every = 1;
  max_messages_per_poll = 10;
  retry_delay_seconds = 5;
  since_flush = 0;
}

abbrev publish : RealtimeIngestor ℕ → Result String String × RealtimeIngestor ℕ
publish i = (ok "AVAILABLE", record i { buffer = [] })

abbrev port : IngestorPort (RealtimeIngestor ℕ) String String ℕ ℕ
port = realtime_port platform hashing publish

abbrev parked_cycle : ConsumerCycle
parked_cycle = record no_cycle { received = 1; dead_lettered = 1 }

run_test :
    run_once (recording {X = String} (delivery ∷ [])) port consumer_of 1 [] ingestor
    ≡ (ok parked_cycle, consumer_of, (delivery, park malformed_event) ∷ [], ingestor)
unfolding run_once handle_all handle refused events_of submit_batch commit_batch prepare_all prepare
    parse_market_event fields_of
run_test = refl

run_once-disposes_each_example :
    (r : Result String ConsumerCycle) × (c' : RealtimeIngestConsumer ℕ) × (log : List (Entry ℕ ℕ))
    × (i' : RealtimeIngestor ℕ) × (run_once
          (recording {X = String} (delivery ∷ []))
          port
          consumer_of
          1
          []
          ingestor
        ≡ (r, c', log, i'))
    × (map (λ (e : Entry ℕ ℕ). e.0) log ≡ delivery ∷ [])
    × All (IsBounded 3) log
run_once-disposes_each_example = run_once-disposes_each port consumer_of (delivery ∷ []) 1 ingestor
