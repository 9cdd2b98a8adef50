-- ===== src/RealtimeIngest/Consumer.antt =====
-- `RealtimeIngestConsumer` of market_pipeline_lib/realtime_ingest.py, over the two ports that it holds: the
-- durable queue and the ingestor. A port call may raise; the state of the port comes back either way.
use idea2strategy_data_pipel.Prelude.{
  ℕ, ◌+◌, String, Option, some, List, [], ◌∷◌, ltb, leb, if◌then◌else◌, is_some, count, not,
}
use idea2strategy_data_pipel.Prelude.Result.{Result, ok, err, ◌>>=◌}
use idea2strategy_data_pipel.RealtimeIngest.Json.{Json, Items, nil, cons, get}
use idea2strategy_data_pipel.RealtimeIngest.Fault.{
  bad_body, event_not_an_object, bad_limit, IngestError, realtime, unsupported_event_version,
}
use idea2strategy_data_pipel.RealtimeIngest.Commit.{IngestDecision}

pub record RealtimeDelivery (F D : Type 0) : Type 0 where
  pub message_id : String
  pub body : Json F D
  pub receipt_handle : String
  pub receive_count : ℕ

-- The reasons that `dead_letter` is called with.
pub data ParkReason : Type 0 where
  malformed_event unsupported_version max_receives_exceeded : ParkReason

-- `RealtimeEventSource`: what the consumer calls of the queue. `S` is the queue, `X` what a call may
-- raise, and `W` the type of a number of seconds.
pub record RealtimeEventSource (S X W F D : Type 0) : Type 0 where
  pub poll : ℕ → W → S → Result X (List (RealtimeDelivery F D)) × S
  pub acknowledge : RealtimeDelivery F D → S → Result X (Unit {0}) × S
  pub retry_later : RealtimeDelivery F D → W → S → Result X (Unit {0}) × S
  pub dead_letter : RealtimeDelivery F D → ParkReason → S → Result X (Unit {0}) × S

-- The consumer's `ingestor`: `I` is its state and `R` the result of a flush.
pub record IngestorPort (I X R F D : Type 0) : Type 0 where
  pub submit_batch : I → List (Json F D) → Result IngestError (List IngestDecision) × I
  pub flush : I → Result X R × I

pub record ConsumerCycle : Type 0 where
  pub received : ℕ
  pub accepted : ℕ
  pub skipped : ℕ
  pub acknowledged : ℕ
  pub retried : ℕ
  pub dead_lettered : ℕ

abbrev pub no_cycle : ConsumerCycle
no_cycle = record {
  received = 0;
  accepted = 0;
  skipped = 0;
  acknowledged = 0;
  retried = 0;
  dead_lettered = 0;
}

pub record DrainReport : Type 0 where
  pub cycles : ℕ
  pub total : ConsumerCycle

abbrev pub no_report : DrainReport
no_report = record { cycles = 0; total = no_cycle }

-- `DrainReport.add`.
abbrev pub add : DrainReport → ConsumerCycle → DrainReport
add r c = record {
  cycles = r.cycles + 1;
  total = record {
    received = r.total.received + c.received;
    accepted = r.total.accepted + c.accepted;
    skipped = r.total.skipped + c.skipped;
    acknowledged = r.total.acknowledged + c.acknowledged;
    retried = r.total.retried + c.retried;
    dead_lettered = r.total.dead_lettered + c.dead_lettered;
  };
}

module _ {F D : Type 0} where
  objects_of : Items F D → Result IngestError (List (Json F D))
  objects_of nil = ok []
  objects_of (cons (Json.object fields) rest) = do
    events ← objects_of rest
    ok (Json.object fields ∷ events)
  objects_of (cons _ rest) = err (realtime event_not_an_object)

  events_in : Option (Json F D) → Result IngestError (List (Json F D))
  unfolding objects_of
  events_in (some (Json.array (cons event rest))) = objects_of (cons event rest)
  events_in _ = err (realtime bad_body)

  -- `_events_of`.
  unfoldable pub events_of : Json F D → Result IngestError (List (Json F D))
  unfolding events_in
  events_of (Json.object fields) =
      if is_some (get "__undecodable__" fields)
      then err (realtime bad_body)
      else events_in (get "events" fields)
  events_of _ = err (realtime bad_body)

-- The fields of the consumer. The two ports' states are beside it.
pub record RealtimeIngestConsumer (W : Type 0) : Type 0 where
  pub max_receive_count : ℕ
  pub flush_every : ℕ
  pub max_messages_per_poll : ℕ
  pub retry_delay_seconds : W
  pub since_flush : ℕ

-- `__post_init__`.
unfoldable pub consumer :
    {W : Type 0} → ℕ → ℕ → ℕ → W → Result IngestError (RealtimeIngestConsumer W)
consumer max_receive_count flush_every max_messages delay =
    if ltb max_receive_count 1
    then err (realtime bad_limit)
    else if ltb flush_every 1
    then err (realtime bad_limit)
    else ok (record {
      max_receive_count = max_receive_count;
      flush_every = flush_every;
      max_messages_per_poll = max_messages;
      retry_delay_seconds = delay;
      since_flush = 0;
    })

-- The number of decisions that are accepted, and that are not.
abbrev pub accepted_in : List IngestDecision → ℕ
accepted_in ds = count (λ (d : IngestDecision). d.accepted) ds

abbrev pub skipped_in : List IngestDecision → ℕ
skipped_in ds = count (λ (d : IngestDecision). not d.accepted) ds

module _ {S I X W R F D : Type 0} (source : RealtimeEventSource S X W F D)
    (port : IngestorPort I X R F D) where
  parked : ConsumerCycle → Result X (Unit {0}) × S → Result X ConsumerCycle × S
  parked c (err x, s) = (err x, s)
  parked c (ok _, s) = (ok (record c { dead_lettered = c.dead_lettered + 1 }), s)

  -- `retry_later`, then `retried += 1`.
  retried_later : ConsumerCycle → Result X (Unit {0}) × S → Result X ConsumerCycle × S
  retried_later c (err x, s) = (err x, s)
  retried_later c (ok _, s) = (ok (record c { retried = c.retried + 1 }), s)

  done : ConsumerCycle → List IngestDecision → Result X (Unit {0}) × S → Result X ConsumerCycle × S
  done c ds (err x, s) = (err x, s)
  done c ds (ok _, s) = (
    ok (record c {
      accepted = c.accepted + accepted_in ds;
      skipped = c.skipped + skipped_in ds;
      acknowledged = c.acknowledged + 1;
    }),
    s,
  )

  -- The handlers of the `try` around `submit_batch`.
  unfoldable pub refused :
      RealtimeIngestConsumer W
      → RealtimeDelivery F D
      → IngestError
      → ConsumerCycle
      → S
      → Result X ConsumerCycle × S
  unfolding parked retried_later
  refused c delivery unsupported_event_version cycle s =
      parked cycle (source.dead_letter delivery unsupported_version s)
  refused c delivery (realtime fault) cycle s =
      parked cycle (source.dead_letter delivery malformed_event s)
  refused c delivery _ cycle s =
      if leb c.max_receive_count delivery.receive_count
      then parked cycle (source.dead_letter delivery max_receives_exceeded s)
      else retried_later cycle (source.retry_later delivery c.retry_delay_seconds s)

  with_ingestor : I → Result X ConsumerCycle × S → Result X ConsumerCycle × S × I
  with_ingestor i (r, s) = (r, s, i)

  submitted :
      RealtimeIngestConsumer W
      → RealtimeDelivery F D
      → ConsumerCycle
      → S
      → Result IngestError (List IngestDecision) × I
      → Result X ConsumerCycle × S × I
  unfolding refused with_ingestor done
  submitted c delivery cycle s (err x, i) = with_ingestor i (refused c delivery x cycle s)
  submitted c delivery cycle s (ok ds, i) =
      with_ingestor i (done cycle ds (source.acknowledge delivery s))

  handle_events :
      RealtimeIngestConsumer W
      → RealtimeDelivery F D
      → ConsumerCycle
      → S
      → I
      → Result IngestError (List (Json F D))
      → Result X ConsumerCycle × S × I
  unfolding parked submitted
  handle_events c delivery cycle s i (err x) =
      with_ingestor i (parked cycle (source.dead_letter delivery malformed_event s))
  handle_events c delivery cycle s i (ok events) =
      submitted c delivery cycle s (port.submit_batch i events)

  -- The body of the loop over the deliveries.
  unfoldable pub handle :
      RealtimeIngestConsumer W
      → RealtimeDelivery F D
      → ConsumerCycle
      → S
      → I
      → Result X ConsumerCycle × S × I
  unfolding handle_events
  handle c delivery cycle s i =
      handle_events c delivery (record cycle { received = cycle.received + 1 }) s i
        (events_of delivery.body)

  handle_rest :
      Result X ConsumerCycle × S × I
      → (ConsumerCycle → S → I → Result X ConsumerCycle × S × I)
      → Result X ConsumerCycle × S × I
  handle_rest (err x, s, i) rest = (err x, s, i)
  handle_rest (ok cycle, s, i) rest = rest cycle s i

  -- The loop over the deliveries of one poll.
  unfoldable pub handle_all :
      RealtimeIngestConsumer W
      → List (RealtimeDelivery F D)
      → ConsumerCycle
      → S
      → I
      → Result X ConsumerCycle × S × I
  unfolding handle_rest
  handle_all c [] cycle s i = (ok cycle, s, i)
  handle_all c (delivery ∷ rest) cycle s i =
      handle_rest (handle c delivery cycle s i) (handle_all c rest)

  flushed :
      RealtimeIngestConsumer W
      → ConsumerCycle
      → S
      → Result X R × I
      → Result X ConsumerCycle × RealtimeIngestConsumer W × S × I
  flushed c cycle s (err x, i) = (err x, c, s, i)
  flushed c cycle s (ok _, i) = (ok cycle, record c { since_flush = 0 }, s, i)

  settle :
      RealtimeIngestConsumer W
      → Result X ConsumerCycle × S × I
      → Result X ConsumerCycle × RealtimeIngestConsumer W × S × I
  unfolding flushed
  settle c (err x, s, i) = (err x, c, s, i)
  settle c (ok cycle, s, i) =
      let counted = record c { since_flush = c.since_flush + cycle.accepted } in
      if leb c.flush_every (c.since_flush + cycle.accepted)
      then flushed counted cycle s (port.flush i)
      else (ok cycle, counted, s, i)

  polled :
      RealtimeIngestConsumer W
      → I
      → Result X (List (RealtimeDelivery F D)) × S
      → Result X ConsumerCycle × RealtimeIngestConsumer W × S × I
  unfolding settle
  polled c i (err x, s) = (err x, c, s, i)
  polled c i (ok [], s) = (ok no_cycle, c, s, i)
  polled c i (ok (delivery ∷ rest), s) = settle c (handle_all c (delivery ∷ rest) no_cycle s i)

  -- `run_once`.
  unfoldable pub run_once :
      RealtimeIngestConsumer W
      → W
      → S
      → I
      → Result X ConsumerCycle × RealtimeIngestConsumer W × S × I
  unfolding polled
  run_once c wait_seconds s i = polled c i (source.poll c.max_messages_per_poll wait_seconds s)

  -- `shutdown`.
  stopped : RealtimeIngestConsumer W → Result X R × I → Result X R × RealtimeIngestConsumer W × I
  stopped c (err x, i) = (err x, c, i)
  stopped c (ok r, i) = (ok r, record c { since_flush = 0 }, i)

  unfoldable pub shutdown : RealtimeIngestConsumer W → I → Result X R × RealtimeIngestConsumer W × I
  unfolding stopped
  shutdown c i = stopped c (port.flush i)
