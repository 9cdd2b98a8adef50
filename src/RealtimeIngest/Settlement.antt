-- ===== src/RealtimeIngest/Settlement.antt =====
-- What becomes of every delivery that `run_once` of market_pipeline_lib/realtime_ingest.py received.
use mathlib.Core.List.{append-nil, append_assoc}
use idea2strategy_data_pipel.Prelude.{
  ℕ, ◌+◌, ◌<◌, ◌≡◌, ◌⊎◌, inl, inr, List, [], ◌∷◌, ◌++◌, leb, refl, arith, map, All, ap, Bool-cases,
}
use idea2strategy_data_pipel.Prelude.Result.{Result, ok, err, Result-cases}
use idea2strategy_data_pipel.RealtimeIngest.Fault.{
  IngestError, realtime, unsupported_event_version, value_error, watermark,
}
use idea2strategy_data_pipel.RealtimeIngest.Consumer.{
  RealtimeDelivery, ParkReason, malformed_event, unsupported_version, max_receives_exceeded,
  RealtimeEventSource, IngestorPort, ConsumerCycle, no_cycle, events_of, RealtimeIngestConsumer,
  accepted_in, skipped_in, refused, handle, handle_all, run_once,
}

returned_or_raised :
    {X A S I : Type 0} (t : Result X A × S × I)
    → ((a : A) × (s : S) × (i : I) × (t ≡ (ok a, s, i)))
      ⊎ ((x : X) × (s : S) × (i : I) × (t ≡ (err x, s, i)))
returned_or_raised (ok a, s, i) = inl (a, s, i, refl)
returned_or_raised (err x, s, i) = inr (x, s, i, refl)

returned_or_flushed :
    {X R I : Type 0} (t : Result X R × I)
    → ((r : R) × (i : I) × (t ≡ (ok r, i))) ⊎ ((x : X) × (i : I) × (t ≡ (err x, i)))
returned_or_flushed (ok r, i) = inl (r, i, refl)
returned_or_flushed (err x, i) = inr (x, i, refl)

poll-cases :
    {X A S : Type 0} (t : Result X (List A) × S)
    → ((x : X) × (s : S) × (t ≡ (err x, s)))
      ⊎ (((s : S) × (t ≡ (ok [], s)))
          ⊎ ((a : A) × (rest : List A) × (s : S) × (t ≡ (ok (a ∷ rest), s))))
poll-cases (err x, s) = inl (x, s, refl)
poll-cases (ok [], s) = inr (inl (s, refl))
poll-cases (ok (a ∷ rest), s) = inr (inr (a, rest, s, refl))

-- A queue that keeps a record of what was done with each delivery, for any deliveries.
pub data Disposition : Type 0 where
  acked retry : Disposition
  park : ParkReason → Disposition

abbrev pub Entry : Type 0 → Type 0 → Type 0
Entry F D = RealtimeDelivery F D × Disposition

abbrev pub recording :
    {X W F D : Type 0}
    → List (RealtimeDelivery F D)
    → RealtimeEventSource (List (Entry F D)) X W F D
recording ds = record {
  poll = λ n wait log. (ok ds, log);
  acknowledge = λ d log. (ok tt, log ++ (d, acked) ∷ []);
  retry_later = λ d wait log. (ok tt, log ++ (d, retry) ∷ []);
  dead_letter = λ d reason log. (ok tt, log ++ (d, park reason) ∷ []);
}

-- A retried delivery has attempts left.
abbrev pub IsBounded : {F D : Type 0} → ℕ → Entry F D → Type 0
IsBounded limit (d, retry) = d.receive_count < limit
IsBounded limit (d, _) = Unit

module _ {I X W R F D : Type 0} (port : IngestorPort I X R F D) (c : RealtimeIngestConsumer W)
    (all : List (RealtimeDelivery F D)) where
  other_error-entry :
      (d : RealtimeDelivery F D) (cycle : ConsumerCycle) (log : List (Entry F D))
      → (cycle' : ConsumerCycle) × (did : Disposition) × (refused
            (recording {X = X} all)
            port
            c
            d
            value_error
            cycle
            log
          ≡ (ok cycle', log ++ (d, did) ∷ []))
        × IsBounded c.max_receive_count (d, did)
  unfolding refused
  other_error-entry d cycle log = elim (Bool-cases (leb c.max_receive_count d.receive_count)) [
    | inl spent ↦ (
      record cycle { dead_lettered = cycle.dead_lettered + 1 },
      park max_receives_exceeded,
      rw spent refl,
      tt,
    )
    | inr left ↦ (record cycle { retried = cycle.retried + 1 }, retry, rw left refl, ground arith)
  ]

  refused-entry :
      (d : RealtimeDelivery F D) (x : IngestError) (cycle : ConsumerCycle) (log : List (Entry F D))
      → (cycle' : ConsumerCycle) × (did : Disposition) × (refused
            (recording {X = X} all)
            port
            c
            d
            x
            cycle
            log
          ≡ (ok cycle', log ++ (d, did) ∷ []))
        × IsBounded c.max_receive_count (d, did)
  unfolding refused
  refused-entry d (realtime f) cycle log =
      (record cycle { dead_lettered = cycle.dead_lettered + 1 }, park malformed_event, refl, tt)
  refused-entry d unsupported_event_version cycle log =
      (record cycle { dead_lettered = cycle.dead_lettered + 1 }, park unsupported_version, refl, tt)
  refused-entry d value_error cycle log = other_error-entry d cycle log
  refused-entry d (watermark w) cycle log = other_error-entry d cycle log

  handle-entry :
      (d : RealtimeDelivery F D) (cycle : ConsumerCycle) (log : List (Entry F D)) (i : I)
      → (cycle' : ConsumerCycle) × (did : Disposition) × (i' : I) × (handle
            (recording {X = X} all)
            port
            c
            d
            cycle
            log
            i
          ≡ (ok cycle', log ++ (d, did) ∷ [], i'))
        × IsBounded c.max_receive_count (d, did)
  unfolding handle
  handle-entry d cycle log i =
      let counted = record cycle { received = cycle.received + 1 } in
      elim (Result-cases (events_of d.body)) [
        | inr (x, bad) ↦ (
          record counted { dead_lettered = cycle.dead_lettered + 1 },
          park malformed_event,
          i,
          rw bad refl,
          tt,
        )
        | inl (events, good) ↦ elim (returned_or_flushed (port.submit_batch i events)) [
          | inl (ds, j, took) ↦ (
            record counted {
              accepted = cycle.accepted + accepted_in ds;
              skipped = cycle.skipped + skipped_in ds;
              acknowledged = cycle.acknowledged + 1;
            },
            acked,
            j,
            rw (good, took) refl,
            tt,
          )
          | inr (x, j, refusal) ↦
              let (cycle', did, what, bound) = refused-entry d x counted log in
              (cycle', did, j, rw (good, refusal, what) refl, bound)
        ]
      ]

  handle_all-entries :
      (ds : List (RealtimeDelivery F D)) (cycle : ConsumerCycle) (log : List (Entry F D)) (i : I)
      → (cycle' : ConsumerCycle) × (entries : List (Entry F D)) × (i' : I) × (handle_all
            (recording {X = X} all)
            port
            c
            ds
            cycle
            log
            i
          ≡ (ok cycle', log ++ entries, i'))
        × (map (λ (e : Entry F D). e.0) entries ≡ ds)
        × All (IsBounded c.max_receive_count) entries
  unfolding handle_all
  handle_all-entries [] cycle log i = (cycle, [], i, rw (append-nil log) refl, refl, tt)
  handle_all-entries (d ∷ ds) cycle log i =
      let (one, did, j, step, bound) = handle-entry d cycle log i in
      let (cycle', entries, i', steps, same, bounds) =
        handle_all-entries ds one (log ++ (d, did) ∷ []) j in
      (
        cycle',
        (d, did) ∷ entries,
        i',
        rw step (rw⁻¹ (append_assoc log ((d, did) ∷ []) entries) steps),
        ap (λ xs. d ∷ xs) same,
        (bound, bounds),
      )

module _ {I X W R F D : Type 0} (port : IngestorPort I X R F D) (c : RealtimeIngestConsumer W) where
  -- Whatever a poll brought and whatever the ingestor says, a cycle over a queue whose calls do not raise
  -- does one thing with each delivery, in the order of the poll, and leaves none out; and a delivery is
  -- left to be retried only while its receive count is below the limit.
  pub run_once-disposes_each :
      (all : List (RealtimeDelivery F D)) (wait : W) (i : I)
      → (r : Result X ConsumerCycle) × (c' : RealtimeIngestConsumer W) × (log : List (Entry F D))
        × (i' : I) × (run_once (recording {X = X} all) port c wait [] i ≡ (r, c', log, i'))
        × (map (λ (e : Entry F D). e.0) log ≡ all)
        × All (IsBounded c.max_receive_count) log
  unfolding run_once
  run_once-disposes_each [] wait i = (ok no_cycle, c, [], i, refl, refl, tt)
  run_once-disposes_each (d ∷ ds) wait i =
      let (cycle, entries, j, steps, same, bounds) =
        handle_all-entries port c (d ∷ ds) (d ∷ ds) no_cycle [] i in
      let counted = record c { since_flush = c.since_flush + cycle.accepted } in
      elim (Bool-cases (leb c.flush_every (c.since_flush + cycle.accepted))) [
        | inr early ↦ (ok cycle, counted, entries, j, rw (steps, early) refl, same, bounds)
        | inl due ↦ elim (returned_or_flushed (port.flush j)) [
          | inl (r, k, flushed) ↦ (
            ok cycle,
            record c { since_flush = 0 },
            entries,
            k,
            rw (steps, due, flushed) refl,
            same,
            bounds,
          )
          | inr (x, k, failed) ↦
              (err x, counted, entries, k, rw (steps, due, failed) refl, same, bounds)
        ]
      ]
