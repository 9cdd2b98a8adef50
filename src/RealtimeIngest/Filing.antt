-- ===== src/RealtimeIngest/Filing.antt =====
-- What the second pass of `submit_batch` of market_pipeline_lib/realtime_ingest.py files: the buffer, the
-- heads of the ledger and the decisions after it, by the prepared events.
use idea2strategy_data_pipel.Prelude.{
  String, ◌≡◌, ◌⊎◌, inl, inr, Bool, true, false, ◌&&◌, Option, some, List, [], ◌∷◌, refl, ap, ◌∙◌,
  arith, if◌then◌else◌, Bool-cases,
}
use idea2strategy_data_pipel.Prelude.Eq.{string_eq, pair_eq, nat_eq}
use idea2strategy_data_pipel.Prelude.Dict.{Dict, lookup, insert, lookup-insert}
use idea2strategy_data_pipel.Prelude.Result.{Result, ok, err, Result-cases}
use idea2strategy_data_pipel.Contracts.Calendar.{Date, date_eq}
use idea2strategy_data_pipel.Contracts.Partition.{Granularity, partition_bounds}
use idea2strategy_data_pipel.Watermarks.Position.{StreamPosition}
use idea2strategy_data_pipel.Watermarks.Ledger.{
  WatermarkDecision, WatermarkLedger, head_of, observe,
}
use idea2strategy_data_pipel.Watermarks.Heads.{newer_head, head_of-observe}
use idea2strategy_data_pipel.RealtimeIngest.Event.{MarketEvent, position}
use idea2strategy_data_pipel.RealtimeIngest.Ingestor.{
  BarRow, SlotKey, PartitionKey, RealtimeIngestor, PreparedEvent, rejected, accepted,
}
use idea2strategy_data_pipel.RealtimeIngest.Commit.{
  IngestDecision, decision, accepted_reason, with_bar, retain, store, commit, commit_next,
  commit_all, rows_at, put_row,
}

abbrev pub same_place : PartitionKey → SlotKey → PartitionKey → SlotKey → Bool
same_place k sl key slot = pair_eq.beq k key && pair_eq.beq sl slot

module _ {F : Type 0} where
  pub retain-ledger : (s : RealtimeIngestor F) (day : Date) → (retain s day).ledger ≡ s.ledger
  unfolding retain
  retain-ledger s day = ground arith

  pub retain-buffer : (s : RealtimeIngestor F) (day : Date) → (retain s day).buffer ≡ s.buffer
  unfolding retain
  retain-buffer s day = ground arith

  pub retain-spec : (s : RealtimeIngestor F) (day : Date) → (retain s day).spec ≡ s.spec
  unfolding retain
  retain-spec s day = ground arith

  -- The bar at a slot of a partition.
  abbrev pub bar_at :
      PartitionKey → SlotKey → Dict PartitionKey (Dict SlotKey (BarRow F)) → Option (BarRow F)
  bar_at key slot buffer = lookup slot (rows_at (lookup key buffer))

  pub bar_at-put_row :
      (k key : PartitionKey) (sl slot : SlotKey) (row : BarRow F)
      (buffer : Dict PartitionKey (Dict SlotKey (BarRow F)))
      → bar_at key slot (put_row k sl row buffer)
        ≡ (if same_place k sl key slot then some row else bar_at key slot buffer)
  unfolding put_row
  bar_at-put_row k key sl slot row buffer = elim (Bool-cases (pair_eq.beq k key)) [
    | inr other ↦
        rw (lookup-insert k key (insert sl row (rows_at (lookup k buffer))) buffer, other) refl
    | inl same ↦
        let e : k ≡ key = (pair_eq.beq_iff k key).0 same in
        rw (lookup-insert k key (insert sl row (rows_at (lookup k buffer))) buffer, same) rw
          (lookup-insert sl slot row (rows_at (lookup k buffer)))
          (ap (λ x. if pair_eq.beq sl slot then some row else bar_at x slot buffer) e)
  ]

-- What the prepared events leave at a slot of a partition, at the head of a shard, and as decisions.
module _ {F D : Type 0} where
  abbrev pub filed :
      Granularity
      → PartitionKey
      → SlotKey
      → Option (BarRow F)
      → List (PreparedEvent F D)
      → Option (BarRow F)
  filed g key slot held [] = held
  filed g key slot held (rejected e k reason ∷ ps) = filed g key slot held ps
  filed g key slot held (accepted e k row day sl ∷ ps) =
      filed g key slot
        (if same_place (partition_bounds day g, k) sl key slot then some row else held) ps

  abbrev pub told :
      String → Option StreamPosition → List (PreparedEvent F D) → Option StreamPosition
  told j head [] = head
  told j head (rejected e k reason ∷ ps) = told j head ps
  told j head (accepted e k row day sl ∷ ps) =
      told j (if string_eq.beq k j then newer_head head (position e) else head) ps

  abbrev pub verdict_of : PreparedEvent F D → String × Bool
  verdict_of (rejected e k reason) = (e.event_id, false)
  verdict_of (accepted e k row day sl) = (e.event_id, true)

  abbrev pub verdicts_of : List (PreparedEvent F D) → List (String × Bool)
  verdicts_of [] = []
  verdicts_of (p ∷ ps) = verdict_of p ∷ verdicts_of ps

abbrev pub verdicts : List IngestDecision → List (String × Bool)
verdicts [] = []
verdicts (d ∷ ds) = (d.event_id, d.accepted) ∷ verdicts ds

head_of-told :
    (j : String) (l l' : WatermarkLedger) (k : String) (p : StreamPosition) (w : WatermarkDecision)
    → observe l k p ≡ ok (w, l')
    → head_of l' j ≡ (if string_eq.beq k j then newer_head (head_of l j) p else head_of l j)
head_of-told j l l' k p w h = ground (arith, head_of-observe l k p h j, string_eq.beq_iff k j)

-- A call gave a value or raised, and left a state.
returned_or_raised :
    {X A S : Type 0} (t : Result X A × S)
    → ((a : A) × (s : S) × (t ≡ (ok a, s))) ⊎ ((x : X) × (s : S) × (t ≡ (err x, s)))
returned_or_raised (ok a, s) = inl (a, s, refl)
returned_or_raised (err x, s) = inr (x, s, refl)

module _ {F D : Type 0} (key : PartitionKey) (slot : SlotKey) (j : String) where
  -- The whole of the prepared events was taken.
  abbrev pub IsTaken :
      RealtimeIngestor F
      → List (PreparedEvent F D)
      → List IngestDecision
      → RealtimeIngestor F
      → Type 0
  IsTaken s ps ds s' =
      (verdicts ds ≡ verdicts_of ps)
      × (bar_at key slot s'.buffer
          ≡ filed s.spec.partition_granularity key slot (bar_at key slot s.buffer) ps)
      × (head_of s'.ledger j ≡ told j (head_of s.ledger j) ps)
      × (s'.spec ≡ s.spec)

  with_bar-IsTaken :
      (s : RealtimeIngestor F) (e : MarketEvent F D) (k : String) (row : BarRow F) (day : Date)
      (sl : SlotKey) (w : WatermarkDecision) (l : WatermarkLedger)
      → observe (retain s day).ledger k (position e) ≡ ok (w, l)
      → IsTaken s
          (accepted e k row day sl ∷ [])
          (decision e k true (accepted_reason e w.outcome) (some w.outcome) ∷ [])
          (with_bar (retain s day) e k row day sl l)
  with_bar-IsTaken s e k row day sl w l h = (
    refl,
    rw (retain-buffer s day, retain-spec s day)
        (bar_at-put_row (partition_bounds day s.spec.partition_granularity, k) key sl slot row
          s.buffer),
    head_of-told j s.ledger l k (position e) w (rw (retain-ledger s day) at h),
    retain-spec s day,
  )

  commit-IsTaken :
      (s s' : RealtimeIngestor F) (p : PreparedEvent F D) (d : IngestDecision)
      → commit s p ≡ (ok d, s')
      → IsTaken s (p ∷ []) (d ∷ []) s'
  unfolding commit store
  commit-IsTaken s s' (rejected e k reason) d h = ground arith
  commit-IsTaken s s' (accepted e k row day sl) d h =
      elim (Result-cases (observe (retain s day).ledger k (position e))) [
        | inr (x, refused) ↦ absurd ground arith
        | inl ((w, l), heard) ↦
            let same_decision : d
                ≡ decision e k true (accepted_reason e w.outcome) (some w.outcome) =
              ground (arith, heard) in
            let same_state : s' ≡ with_bar (retain s day) e k row day sl l =
              ground (arith, heard) in
            rw (same_decision, same_state) (with_bar-IsTaken s e k row day sl w l heard)
      ]

  IsTaken-next :
      (s t s' : RealtimeIngestor F) (p : PreparedEvent F D) (ps : List (PreparedEvent F D))
      (d : IngestDecision) (ds : List IngestDecision)
      → IsTaken s (p ∷ []) (d ∷ []) t
      → IsTaken t ps ds s'
      → IsTaken s (p ∷ ps) (d ∷ ds) s'
  IsTaken-next s t s' (rejected e k reason) ps d ds (v, b, l, g) (vs, bs, ls, gs) =
      (cc, rw (b, g) at bs, rw l at ls, gs ∙ g)
  IsTaken-next s t s' (accepted e k row day sl) ps d ds (v, b, l, g) (vs, bs, ls, gs) =
      (cc, rw (b, g) at bs, rw l at ls, gs ∙ g)

  pub commit_all-IsTaken :
      (s s' : RealtimeIngestor F) (ps : List (PreparedEvent F D)) (ds : List IngestDecision)
      → commit_all s ps ≡ (ok ds, s')
      → IsTaken s ps ds s'
  unfolding commit_all commit_next
  commit_all-IsTaken s s' [] ds h = ground arith
  commit_all-IsTaken s s' (p ∷ ps) ds h = elim (returned_or_raised (commit s p)) [
    | inr (x, t, raised) ↦ absurd ground arith
    | inl (d, t, one) ↦ elim (returned_or_raised (commit_all t ps)) [
      | inr (x, u, raised) ↦ absurd ground arith
      | inl (ds', u, more) ↦
          let all : ds ≡ d ∷ ds' = ground (arith, one, more) in
          let end : s' ≡ u = ground (arith, one, more) in
          rw (all, end)
            (IsTaken-next s t u p ps d ds' (commit-IsTaken s t p d one)
              (commit_all-IsTaken t u ps ds' more))
    ]
  ]
