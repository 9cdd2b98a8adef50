-- ===== src/RealtimeIngest/Batch.antt =====
-- `submit_batch` of market_pipeline_lib/realtime_ingest.py: a queue message is taken in whole or not at
-- all when the shard of every mapped instrument is declared in the ledger, and in part when one is not.
use idea2strategy_data_pipel.Prelude.{
  String, ◌≡◌, ◌⊎◌, inl, inr, true, false, none, some, List, [], ◌∷◌, refl, arith, length, All, ap,
  suc,
}
use idea2strategy_data_pipel.Prelude.Eq.{string_eq, pair_eq, nat_eq}
use idea2strategy_data_pipel.Prelude.Dict.{Dict, has, lookup, insert, lookup-insert_self}
use idea2strategy_data_pipel.Prelude.Result.{ok, err, >>=-eq-ok, Result-cases}
use idea2strategy_data_pipel.Contracts.Calendar.{Date, date_eq}
use idea2strategy_data_pipel.Contracts.Partition.{partition_bounds}
use idea2strategy_data_pipel.Contracts.Shard.{Hashing, stable_shard_key}
use idea2strategy_data_pipel.Watermarks.Position.{unknown_shard, StreamPosition}
use idea2strategy_data_pipel.Watermarks.Ledger.{WatermarkDecision, WatermarkLedger, observe}
use idea2strategy_data_pipel.Watermarks.Heads.{has-observe}
use idea2strategy_data_pipel.RealtimeIngest.Json.{Json}
use idea2strategy_data_pipel.RealtimeIngest.Fault.{IngestError, watermark, Platform}
use idea2strategy_data_pipel.RealtimeIngest.Event.{MarketEvent, position, parse_market_event}
use idea2strategy_data_pipel.RealtimeIngest.Ingestor.{
  BarRow, SlotKey, PartitionKey, RealtimeIngestor, BatchOverlay, empty_overlay, PreparedEvent,
  rejected, accepted, prepare_parsed, prepare,
}
use idea2strategy_data_pipel.RealtimeIngest.Commit.{
  IngestDecision, decision, accepted_reason, with_bar, retain, store, commit, commit_next,
  commit_all, prepare_all, commit_batch, submit_batch, rows_at, put_row,
}
use idea2strategy_data_pipel.RealtimeIngest.Filing.{
  retain-ledger, retain-buffer, retain-spec, IsTaken, commit_all-IsTaken,
}
use idea2strategy_data_pipel.RealtimeIngest.Admission.{prepare_parsed-Routed}

pub observe_known :
    (l : WatermarkLedger) (k : String) (p : StreamPosition)
    → has k l.heads ≡ true
    → (d : WatermarkDecision) × (l' : WatermarkLedger) × (observe l k p ≡ ok (d, l'))
unfolding observe
observe_known l k p known = elim (Result-cases (observe l k p)) [
  | inl ((d, l'), told) ↦ (d, l', told)
  | inr (x, refused) ↦ absurd ground arith
]

observe_unknown :
    (l : WatermarkLedger) (k : String) (p : StreamPosition)
    → has k l.heads ≡ false
    → observe l k p ≡ err (unknown_shard k)
unfolding observe
observe_unknown l k p unknown = ground arith

module _ {F : Type 0} where
  pub buffered :
      (key : PartitionKey) (slot : SlotKey) (row : BarRow F)
      (buffer : Dict PartitionKey (Dict SlotKey (BarRow F)))
      → lookup slot (rows_at (lookup key (put_row key slot row buffer))) ≡ some row
  unfolding put_row
  buffered key slot row buffer =
      rw (lookup-insert_self key (insert slot row (rows_at (lookup key buffer))) buffer)
        (lookup-insert_self slot row (rows_at (lookup key buffer)))

module _ {F D : Type 0} where
  first_bar :
      (s : RealtimeIngestor F) (e : MarketEvent F D) (k : String) (row : BarRow F) (day : Date)
      (slot : SlotKey) (l : WatermarkLedger) (next_day : Date)
      → lookup slot (
          rows_at (
            lookup
              (partition_bounds day s.spec.partition_granularity, k)
              (retain (with_bar (retain s day) e k row day slot l) next_day).buffer))
        ≡ some row
  first_bar s e k row day slot l next_day =
      rw (retain-buffer (with_bar (retain s day) e k row day slot l) next_day, retain-spec s day)
        (buffered (partition_bounds day s.spec.partition_granularity, k) slot row
          (retain s day).buffer)

  -- The shard of an accepted event is declared.
  abbrev Committable : RealtimeIngestor F → PreparedEvent F D → Type 0
  Committable s (rejected e k reason) = Unit
  Committable s (accepted e k row day slot) = has k s.ledger.heads ≡ true

  commit-returns :
      (s : RealtimeIngestor F) (p : PreparedEvent F D)
      → Committable s p
      → (d : IngestDecision) × (s' : RealtimeIngestor F) × (commit s p ≡ (ok d, s'))
        × ((j : String) → has j s'.ledger.heads ≡ has j s.ledger.heads)
  unfolding commit store
  commit-returns s (rejected e k reason) c = (decision e k false reason none, s, refl, λ j. refl)
  commit-returns s (accepted e k row day slot) c =
      let (w, l, told) =
        observe_known (retain s day).ledger k (position e) (rw (retain-ledger s day) c) in
      (
        decision e k true (accepted_reason e w.outcome) (some w.outcome),
        with_bar (retain s day) e k row day slot l,
        rw told refl,
        λ j.
            ground
              (arith, has-observe (retain s day).ledger k (position e) told j, retain-ledger s day),
      )

  Committable-kept :
      (s s' : RealtimeIngestor F) (p : PreparedEvent F D)
      → ((j : String) → has j s'.ledger.heads ≡ has j s.ledger.heads)
      → Committable s p
      → Committable s' p
  Committable-kept s s' (rejected e k reason) same c = tt
  Committable-kept s s' (accepted e k row day slot) same c = rw (same k) c

  AllCommittable-kept :
      (s s' : RealtimeIngestor F) (ps : List (PreparedEvent F D))
      → ((j : String) → has j s'.ledger.heads ≡ has j s.ledger.heads)
      → All (Committable s) ps
      → All (Committable s') ps
  AllCommittable-kept s s' [] same c = tt
  AllCommittable-kept s s' (p ∷ ps) same c =
      (Committable-kept s s' p same c.0, AllCommittable-kept s s' ps same c.1)

  commit_all-returns :
      (s : RealtimeIngestor F) (ps : List (PreparedEvent F D))
      → All (Committable s) ps
      → (ds : List IngestDecision) × (s' : RealtimeIngestor F) × (commit_all s ps ≡ (ok ds, s'))
        × (length ds ≡ length ps)
  unfolding commit_all commit_next
  commit_all-returns s [] c = ([], s, refl, refl)
  commit_all-returns s (p ∷ ps) c =
      let (d, t, one, same) = commit-returns s p c.0 in
      let (ds, s', rest, n) = commit_all-returns t ps (AllCommittable-kept s t ps same c.1) in
      (d ∷ ds, s', rw (one, rest) refl, ap suc n)

module _ {F : Type 0} (hashing : Hashing) where
  -- The shard of every mapped instrument is declared in the ledger.
  abbrev pub IsCovering : RealtimeIngestor F → Type 0
  IsCovering s =
      (id symbol k : String)
      → lookup id s.symbols ≡ some symbol
      → stable_shard_key hashing id s.shard_count ≡ ok k
      → has k s.ledger.heads ≡ true

module _ {F D : Type 0} (platform : Platform F D) (hashing : Hashing) where
  prepare-Committable :
      (s : RealtimeIngestor F) (ov ov' : BatchOverlay) (event : Json F D) (p : PreparedEvent F D)
      → IsCovering hashing s
      → prepare platform hashing s ov event ≡ ok (p, ov')
      → Committable s p
  unfolding prepare
  prepare-Committable s ov ov' event (rejected e k reason) covering h = tt
  prepare-Committable s ov ov' event (accepted e' k row day slot) covering h =
      let (e, _, prepared) =
        >>=-eq-ok (parse_market_event platform event) (λ e. prepare_parsed platform hashing s ov e)
          h in
      let (routed, _, _, _) = prepare_parsed-Routed platform hashing s ov e prepared in
      covering e.instrument_id routed.symbol k routed.mapped routed.sharded

  prepare_all-Committable :
      (s : RealtimeIngestor F) (ov : BatchOverlay) (events : List (Json F D))
      (ps : List (PreparedEvent F D))
      → IsCovering hashing s
      → prepare_all platform hashing s ov events ≡ ok ps
      → All (Committable s) ps × (length ps ≡ length events)
  unfolding prepare_all
  prepare_all-Committable s ov [] ps covering h =
      let none_left : ps ≡ [] = ground arith in rw none_left (tt, refl)
  prepare_all-Committable s ov (event ∷ events) ps covering h =
      elim (Result-cases (prepare platform hashing s ov event)) [
        | inr (x, refused) ↦ absurd ground arith
        | inl ((p, ov'), one) ↦ elim (Result-cases (prepare_all platform hashing s ov' events)) [
          | inr (x, refused) ↦ absurd ground arith
          | inl (ps', more) ↦
              let both : ps ≡ p ∷ ps' = ground arith in
              let (c, n) = prepare_all-Committable s ov' events ps' covering more in
              rw both ((prepare-Committable s ov ov' event p covering one, c), ap suc n)
        ]
      ]

  pub submit_batch-returns :
      (s : RealtimeIngestor F) (events : List (Json F D))
      → IsCovering hashing s
      → ((ps : List (PreparedEvent F D)) × (ds : List IngestDecision) × (s' : RealtimeIngestor F)
          × (prepare_all platform hashing s empty_overlay events ≡ ok ps)
          × (commit_all s ps ≡ (ok ds, s'))
          × (submit_batch platform hashing s events ≡ (ok ds, s'))
          × (length ds ≡ length events))
        ⊎ ((x : IngestError) × (submit_batch platform hashing s events ≡ (err x, s)))
  unfolding submit_batch commit_batch
  submit_batch-returns s events covering =
      elim (Result-cases (prepare_all platform hashing s empty_overlay events)) [
        | inr (x, refused) ↦ inr (x, rw refused refl)
        | inl (ps, prepared) ↦
            let (c, n) = prepare_all-Committable s empty_overlay events ps covering prepared in
            let (ds, s', done, m) = commit_all-returns s ps c in
            inl (ps, ds, s', prepared, done, rw prepared done, rw (m, n) refl)
      ]

  -- When the shard of every mapped instrument is declared in the ledger, a message is taken in whole,
  -- or the call raises and the ingestor is exactly as it was. Taken in whole: every event passed the
  -- first pass and has its decision, in order, with its id and whether it was accepted; every slot of
  -- every partition holds the bar of the last accepted event for it, else the bar from before; and the
  -- head of every shard was told of the positions of its accepted events, in order.
  pub submit_batch-whole_or_nothing :
      (s : RealtimeIngestor F) (events : List (Json F D)) (key : PartitionKey) (slot : SlotKey)
      (shard : String)
      → IsCovering hashing s
      → ((ps : List (PreparedEvent F D)) × (ds : List IngestDecision) × (s' : RealtimeIngestor F)
          × (prepare_all platform hashing s empty_overlay events ≡ ok ps)
          × (submit_batch platform hashing s events ≡ (ok ds, s'))
          × (length ds ≡ length events)
          × IsTaken key slot shard s ps ds s')
        ⊎ ((x : IngestError) × (submit_batch platform hashing s events ≡ (err x, s)))
  submit_batch-whole_or_nothing s events key slot shard covering =
      elim (submit_batch-returns s events covering) [
        | inr refused ↦ inr refused
        | inl (ps, ds, s', prepared, done, returned, n) ↦
            inl
              (ps, ds, s', prepared, returned, n, commit_all-IsTaken key slot shard s s' ps ds done)
      ]

  -- A message of two events that both pass the checks, the first for a declared shard and the second for
  -- one that is not: the call raises, and the bar of the first event is in the buffer all the same.
  pub submit_batch-undeclared_shard :
      (s : RealtimeIngestor F) (a b : Json F D) (e₁ e₂ : MarketEvent F D) (k₁ k₂ : String)
      (row₁ row₂ : BarRow F) (day₁ day₂ : Date) (slot₁ slot₂ : SlotKey)
      → prepare_all platform hashing s empty_overlay (a ∷ b ∷ [])
        ≡ ok (accepted e₁ k₁ row₁ day₁ slot₁ ∷ accepted e₂ k₂ row₂ day₂ slot₂ ∷ [])
      → has k₁ s.ledger.heads ≡ true
      → has k₂ s.ledger.heads ≡ false
      → (s' : RealtimeIngestor F) × (submit_batch platform hashing s (a ∷ b ∷ [])
          ≡ (err (watermark (unknown_shard k₂)), s'))
        × (lookup slot₁
              (rows_at (lookup (partition_bounds day₁ s.spec.partition_granularity, k₁) s'.buffer))
            ≡ some row₁)
  unfolding submit_batch commit_batch commit_all commit_next commit store
  submit_batch-undeclared_shard s a b e₁ e₂ k₁ k₂ row₁ row₂ day₁ day₂ slot₁ slot₂ prepared known
        unknown =
      let (w, l, told) =
        observe_known (retain s day₁).ledger k₁ (position e₁) (rw (retain-ledger s day₁) known) in
      let t = with_bar (retain s day₁) e₁ k₁ row₁ day₁ slot₁ l in
      let left : has k₂ (retain t day₂).ledger.heads ≡ false = ground (
        arith,
        has-observe (retain s day₁).ledger k₁ (position e₁) told k₂,
        retain-ledger s day₁,
        retain-ledger t day₂,
      ) in
      (
        retain t day₂,
        rw (prepared, told, observe_unknown (retain t day₂).ledger k₂ (position e₂) left) refl,
        first_bar s e₁ k₁ row₁ day₁ slot₁ l day₂,
      )
