-- ===== src/RealtimeIngest/Retention.antt =====
-- What `_retain` of market_pipeline_lib/realtime_ingest.py remembers.
use idea2strategy_data_pipel.Prelude.{
  ℕ, zero, suc, ◌-◌, ◌≤◌, ◌≡◌, inl, inr, Bool, true, ◌||◌, List, [], ◌∷◌, ◌++◌, refl, arith, length,
  leb, All, Bool-cases,
}
use idea2strategy_data_pipel.Prelude.Eq.{Eq, contains, distinct, beq_refl}
use idea2strategy_data_pipel.Prelude.Sort.{sorted}
use idea2strategy_data_pipel.Prelude.Dict.{Dict, values, filter_values}
use idea2strategy_data_pipel.Contracts.Calendar.{Date, date_eq, date_lt}
use idea2strategy_data_pipel.RealtimeIngest.Ingestor.{BarSlot, SlotKey, RealtimeIngestor}
use idea2strategy_data_pipel.RealtimeIngest.Commit.{
  slot_sessions, drop, last_of, sessions, kept_sessions, retain,
}

module _ {A : Type 0} ⦃e : Eq A⦄ where
  contains-distinct : (xs : List A) (a : A) → contains xs a ≡ true → contains (distinct xs) a ≡ true
  contains-distinct [] a h = cc
  contains-distinct (x ∷ xs) a h = elim (Bool-cases (contains (distinct xs) x)) [
    | inl there ↦ rw there (elim (Bool-cases (e.beq x a)) [
      | inl same ↦ rw (← (e.beq_iff x a).0 same) there
      | inr other ↦ contains-distinct xs a (rw other at h)
    ])
    | inr fresh ↦ rw fresh (ground (arith, contains-distinct xs a))
  ]

  contains-append :
      (xs ys : List A) (a : A) → contains (xs ++ ys) a ≡ (contains xs a || contains ys a)
  contains-append [] ys a = refl
  contains-append (x ∷ xs) ys a = ground (arith, contains-append xs ys a)

length-drop : (n : ℕ) (xs : List Date) → length (drop n xs) ≡ length xs - n
unfolding drop
length-drop zero xs = omega arith
length-drop (suc n) [] = omega arith
length-drop (suc n) (x ∷ xs) = omega (arith, length-drop n xs)

length-last_of : (n : ℕ) (xs : List Date) → length (last_of n xs) ≤ n
unfolding last_of
length-last_of n xs = omega (arith, length-drop (length xs - n) xs)

-- Every value passes the test that the others were filtered by.
filtered-All :
    {K V : Type 0} (p : V → Bool) (d : Dict K V)
    → All (λ v. p v ≡ true) (values (filter_values p d))
filtered-All p [] = tt
filtered-All p ((k, v) ∷ d) = elim (Bool-cases (p v)) [
  | inl keeps ↦ rw keeps (keeps, filtered-All p d)
  | inr drops ↦ rw drops (filtered-All p d)
]

module _ (keep : List Date) where
  seen-All :
      {K : Type 0} (d : Dict K Date)
      → ((a : Date) → contains (values d) a ≡ true → contains keep a ≡ true)
      → All (λ a. contains keep a ≡ true) (values d)
  seen-All [] sub = tt
  seen-All ((k, a) ∷ d) sub =
      (sub a (ground (arith, beq_refl ⦃e = date_eq⦄ a)), seen-All d (λ b h. sub b (ground arith)))

  slots-All :
      (d : Dict SlotKey BarSlot)
      → ((a : Date) → contains (slot_sessions (values d)) a ≡ true → contains keep a ≡ true)
      → All (λ (slot : BarSlot). contains keep slot.session ≡ true) (values d)
  slots-All [] sub = tt
  slots-All ((k, slot) ∷ d) sub = (
    sub slot.session (ground (arith, beq_refl ⦃e = date_eq⦄ slot.session)),
    slots-All d (λ b h. sub b (ground arith)),
  )

module _ {F : Type 0} where
  sessions-contains :
      (s : RealtimeIngestor F) (day a : Date)
      → (contains (values s.seen_event_ids) a || contains (slot_sessions (values s.slots)) a) ≡ true
      → contains (sessions s day) a ≡ true
  unfolding sessions
  sessions-contains s day a h =
      contains-distinct (day ∷ values s.seen_event_ids ++ slot_sessions (values s.slots)) a (
        ground
          (arith, contains-append (values s.seen_event_ids) (slot_sessions (values s.slots)) a))

  kept_sessions-le :
      (s : RealtimeIngestor F) (day : Date)
      → length (kept_sessions s day) ≤ s.dedup_session_retention
  unfolding kept_sessions
  kept_sessions-le s day =
      length-last_of s.dedup_session_retention (sorted date_lt (sessions s day))

  -- The memory of the de-duplication is bounded: after `_retain` every remembered event id and bar slot is
  -- of one of at most `dedup_session_retention` trading days.
  pub retain-bounded :
      (s : RealtimeIngestor F) (day : Date)
      → (keep : List Date) × (length keep ≤ s.dedup_session_retention)
        × All (λ a. contains keep a ≡ true) (values (retain s day).seen_event_ids)
        × All (λ (slot : BarSlot). contains keep slot.session ≡ true) (values (retain s day).slots)
  unfolding retain
  retain-bounded s day =
      elim (Bool-cases (leb (length (sessions s day)) s.dedup_session_retention)) [
        | inl few ↦ (
          sessions s day,
          ground arith,
          rw few (
              seen-All (sessions s day) s.seen_event_ids
                (λ a h. sessions-contains s day a (ground arith))),
          rw few (
              slots-All (sessions s day) s.slots (λ a h. sessions-contains s day a (ground arith))),
        )
        | inr many ↦ (
          kept_sessions s day,
          kept_sessions-le s day,
          rw many (filtered-All (λ seen. contains (kept_sessions s day) seen) s.seen_event_ids),
          rw many (
              filtered-All (λ (slot : BarSlot). contains (kept_sessions s day) slot.session)
                s.slots),
        )
      ]
