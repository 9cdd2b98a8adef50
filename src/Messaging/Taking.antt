-- ===== src/Messaging/Taking.antt =====
-- What `_take` of apps/pipeline_worker/messaging.py does to the envelopes.
use idea2strategy_data_pipel.Prelude.{
  ℕ, zero, suc, ◌+◌, String, ◌≡◌, ◌⊎◌, inl, inr, true, false, ◌||◌, Option, none, some, List, [],
  ◌∷◌, refl, sym, ap, subst, arith, map, All, ltb, Bool-cases,
}
use idea2strategy_data_pipel.Prelude.Eq.{string_eq, contains}
use idea2strategy_data_pipel.Prelude.Dict.{
  Dict, lookup, insert, erase, lookup-insert, lookup-insert_self,
}
use idea2strategy_data_pipel.Messaging.{
  Message, Envelope, InProcessMessageSource, deliverable, message_of, deliver, take_from,
}

pub lookup-erase_ne :
    {V : Type 0} (k j : String) (d : Dict String V)
    → string_eq.beq k j ≡ false
    → lookup j (erase k d) ≡ lookup j d
lookup-erase_ne k j [] ne = refl
lookup-erase_ne k j ((i, w) ∷ d) ne = ground (
  arith,
  string_eq.beq_iff i k,
  string_eq.beq_iff i j,
  string_eq.beq_iff k j,
  lookup-erase_ne k j d ne,
)

module _ {B : Type 0} where
  -- Every envelope is held under its own id.
  abbrev pub OwnKey : String × Envelope B → Type 0
  OwnKey p = p.1.message_id ≡ p.0

  abbrev pub IsKeyed : InProcessMessageSource B → Type 0
  IsKeyed q = All OwnKey q.envelopes

  -- The message is held, and a consumer has it.
  abbrev pub InFlight : String → InProcessMessageSource B → Type 0
  InFlight id q = (e : Envelope B) × (lookup id q.envelopes ≡ some e) × (e.in_flight ≡ true)

  abbrev pub ids_of : List (Message B) → List String
  ids_of ms = map (λ (m : Message B). m.message_id) ms

  pub keyed-lookup :
      (d : Dict String (Envelope B)) (k : String) (e : Envelope B)
      → All OwnKey d
      → lookup k d ≡ some e
      → e.message_id ≡ k
  keyed-lookup [] k e a h = cc
  keyed-lookup ((j, x) ∷ d) k e (own, a) h = elim (Bool-cases (string_eq.beq j k)) [
    | inl here ↦ ground (arith, string_eq.beq_iff j k)
    | inr there ↦ keyed-lookup d k e a (rw there at h)
  ]

  pub insert-All :
      (d : Dict String (Envelope B)) (k : String) (e : Envelope B)
      → All OwnKey d
      → e.message_id ≡ k
      → All OwnKey (insert k e d)
  insert-All [] k e a own = (own, tt)
  insert-All ((j, x) ∷ d) k e (first, a) own = elim (Bool-cases (string_eq.beq j k)) [
    | inl here ↦ rw here (rw ((string_eq.beq_iff j k).0 here) own, a)
    | inr there ↦ rw there (first, insert-All d k e a own)
  ]

  pub erase-All :
      (d : Dict String (Envelope B)) (k : String) → All OwnKey d → All OwnKey (erase k d)
  erase-All [] k a = tt
  erase-All ((j, x) ∷ d) k (first, a) = elim (Bool-cases (string_eq.beq j k)) [
    | inl here ↦ rw here a
    | inr there ↦ rw there (first, erase-All d k a)
  ]

  deliver-IsKeyed :
      (q : InProcessMessageSource B) (id : String) (e : Envelope B)
      → IsKeyed q
      → e.message_id ≡ id
      → IsKeyed (deliver id e q)
  deliver-IsKeyed q id e keyed own =
      insert-All q.envelopes id (record e { in_flight = true; receive_count = e.receive_count + 1 })
        keyed own

  deliverable-cases :
      (now : ℕ) (o : Option (Envelope B))
      → (deliverable now o ≡ none)
        ⊎ ((e : Envelope B) × (o ≡ some e) × (deliverable now o ≡ some e) × (e.in_flight ≡ false))
  deliverable-cases now none = inl refl
  deliverable-cases now (some e) = elim (Bool-cases (e.in_flight || ltb now e.visible_at)) [
    | inl held ↦ inl (rw held refl)
    | inr ready ↦ inr (e, refl, rw ready refl, ground arith)
  ]

  abbrev taken_or_skipped :
      ℕ
      → ℕ
      → String
      → List String
      → InProcessMessageSource B
      → Option (Envelope B)
      → List (Message B) × InProcessMessageSource B
  taken_or_skipped now left id ids q none = take_from now (suc left) ids q
  taken_or_skipped now left id ids q (some e) = (
    message_of q.receipts e ∷ (take_from now left ids (deliver id e q)).0,
    (take_from now left ids (deliver id e q)).1,
  )

  take_from-step :
      (now left : ℕ) (id : String) (ids : List String) (q : InProcessMessageSource B)
      → (take_from now (suc left) (id ∷ ids) q ≡ take_from now (suc left) ids q)
        ⊎ ((e : Envelope B) × (lookup id q.envelopes ≡ some e)
            × (e.in_flight ≡ false)
            × (take_from now (suc left) (id ∷ ids) q ≡ (
              message_of q.receipts e ∷ (take_from now left ids (deliver id e q)).0,
              (take_from now left ids (deliver id e q)).1,
            )))
  unfolding take_from
  take_from-step now left id ids q = elim (deliverable-cases now (lookup id q.envelopes)) [
    | inl nothing ↦ inl (ap (taken_or_skipped now left id ids q) nothing)
    | inr (e, found, ready, free) ↦
        inr (e, found, free, ap (taken_or_skipped now left id ids q) ready)
  ]

  -- A message in flight stays so and is not among those taken.
  pub take_from-InFlight :
      (now left : ℕ) (ids : List String) (q : InProcessMessageSource B) (k : String)
      → IsKeyed q
      → InFlight k q
      → InFlight k (take_from now left ids q).1
        × (contains (ids_of (take_from now left ids q).0) k ≡ false)
  unfolding take_from
  take_from-InFlight now left [] q k keyed f = (f, refl)
  take_from-InFlight now zero (id ∷ ids) q k keyed f = (f, refl)
  take_from-InFlight now (suc left) (id ∷ ids) q k keyed f =
      elim (take_from-step now left id ids q) [
        | inl skipped ↦
            subst (λ r. InFlight k r.1 × (contains (ids_of r.0) k ≡ false)) (sym skipped)
              (take_from-InFlight now (suc left) ids q k keyed f)
        | inr (e, found, free, took) ↦
            let own = keyed-lookup q.envelopes id e keyed found in
            let keyed' = deliver-IsKeyed q id e keyed own in
            let other : string_eq.beq id k ≡ false =
              ground (arith, string_eq.beq_iff id k, f.1, f.2) in
            let still : InFlight k (deliver id e q) = (
              f.0,
              ground (
                arith,
                lookup-insert id k
                    (record e { in_flight = true; receive_count = e.receive_count + 1 })
                    q.envelopes,
                f.1,
              ),
              f.2,
            ) in
            let not_this : string_eq.beq e.message_id k ≡ false = rw own other in
            let (after, absent) = take_from-InFlight now left ids (deliver id e q) k keyed' still in
            subst (λ r. InFlight k r.1 × (contains (ids_of r.0) k ≡ false)) (sym took)
              (after, rw not_this absent)
      ]

  -- A message that was taken is in flight.
  pub take_from-marks :
      (now left : ℕ) (ids : List String) (q : InProcessMessageSource B) (k : String)
      → IsKeyed q
      → contains (ids_of (take_from now left ids q).0) k ≡ true
      → InFlight k (take_from now left ids q).1
  unfolding take_from
  take_from-marks now left [] q k keyed h = cc
  take_from-marks now zero (id ∷ ids) q k keyed h = cc
  take_from-marks now (suc left) (id ∷ ids) q k keyed h = elim (take_from-step now left id ids q) [
    | inl skipped ↦
        subst (λ r. InFlight k r.1) (sym skipped)
          (take_from-marks now (suc left) ids q k keyed
            (subst (λ r. contains (ids_of r.0) k ≡ true) skipped h))
    | inr (e, found, free, took) ↦
        let own = keyed-lookup q.envelopes id e keyed found in
        let now_keyed = deliver-IsKeyed q id e keyed own in
        subst (λ r. InFlight k r.1) (sym took)
          (elim (Bool-cases (string_eq.beq id k)) [
            | inl same ↦
                (take_from-InFlight now left ids (deliver id e q) k now_keyed (
                  subst (λ j. InFlight j (deliver id e q)) ((string_eq.beq_iff id k).0 same)
                    (
                      record e { in_flight = true; receive_count = e.receive_count + 1 },
                      lookup-insert_self id
                          (record e { in_flight = true; receive_count = e.receive_count + 1 })
                          q.envelopes,
                      refl,
                    ))).0
            | inr other ↦
                let not_this : string_eq.beq e.message_id k ≡ false = rw own other in
                take_from-marks now left ids (deliver id e q) k now_keyed
                  (rw not_this at (subst (λ r. contains (ids_of r.0) k ≡ true) took h))
          ])
  ]

  pub take_from-IsKeyed :
      (now left : ℕ) (ids : List String) (q : InProcessMessageSource B)
      → IsKeyed q
      → IsKeyed (take_from now left ids q).1
  unfolding take_from
  take_from-IsKeyed now left [] q keyed = keyed
  take_from-IsKeyed now zero (id ∷ ids) q keyed = keyed
  take_from-IsKeyed now (suc left) (id ∷ ids) q keyed = elim (take_from-step now left id ids q) [
    | inl skipped ↦
        subst (λ r. IsKeyed r.1) (sym skipped) (take_from-IsKeyed now (suc left) ids q keyed)
    | inr (e, found, free, took) ↦
        subst (λ r. IsKeyed r.1) (sym took)
          (take_from-IsKeyed now left ids (deliver id e q)
            (deliver-IsKeyed q id e keyed (keyed-lookup q.envelopes id e keyed found)))
  ]
