-- ===== src/Messaging/Redelivery.antt =====
-- When the local queue of apps/pipeline_worker/messaging.py delivers a message again.
use idea2strategy_data_pipel.Prelude.{
  ℕ, ◌+◌, String, ◌≡◌, inl, inr, true, false, refl, sym, subst, arith, All, Bool-cases,
  Option-cases,
}
use idea2strategy_data_pipel.Prelude.Eq.{string_eq, contains}
use idea2strategy_data_pipel.Prelude.Dict.{lookup, insert, erase, lookup-insert}
use idea2strategy_data_pipel.Prelude.Result.{ok}
use idea2strategy_data_pipel.Messaging.{
  Message, Envelope, InProcessMessageSource, submit, take, acknowledge, retry_later,
  extend_visibility, dead_letter, close,
}
use idea2strategy_data_pipel.Messaging.Taking.{
  OwnKey, IsKeyed, InFlight, ids_of, lookup-erase_ne, keyed-lookup, insert-All, erase-All,
  take_from-InFlight, take_from-marks, take_from-IsKeyed,
}
use idea2strategy_data_pipel.Messaging.Reachable.{IsReachable, reachable-IsKeyed}

module _ {B : Type 0} where
  -- What producers and consumers do while the consumer of the message `id` has not answered for it: any
  -- call, but an `acknowledge`, `retry_later` or `dead_letter` only for another message.
  pub data Meanwhile (id : String)
      : InProcessMessageSource B → InProcessMessageSource B → Type 0 where
    nothing : (q : InProcessMessageSource B) → Meanwhile id q q
    submitted :
        {q r t : InProcessMessageSource B} (j : String) (body : B)
        → Meanwhile id q r
        → submit r j body ≡ ok t
        → Meanwhile id q t
    taken :
        {q r : InProcessMessageSource B} (now n : ℕ)
        → Meanwhile id q r
        → Meanwhile id q (take now n r).1
    extended :
        {q r : InProcessMessageSource B} (now timeout : ℕ) (m : Message B)
        → Meanwhile id q r
        → Meanwhile id q (extend_visibility now timeout m r)
    acknowledged :
        {q r : InProcessMessageSource B} (m : Message B)
        → string_eq.beq m.message_id id ≡ false
        → Meanwhile id q r
        → Meanwhile id q (acknowledge m r)
    retried :
        {q r : InProcessMessageSource B} (now delay : ℕ) (m : Message B)
        → string_eq.beq m.message_id id ≡ false
        → Meanwhile id q r
        → Meanwhile id q (retry_later now delay m r)
    parked :
        {q r : InProcessMessageSource B} (m : Message B) (reason : String)
        → string_eq.beq m.message_id id ≡ false
        → Meanwhile id q r
        → Meanwhile id q (dead_letter m reason r)
    closed : {q r : InProcessMessageSource B} → Meanwhile id q r → Meanwhile id q (close r)

  abbrev Held : String → InProcessMessageSource B → Type 0
  Held id q = IsKeyed q × InFlight id q

  submit-Held :
      (id : String) (q t : InProcessMessageSource B) (j : String) (body : B)
      → submit q j body ≡ ok t
      → Held id q
      → Held id t
  unfolding submit
  submit-Held id q t j body h (keyed, (e, found, flies)) =
      let new : Envelope B = record {
        message_id = j;
        body = body;
        receive_count = 0;
        visible_at = 0;
        in_flight = false;
      } in
      let after : t.envelopes ≡ insert j new q.envelopes = ground arith in
      let other : string_eq.beq j id ≡ false = ground (arith, string_eq.beq_iff j id) in
      (
        subst (All OwnKey) (sym after) (insert-All q.envelopes j new keyed refl),
        (e, rw after (ground (arith, lookup-insert j id new q.envelopes)), flies),
      )

  extend-Held :
      (id : String) (now timeout : ℕ) (m : Message B) (q : InProcessMessageSource B)
      → Held id q
      → Held id (extend_visibility now timeout m q)
  unfolding extend_visibility
  extend-Held id now timeout m q (keyed, (e, found, flies)) =
      elim (Option-cases (lookup m.message_id q.envelopes)) [
        | inl missing ↦
            let same : extend_visibility now timeout m q ≡ q = ground arith in
            subst (Held id) (sym same) (keyed, (e, found, flies))
        | inr (x, held) ↦
            let later = record x { visible_at = now + timeout } in
            let after : (extend_visibility now timeout m q).envelopes
                ≡ insert m.message_id later q.envelopes =
              ground arith in
            (
              subst (All OwnKey) (sym after) (
                  insert-All q.envelopes m.message_id later keyed
                    (keyed-lookup q.envelopes m.message_id x keyed held)),
              elim (Bool-cases (string_eq.beq m.message_id id)) [
                | inl own ↦ (
                  later,
                  rw after (ground (arith, lookup-insert m.message_id id later q.envelopes)),
                  ground (arith, string_eq.beq_iff m.message_id id),
                )
                | inr other ↦ (
                  e,
                  rw after (ground (arith, lookup-insert m.message_id id later q.envelopes)),
                  flies,
                )
              ],
            )
      ]

  erase-Held :
      (id j : String) (q r : InProcessMessageSource B)
      → string_eq.beq j id ≡ false
      → r.envelopes ≡ erase j q.envelopes
      → Held id q
      → Held id r
  erase-Held id j q r other same (keyed, (e, found, flies)) = (
    subst (All OwnKey) (sym same) (erase-All q.envelopes j keyed),
    (e, rw (same, lookup-erase_ne j id q.envelopes other) found, flies),
  )

  retry-Held :
      (id : String) (now delay : ℕ) (m : Message B) (q : InProcessMessageSource B)
      → string_eq.beq m.message_id id ≡ false
      → Held id q
      → Held id (retry_later now delay m q)
  unfolding retry_later
  retry-Held id now delay m q other (keyed, (e, found, flies)) =
      elim (Option-cases (lookup m.message_id q.envelopes)) [
        | inl missing ↦
            let same : retry_later now delay m q ≡ q = ground arith in
            subst (Held id) (sym same) (keyed, (e, found, flies))
        | inr (x, held) ↦
            let later = record x { in_flight = false; visible_at = now + delay } in
            let after : (retry_later now delay m q).envelopes
                ≡ insert m.message_id later q.envelopes =
              ground arith in
            (
              subst (All OwnKey) (sym after) (
                  insert-All q.envelopes m.message_id later keyed
                    (keyed-lookup q.envelopes m.message_id x keyed held)),
              (
                e,
                rw after (ground (arith, lookup-insert m.message_id id later q.envelopes)),
                flies,
              ),
            )
      ]

  Meanwhile-Held :
      {id : String} {q r : InProcessMessageSource B} → Meanwhile id q r → Held id q → Held id r
  unfolding take acknowledge dead_letter
  Meanwhile-Held (nothing q) h = h
  Meanwhile-Held {id = id} (submitted {r = r} {t = t} j body w went) h =
      submit-Held id r t j body went (Meanwhile-Held w h)
  Meanwhile-Held {id = id} (taken {r = r} now n w) h =
      let (keyed, flies) = Meanwhile-Held w h in
      (
        take_from-IsKeyed now n r.order r keyed,
        (take_from-InFlight now n r.order r id keyed flies).0,
      )
  Meanwhile-Held {id = id} (extended {r = r} now timeout m w) h =
      extend-Held id now timeout m r (Meanwhile-Held w h)
  Meanwhile-Held {id = id} (acknowledged {r = r} m other w) h =
      erase-Held id m.message_id r (acknowledge m r) other refl (Meanwhile-Held w h)
  Meanwhile-Held {id = id} (retried {r = r} now delay m other w) h =
      retry-Held id now delay m r other (Meanwhile-Held w h)
  Meanwhile-Held {id = id} (parked {r = r} m reason other w) h =
      erase-Held id m.message_id r (dead_letter m reason r) other refl (Meanwhile-Held w h)
  Meanwhile-Held (closed w) h = Meanwhile-Held w h

  -- In every queue that calls can lead to, a message that was delivered is not delivered again, at
  -- whatever later instant and however its visibility was extended, until its consumer acknowledges,
  -- retries or parks it.
  pub take-withholds :
      (q r : InProcessMessageSource B) (now later n max_messages : ℕ) (id : String)
      → IsReachable q
      → contains (ids_of (take now n q).0) id ≡ true
      → Meanwhile id (take now n q).1 r
      → contains (ids_of (take later max_messages r).0) id ≡ false
  unfolding take
  take-withholds q r now later n max_messages id reach h w =
      let keyed = reachable-IsKeyed q reach in
      let (keyed', flies) =
        Meanwhile-Held w
          (take_from-IsKeyed now n q.order q keyed, take_from-marks now n q.order q id keyed h) in
      (take_from-InFlight later max_messages r.order r id keyed' flies).1
