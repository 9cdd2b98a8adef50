-- ===== src/Messaging/Reachable.antt =====
-- The states of the local queue of apps/pipeline_worker/messaging.py.
use idea2strategy_data_pipel.Prelude.{
  ℕ, ◌+◌, String, ◌≡◌, inl, inr, false, refl, sym, subst, arith, All, Option-cases,
}
use idea2strategy_data_pipel.Prelude.Eq.{string_eq}
use idea2strategy_data_pipel.Prelude.Dict.{lookup, insert}
use idea2strategy_data_pipel.Prelude.Result.{ok}
use idea2strategy_data_pipel.Messaging.{
  Message, Envelope, InProcessMessageSource, empty_source, submit, take, acknowledge, retry_later,
  extend_visibility, dead_letter, close,
}
use idea2strategy_data_pipel.Messaging.Taking.{
  OwnKey, IsKeyed, keyed-lookup, insert-All, erase-All, take_from-IsKeyed,
}

module _ {B : Type 0} where
  -- One call of a producer or a consumer, with any message.
  pub data Call : InProcessMessageSource B → InProcessMessageSource B → Type 0 where
    submits :
        (q : InProcessMessageSource B) {r : InProcessMessageSource B} (id : String) (body : B)
        → submit q id body ≡ ok r
        → Call q r
    takes : (q : InProcessMessageSource B) (now n : ℕ) → Call q (take now n q).1
    extends :
        (q : InProcessMessageSource B) (now timeout : ℕ) (m : Message B)
        → Call q (extend_visibility now timeout m q)
    retries :
        (q : InProcessMessageSource B) (now delay : ℕ) (m : Message B)
        → Call q (retry_later now delay m q)
    acknowledges : (q : InProcessMessageSource B) (m : Message B) → Call q (acknowledge m q)
    parks :
        (q : InProcessMessageSource B) (m : Message B) (reason : String)
        → Call q (dead_letter m reason q)
    closes : (q : InProcessMessageSource B) → Call q (close q)

  pub data IsReachable : InProcessMessageSource B → Type 0 where
    starts : IsReachable empty_source
    goes_on : {q r : InProcessMessageSource B} → IsReachable q → Call q r → IsReachable r

  Call-IsKeyed : {q r : InProcessMessageSource B} → Call q r → IsKeyed q → IsKeyed r
  unfolding submit take acknowledge retry_later extend_visibility dead_letter
  Call-IsKeyed (submits q {r = r} id body h) keyed =
      let new : Envelope B = record {
        message_id = id;
        body = body;
        receive_count = 0;
        visible_at = 0;
        in_flight = false;
      } in
      let after : r.envelopes ≡ insert id new q.envelopes = ground arith in
      subst (All OwnKey) (sym after) (insert-All q.envelopes id new keyed refl)
  Call-IsKeyed (takes q now n) keyed = take_from-IsKeyed now n q.order q keyed
  Call-IsKeyed (extends q now timeout m) keyed =
      elim (Option-cases (lookup m.message_id q.envelopes)) [
        | inl missing ↦
            let same : extend_visibility now timeout m q ≡ q = ground arith in
            subst IsKeyed (sym same) keyed
        | inr (x, held) ↦
            let later = record x { visible_at = now + timeout } in
            let after : (extend_visibility now timeout m q).envelopes
                ≡ insert m.message_id later q.envelopes =
              ground arith in
            subst (All OwnKey) (sym after) (
              insert-All q.envelopes m.message_id later keyed
                (keyed-lookup q.envelopes m.message_id x keyed held))
      ]
  Call-IsKeyed (retries q now delay m) keyed =
      elim (Option-cases (lookup m.message_id q.envelopes)) [
        | inl missing ↦
            let same : retry_later now delay m q ≡ q = ground arith in
            subst IsKeyed (sym same) keyed
        | inr (x, held) ↦
            let later = record x { in_flight = false; visible_at = now + delay } in
            let after : (retry_later now delay m q).envelopes
                ≡ insert m.message_id later q.envelopes =
              ground arith in
            subst (All OwnKey) (sym after) (
              insert-All q.envelopes m.message_id later keyed
                (keyed-lookup q.envelopes m.message_id x keyed held))
      ]
  Call-IsKeyed (acknowledges q m) keyed = erase-All q.envelopes m.message_id keyed
  Call-IsKeyed (parks q m reason) keyed = erase-All q.envelopes m.message_id keyed
  Call-IsKeyed (closes q) keyed = keyed

  -- Every queue that calls can lead to from the empty one holds each envelope under its own id.
  pub reachable-IsKeyed : (q : InProcessMessageSource B) → IsReachable q → IsKeyed q
  reachable-IsKeyed q starts = tt
  reachable-IsKeyed q (goes_on reach call) = Call-IsKeyed call (reachable-IsKeyed _ reach)
