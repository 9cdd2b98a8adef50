-- ===== src/Messaging/Examples.antt =====
-- One message in the local queue (apps/pipeline_worker/messaging.py).
use idea2strategy_data_pipel.Prelude.{ℕ, ◌≡◌, refl, true, false, [], ◌∷◌}
use idea2strategy_data_pipel.Prelude.Eq.{string_eq, contains}
use idea2strategy_data_pipel.Messaging.{
  empty_source, submit, InProcessMessageSource, Message, take_from, take, extend_visibility,
}
use idea2strategy_data_pipel.Prelude.Result.{ok}
use idea2strategy_data_pipel.Messaging.Reachable.{submits, IsReachable, starts, goes_on}
use idea2strategy_data_pipel.Messaging.Taking.{ids_of}
use idea2strategy_data_pipel.Messaging.Redelivery.{nothing, extended, take-withholds}

abbrev queue : InProcessMessageSource ℕ
queue = record {
  envelopes =
      (
        "m",
        record { message_id = "m"; body = 1; receive_count = 0; visible_at = 0; in_flight = false },
      )
      ∷ [];
  order = "m" ∷ [];
  receipts = 1;
  is_closed = false;
  dead_letters = [];
}

submit_test : submit empty_source "m" 1 ≡ ok queue
unfolding submit
submit_test = refl

queue-IsReachable : IsReachable queue
queue-IsReachable = goes_on starts (submits empty_source "m" 1 submit_test)

abbrev delivery : Message ℕ
delivery = record { message_id = "m"; body = 1; receipt_handle = 1; receive_count = 1 }

abbrev after : InProcessMessageSource ℕ
after = record queue {
  envelopes =
      (
        "m",
        record { message_id = "m"; body = 1; receive_count = 1; visible_at = 0; in_flight = true },
      )
      ∷ [];
  receipts = 2;
}

take_test : take 3 10 queue ≡ (delivery ∷ [], after)
unfolding take take_from
take_test = refl

-- The visibility of the delivery was extended to 63, and it is not delivered at 1000 either.
take-withholds_example :
    contains (ids_of (take 1000 10 (extend_visibility 3 60 delivery (take 3 10 queue).1)).0) "m"
    ≡ false
take-withholds_example =
    take-withholds queue (extend_visibility 3 60 delivery (take 3 10 queue).1) 3 1000 10 10 "m"
      queue-IsReachable (rw take_test refl) (extended 3 60 delivery (nothing (take 3 10 queue).1))
