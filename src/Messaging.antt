-- ===== src/Messaging.antt =====
-- `InProcessMessageSource` of apps/pipeline_worker/messaging.py: the local queue of the worker. The clock
-- is an argument, a message body a parameter; `poll` is `_take`, tried until the deadline.
pub mod Taking
pub mod Reachable
pub mod Redelivery
pub mod Examples
use idea2strategy_data_pipel.Prelude.{
  ℕ, zero, suc, ◌+◌, String, Bool, true, false, ◌||◌, Option, none, some, List, [], ◌∷◌, ◌++◌,
  length, ltb, if◌then◌else◌,
}
use idea2strategy_data_pipel.Prelude.Eq.{string_eq}
use idea2strategy_data_pipel.Prelude.Dict.{Dict, lookup, has, insert, erase}
use idea2strategy_data_pipel.Prelude.Result.{Result, ok, err}

pub record Message (B : Type 0) : Type 0 where
  pub message_id : String
  pub body : B
  pub receipt_handle : ℕ
  pub receive_count : ℕ

-- `_Envelope`.
pub record Envelope (B : Type 0) : Type 0 where
  pub message_id : String
  pub body : B
  pub receive_count : ℕ
  pub visible_at : ℕ
  pub in_flight : Bool

pub record InProcessMessageSource (B : Type 0) : Type 0 where
  pub envelopes : Dict String (Envelope B)
  pub order : List String
  pub receipts : ℕ
  pub is_closed : Bool
  pub dead_letters : List (Message B × String)

-- The `RuntimeError` of a closed source and the `ValueError` of an id that is queued.
pub data SubmitError : Type 0 where
  closed_source already_queued : SubmitError

-- `list.remove`.
abbrev pub remove : String → List String → List String
remove k [] = []
remove k (x ∷ xs) = if string_eq.beq x k then xs else x ∷ remove k xs

module _ {B : Type 0} where
  -- `__init__`.
  abbrev pub empty_source : InProcessMessageSource B
  empty_source = record {
    envelopes = [];
    order = [];
    receipts = 1;
    is_closed = false;
    dead_letters = [];
  }

  -- `submit`, under the id that was given or made.
  unfoldable pub submit :
      InProcessMessageSource B → String → B → Result SubmitError (InProcessMessageSource B)
  submit q id body =
      if q.is_closed
      then err closed_source
      else if has id q.envelopes
      then err already_queued
      else ok (record q {
        envelopes =
            insert id
              (record {
                message_id = id;
                body = body;
                receive_count = 0;
                visible_at = 0;
                in_flight = false;
              })
              q.envelopes;
        order = q.order ++ id ∷ [];
      })

  abbrev pub pending : InProcessMessageSource B → ℕ
  pending q = length q.envelopes

  -- The envelope, unless it is in flight or not visible yet.
  abbrev pub deliverable : ℕ → Option (Envelope B) → Option (Envelope B)
  deliverable now none = none
  deliverable now (some e) = if e.in_flight || ltb now e.visible_at then none else some e

  abbrev pub message_of : ℕ → Envelope B → Message B
  message_of receipt e = record {
    message_id = e.message_id;
    body = e.body;
    receipt_handle = receipt;
    receive_count = e.receive_count + 1;
  }

  abbrev pub deliver : String → Envelope B → InProcessMessageSource B → InProcessMessageSource B
  deliver id e q = record q {
    envelopes =
        insert id (record e { in_flight = true; receive_count = e.receive_count + 1 }) q.envelopes;
    receipts = q.receipts + 1;
  }

  -- The loop of `_take` over the rest of the order, with the number of messages still wanted.
  unfoldable pub take_from :
      ℕ → ℕ → List String → InProcessMessageSource B → List (Message B) × InProcessMessageSource B
  take_from now left [] q = ([], q)
  take_from now zero (id ∷ ids) q = ([], q)
  take_from now (suc left) (id ∷ ids) q = elim (deliverable now (lookup id q.envelopes)) [
    | none ↦ take_from now (suc left) ids q
    | some e ↦
        let (ms, q') = take_from now left ids (deliver id e q) in (message_of q.receipts e ∷ ms, q')
  ]

  -- `_take`.
  unfoldable pub take :
      ℕ → ℕ → InProcessMessageSource B → List (Message B) × InProcessMessageSource B
  unfolding take_from
  take now max_messages q = take_from now max_messages q.order q

  -- `acknowledge`.
  unfoldable pub acknowledge : Message B → InProcessMessageSource B → InProcessMessageSource B
  acknowledge m q = record q {
    envelopes = erase m.message_id q.envelopes;
    order = remove m.message_id q.order;
  }

  -- `retry_later` at the instant `now`.
  unfoldable pub retry_later :
      ℕ → ℕ → Message B → InProcessMessageSource B → InProcessMessageSource B
  retry_later now delay m q = elim (lookup m.message_id q.envelopes) [
    | none ↦ q
    | some e ↦ record q {
      envelopes =
          insert m.message_id (record e { in_flight = false; visible_at = now + delay })
            q.envelopes;
    }
  ]

  -- `extend_visibility` at the instant `now`.
  unfoldable pub extend_visibility :
      ℕ → ℕ → Message B → InProcessMessageSource B → InProcessMessageSource B
  extend_visibility now timeout m q = elim (lookup m.message_id q.envelopes) [
    | none ↦ q
    | some e ↦ record q {
      envelopes = insert m.message_id (record e { visible_at = now + timeout }) q.envelopes;
    }
  ]

  -- `dead_letter`.
  unfoldable pub dead_letter :
      Message B → String → InProcessMessageSource B → InProcessMessageSource B
  dead_letter m reason q = record q {
    envelopes = erase m.message_id q.envelopes;
    order = remove m.message_id q.order;
    dead_letters = q.dead_letters ++ (m, reason) ∷ [];
  }

  abbrev pub close : InProcessMessageSource B → InProcessMessageSource B
  close q = record q { is_closed = true }
