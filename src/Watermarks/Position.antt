-- ===== src/Watermarks/Position.antt =====
-- `StreamPosition` of market_pipeline_lib/watermarks.py: the source clock, tie-broken by sequence.
-- An instant is the number of microseconds from year 1 in UTC, so `astimezone(UTC)` keeps it.
use idea2strategy_data_pipel.Prelude.{
  ℕ, ◌-◌, ◌^◌, ◌≡◌, ◌↔◌, Bool, true, false, ◌&&◌, ◌||◌, Option, none, some, ltb, ◌==◌, String,
  arith,
}
use idea2strategy_data_pipel.Prelude.Int.{ℤ, negsuc, ltb_ℤ, leb_ℤ, eqb_ℤ, eqb_ℤ_iff}
use idea2strategy_data_pipel.Prelude.Result.{Result, ok, err}

-- A `datetime`: without a timezone, or the instant that it names.
pub data DateTime : Type 0 where
  naive : ℕ → DateTime
  aware : ℕ → DateTime

-- `WatermarkError` and its subclass `UnknownShardError`, by cause.
pub data WatermarkError : Type 0 where
  not_aware : WatermarkError
  empty_feed_id : WatermarkError
  no_shard_keys : WatermarkError
  duplicate_shard_keys : WatermarkError
  unknown_shard : String → WatermarkError
  row_vanished : WatermarkError
  not_a_uuid : WatermarkError

pub record StreamPosition : Type 0 where
  pub source_event_at : ℕ
  pub sequence : Option ℤ

-- `_NO_SEQUENCE`, which is -(2 ** 63).
abbrev pub no_sequence : ℤ
no_sequence = negsuc (2 ^ 63 - 1)

-- The instant of a `datetime`, or the error for one without a timezone.
unfoldable pub as_utc : DateTime → Result WatermarkError ℕ
as_utc (naive t) = err not_aware
as_utc (aware t) = ok t

-- `StreamPosition(...)` with its `__post_init__`.
unfoldable pub stream_position : DateTime → Option ℤ → Result WatermarkError StreamPosition
stream_position (naive t) sequence = err not_aware
stream_position (aware t) sequence = ok (record { source_event_at = t; sequence = sequence })

abbrev pub sequence_key : Option ℤ → ℤ
sequence_key none = no_sequence
sequence_key (some s) = s

abbrev pub order_key : StreamPosition → ℕ × ℤ
order_key p = (p.source_event_at, sequence_key p.sequence)

-- Python's order on the pairs.
abbrev pub key_lt : ℕ × ℤ → ℕ × ℤ → Bool
key_lt (t, s) (u, r) = ltb t u || (t == u && ltb_ℤ s r)

abbrev pub key_le : ℕ × ℤ → ℕ × ℤ → Bool
key_le (t, s) (u, r) = ltb t u || (t == u && leb_ℤ s r)

-- `__lt__`, `__le__`, `__gt__`, `__ge__`.
abbrev pub lt : StreamPosition → StreamPosition → Bool
lt p q = key_lt (order_key p) (order_key q)

abbrev pub le : StreamPosition → StreamPosition → Bool
le p q = key_le (order_key p) (order_key q)

abbrev pub gt : StreamPosition → StreamPosition → Bool
gt p q = key_lt (order_key q) (order_key p)

abbrev pub ge : StreamPosition → StreamPosition → Bool
ge p q = key_le (order_key q) (order_key p)

abbrev pub sequence_eq : Option ℤ → Option ℤ → Bool
sequence_eq none none = true
sequence_eq (some a) (some b) = eqb_ℤ a b
sequence_eq _ _ = false

-- The dataclass's own `__eq__`, field by field: it does not go through `order_key`.
abbrev pub eq : StreamPosition → StreamPosition → Bool
eq p q = (p.source_event_at == q.source_event_at) && sequence_eq p.sequence q.sequence

sequence_eq_iff : (a b : Option ℤ) → (sequence_eq a b ≡ true) ↔ (a ≡ b)
sequence_eq_iff none none = ground arith
sequence_eq_iff none (some b) = ground arith
sequence_eq_iff (some a) none = ground arith
sequence_eq_iff (some a) (some b) = ground (arith, eqb_ℤ_iff a b)

pub eq_iff : (p q : StreamPosition) → (eq p q ≡ true) ↔ (p ≡ q)
eq_iff p q = ground (arith, sequence_eq_iff p.sequence q.sequence)

-- The order is total, and `le` is the negation of `gt`.
pub le-eq-not_gt : (p q : StreamPosition) → gt p q ≡ false → le p q ≡ true
le-eq-not_gt p q h = ground arith

pub le_refl : (p : StreamPosition) → le p p ≡ true
le_refl p = ground arith

pub le_trans : (p q r : StreamPosition) → le p q ≡ true → le q r ≡ true → le p r ≡ true
le_trans p q r h k = ground arith

pub le_of_lt : (p q : StreamPosition) → lt p q ≡ true → le p q ≡ true
le_of_lt p q h = ground arith

pub lt-le_trans : (p q r : StreamPosition) → lt p q ≡ true → le q r ≡ true → lt p r ≡ true
lt-le_trans p q r h k = ground arith

pub le-lt_trans : (p q r : StreamPosition) → le p q ≡ true → lt q r ≡ true → lt p r ≡ true
le-lt_trans p q r h k = ground arith

pub not_lt_of_le : (p q : StreamPosition) → le p q ≡ true → gt p q ≡ false
not_lt_of_le p q h = ground arith
