-- ===== src/RateLimit/Bucket.antt =====
-- `TokenBucketRateLimiter` and `ManualClock` of market_pipeline_lib/rate_limit.py. A negative number of
-- tokens or requests raises like 0; what is done under the lock is one step.
use idea2strategy_data_pipel.Prelude.{
  ℕ, ◌+◌, ◌-◌, ◌*◌, Bool, Option, none, some, List, [], ◌∷◌, ◌++◌, if◌then◌else◌, ltb, ◌==◌,
}
use idea2strategy_data_pipel.Prelude.Int.{ℤ, pos, negsuc, pos_part, neg_part}
use idea2strategy_data_pipel.Prelude.Result.{Result, ok, err, ◌>>=◌}
use idea2strategy_data_pipel.RateLimit.Balance.{plus, minus, min_ℤ}

-- The causes of the `ValueError`s.
pub data LimitError : Type 0 where
  bad_rate bad_burst bad_tokens over_burst negative_time : LimitError

pub record ManualClock : Type 0 where
  pub now : ℕ
  pub advance_on_sleep : Bool
  pub sleeps : List ℕ

-- `ManualClock.sleep` and `advance`.
unfoldable pub sleep : ℤ → ManualClock → Result LimitError ManualClock
sleep (negsuc _) clock = err negative_time
sleep (pos seconds) clock = ok record clock {
  sleeps = clock.sleeps ++ seconds ∷ [];
  now = if clock.advance_on_sleep then clock.now + seconds else clock.now;
}

unfoldable pub advance : ℤ → ManualClock → Result LimitError ManualClock
advance (negsuc _) clock = err negative_time
advance (pos seconds) clock = ok record clock { now = clock.now + seconds }

pub record TokenBucketRateLimiter : Type 0 where
  pub requests_per_minute : ℕ
  pub resolution : ℕ
  pub capacity : ℕ
  pub tokens : ℤ
  pub updated : ℕ

-- The quanta of some tokens.
abbrev pub quanta : TokenBucketRateLimiter → ℕ → ℕ
quanta l tokens = tokens * (60 * l.resolution)

abbrev pub fresh : ℕ → ℕ → ℕ → ℕ → Result LimitError TokenBucketRateLimiter
fresh resolution rate capacity now =
    if capacity == 0
    then err bad_burst
    else ok record {
      requests_per_minute = rate;
      resolution = resolution;
      capacity = capacity;
      tokens = pos (capacity * (60 * resolution));
      updated = now;
    }

-- `__init__`.
unfoldable pub rate_limiter : ℕ → ℕ → Option ℕ → ℕ → Result LimitError TokenBucketRateLimiter
rate_limiter resolution rate burst now =
    if rate == 0
    then err bad_rate
    else fresh resolution rate (elim burst [ none ↦ rate | some b ↦ b ]) now

-- `_refill_locked`.
unfoldable pub refill : ℕ → TokenBucketRateLimiter → TokenBucketRateLimiter
refill now l =
    if ltb l.updated now
    then record l {
      tokens = min_ℤ (pos (quanta l l.capacity)) (plus l.tokens (now - l.updated));
      updated = now;
    }
    else record l { updated = now }

-- `available_tokens`, in quanta.
unfoldable pub available_tokens : ℕ → TokenBucketRateLimiter → ℤ × TokenBucketRateLimiter
available_tokens now l = ((refill now l).tokens, refill now l)

-- The part of `acquire` under the lock: the wait, and the limiter after the reservation.
unfoldable pub reserve : ℕ → ℕ → TokenBucketRateLimiter → ℕ × TokenBucketRateLimiter
reserve now tokens l =
    let filled = refill now l in
    (
      quanta l tokens + neg_part filled.tokens - pos_part filled.tokens,
      record filled { tokens = minus filled.tokens (quanta l tokens) },
    )

-- `acquire`, by a manual clock.
unfoldable pub acquire :
    ℕ
    → ManualClock
    → TokenBucketRateLimiter
    → Result LimitError (ℕ × ManualClock × TokenBucketRateLimiter)
acquire tokens clock l =
    if tokens == 0
    then err bad_tokens
    else if ltb l.capacity tokens
    then err over_burst
    else let (wait, l') = reserve clock.now tokens l in
      if wait == 0
      then ok (wait, clock, l')
      else sleep (pos wait) clock >>= (λ clock'. ok (wait, clock', l'))
