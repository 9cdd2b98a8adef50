-- ===== src/RateLimit/Examples.antt =====
-- A limiter of six requests a minute and a burst of two (market_pipeline_lib/rate_limit.py).
use idea2strategy_data_pipel.Prelude.{◌-◌, ℕ, ◌+◌, ◌*◌, ◌≤◌, true, some, [], ◌≡◌, refl, arith}
use idea2strategy_data_pipel.Prelude.Int.{neg_part, pos, negsuc}
use idea2strategy_data_pipel.Prelude.Result.{ok, err}
use idea2strategy_data_pipel.RateLimit.Balance.{diff}
use idea2strategy_data_pipel.RateLimit.Bucket.{
  over_burst, negative_time, ManualClock, advance, TokenBucketRateLimiter, quanta, rate_limiter,
  refill, available_tokens, reserve, acquire,
}
use idea2strategy_data_pipel.RateLimit.Waiting.{acquire-pays_by_waiting}
use idea2strategy_data_pipel.RateLimit.Admission.{starts, reserves, reserve-admits_at_most}

-- With a resolution of 1 a second is six ticks, and a token 60 quanta.
abbrev limiter : TokenBucketRateLimiter
limiter = record {
  requests_per_minute = 6;
  resolution = 1;
  capacity = 2;
  tokens = pos 120;
  updated = 0;
}

abbrev clock : ManualClock
clock = record { now = 0; advance_on_sleep = true; sleeps = [] }

limiter_test : rate_limiter 1 6 (some 2) 0 ≡ ok limiter
unfolding rate_limiter
limiter_test = refl

-- An empty bucket of the rate fills in a minute, sixty seconds of six ticks.
minute_test :
    (available_tokens 360 (record {
      requests_per_minute = 6;
      resolution = 1;
      capacity = 6;
      tokens = pos 0;
      updated = 0;
    })).0
    ≡ pos (6 * 60)
unfolding available_tokens refill diff
minute_test = refl

over_burst_test : acquire 3 clock limiter ≡ err over_burst
unfolding acquire
over_burst_test = refl

backwards_test : advance (negsuc 0) clock ≡ err negative_time
unfolding advance
backwards_test = refl

-- The third token is waited for.
third_test : (reserve 0 1 (reserve 0 2 limiter).1).0 ≡ 60
unfolding reserve refill diff
third_test = refl

acquire-pays_by_waiting_example :
    (wait : ℕ) × (clock' : ManualClock) × (l' : TokenBucketRateLimiter) × (acquire 2 clock limiter
      ≡ ok (wait, clock', l'))
    × (clock'.now ≡ 0 + wait)
    × (neg_part (available_tokens (0 + 3) l').0 ≡ wait - 3)
acquire-pays_by_waiting_example =
    acquire-pays_by_waiting 2 clock limiter 3 (ground arith) (ground arith) (ground arith) refl

not_later : (reserve 0 2 limiter).1.updated ≤ 0
unfolding reserve refill
not_later = ground arith

reserve-admits_at_most_example :
    quanta limiter (0 + 2 + 1) + 0
    ≤ quanta limiter 2 + (0 + (reserve 0 1 (reserve 0 2 limiter).1).0)
reserve-admits_at_most_example =
    reserve-admits_at_most 1 6 0 (some 2) limiter (reserve 0 2 limiter).1 (0 + 2) 0 1 limiter_test
      (reserves limiter 0 0 2 starts (ground arith)) not_later
