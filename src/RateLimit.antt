-- ===== src/RateLimit.antt =====
-- market_pipeline_lib/rate_limit.py: the token bucket and the manual clock, in exact arithmetic in place of
-- floats. An instant is a number of ticks and a balance one of quanta: with a resolution `r` a second has
-- `requests_per_minute * r` ticks and a token `60 * r` quanta, so that one quantum flows in at each tick,
-- which is the rate of `requests_per_minute / 60` tokens a second, and every wait is whole.
pub mod Balance
pub mod Bucket
pub mod Waiting
pub mod Admission
pub mod Examples
