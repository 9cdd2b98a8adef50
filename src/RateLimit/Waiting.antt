-- ===== src/RateLimit/Waiting.antt =====
-- The wait of `acquire` (market_pipeline_lib/rate_limit.py).
use idea2strategy_data_pipel.Prelude.{
  ℕ, ◌+◌, ◌-◌, ◌≤◌, true, false, ◌≡◌, refl, subst, arith, if◌then◌else◌, ltb, ◌==◌, inl, inr, ◌⊎◌,
  Bool-cases, ◌++◌, [], ◌∷◌,
}
use idea2strategy_data_pipel.Prelude.Int.{ℤ, pos, pos_part, neg_part, leb_ℤ, ◌≤ℤ◌}
use idea2strategy_data_pipel.Prelude.Result.{ok}
use idea2strategy_data_pipel.RateLimit.Balance.{plus, min_ℤ, diff-value, one_part}
use idea2strategy_data_pipel.RateLimit.Bucket.{
  ManualClock, sleep, TokenBucketRateLimiter, quanta, refill, available_tokens, reserve, acquire,
}

-- The balance is at most the capacity.
abbrev pub IsBounded : TokenBucketRateLimiter → Type 0
IsBounded l = l.tokens ≤ℤ pos (quanta l l.capacity)

pub min_ℤ-le_left : (a b : ℤ) → min_ℤ a b ≤ℤ a
min_ℤ-le_left a b = ground arith

pub min_ℤ-le_right : (a b : ℤ) → min_ℤ a b ≤ℤ b
min_ℤ-le_right a b = ground arith

-- `y` is `z` with `v` quanta flown in, up to the capacity `c`.
pub record IsFilled (c v : ℕ) (z y : ℤ) : Type 0 where
  pub is_capped : pos_part y ≤ c + neg_part y
  pub adds_at_most : pos_part y + neg_part z ≤ pos_part z + v + neg_part y
  pub is_full_or_adds :
      (pos_part y ≡ c + neg_part y) ⊎ (pos_part y + neg_part z ≡ pos_part z + v + neg_part y)

min_plus-IsFilled : (c v : ℕ) (z : ℤ) → IsFilled c v z (min_ℤ (pos c) (plus z v))
min_plus-IsFilled c v z =
    let value = diff-value (pos_part z + v) (neg_part z) in
    elim (Bool-cases (leb_ℤ (pos c) (plus z v))) [
      | inl full ↦ rw full (record {
        is_capped = ground arith;
        adds_at_most = ground arith;
        is_full_or_adds = inl (ground arith);
      })
      | inr adds ↦ rw adds (record {
        is_capped = ground arith;
        adds_at_most = ground arith;
        is_full_or_adds = inr (ground arith);
      })
    ]

same-IsFilled : (c : ℕ) (z : ℤ) → z ≤ℤ pos c → IsFilled c 0 z z
same-IsFilled c z h = record {
  is_capped = ground arith;
  adds_at_most = ground arith;
  is_full_or_adds = inr (ground arith);
}

nothing_flows : (u now : ℕ) → ltb u now ≡ false → 0 ≡ now - u
nothing_flows u now h = ground arith

pub refill-IsFilled :
    (l : TokenBucketRateLimiter) (now : ℕ)
    → IsBounded l
    → IsFilled (quanta l l.capacity) (now - l.updated) l.tokens (refill now l).tokens
unfolding refill
refill-IsFilled l now h = elim (Bool-cases (ltb l.updated now)) [
  | inl later ↦ rw later (min_plus-IsFilled (quanta l l.capacity) (now - l.updated) l.tokens)
  | inr same ↦ rw same (
      subst (λ v. IsFilled (quanta l l.capacity) v l.tokens l.tokens)
        (nothing_flows l.updated now same) (same-IsFilled (quanta l l.capacity) l.tokens h))
]

pub refill-updated : (l : TokenBucketRateLimiter) (now : ℕ) → (refill now l).updated ≡ now
unfolding refill
refill-updated l now = ground arith

pub refill-capacity :
    (l : TokenBucketRateLimiter) (now : ℕ)
    → ((refill now l).capacity ≡ l.capacity) × ((refill now l).resolution ≡ l.resolution)
unfolding refill
refill-capacity l now = ground arith

-- The reservation takes the tokens out of the balance, and the wait is what is missing.
pub record IsReserved (l : TokenBucketRateLimiter) (now tokens wait : ℕ)
    (l' : TokenBucketRateLimiter) : Type 0 where
  pub balance :
      pos_part l'.tokens + (neg_part (refill now l).tokens + quanta l tokens)
      ≡ pos_part (refill now l).tokens + neg_part l'.tokens
  pub wait_is :
      wait ≡ quanta l tokens + neg_part (refill now l).tokens - pos_part (refill now l).tokens
  pub is_now : l'.updated ≡ now
  pub same_capacity : (l'.capacity ≡ l.capacity) × (l'.resolution ≡ l.resolution)

pub reserve-IsReserved :
    (l : TokenBucketRateLimiter) (now tokens : ℕ)
    → IsReserved l now tokens (reserve now tokens l).0 (reserve now tokens l).1
unfolding reserve
reserve-IsReserved l now tokens = record {
  balance =
      diff-value (pos_part (refill now l).tokens)
        (neg_part (refill now l).tokens + quanta l tokens);
  wait_is = refl;
  is_now = refill-updated l now;
  same_capacity = refill-capacity l now;
}

-- The wait is the debt.
pub IsReserved-debt :
    (l l' : TokenBucketRateLimiter) (now tokens wait : ℕ)
    → IsReserved l now tokens wait l'
    → wait ≡ neg_part l'.tokens
IsReserved-debt l l' now tokens wait r =
    ground (arith, r.balance, r.wait_is, one_part l'.tokens, one_part (refill now l).tokens)

IsFilled-debt : (c v : ℕ) (z y : ℤ) → IsFilled c v z y → neg_part y ≡ neg_part z - v
IsFilled-debt c v z y f =
    ground (arith, f.is_capped, f.adds_at_most, f.is_full_or_adds, one_part y, one_part z)

bounded : (p n f g q c : ℕ) → p + (g + q) ≡ f + n → f ≤ c + g → p + 0 ≤ c + n
bounded p n f g q c h k = ground arith

pub reserved-IsBounded :
    (l l' : TokenBucketRateLimiter) (now tokens wait : ℕ)
    → IsBounded l
    → IsReserved l now tokens wait l'
    → IsBounded l'
reserved-IsBounded l l' now tokens wait h r =
    let f = refill-IsFilled l now h in
    let (c, q) = r.same_capacity in
    rw (c, q)
      (bounded (pos_part l'.tokens) (neg_part l'.tokens) (pos_part (refill now l).tokens)
        (neg_part (refill now l).tokens) (quanta l tokens) (quanta l l.capacity) r.balance
        f.is_capped)

not_zero : (n : ℕ) → 1 ≤ n → (n == 0) ≡ false
not_zero n h = ground arith

not_over : (c n : ℕ) → n ≤ c → ltb c n ≡ false
not_over c n h = ground arith

no_time : (t w : ℕ) → (w == 0) ≡ true → t ≡ t + w
no_time t w h = ground arith

acquire-reserves :
    (tokens : ℕ) (clock : ManualClock) (l : TokenBucketRateLimiter)
    → 1 ≤ tokens
    → tokens ≤ l.capacity
    → clock.advance_on_sleep ≡ true
    → (clock' : ManualClock) × (acquire tokens clock l
        ≡ ok ((reserve clock.now tokens l).0, clock', (reserve clock.now tokens l).1))
      × (clock'.now ≡ clock.now + (reserve clock.now tokens l).0)
unfolding acquire sleep
acquire-reserves tokens clock l h k moves =
    elim (Bool-cases ((reserve clock.now tokens l).0 == 0)) [
      | inl no_wait ↦ (
        clock,
        rw (not_zero tokens h, not_over l.capacity tokens k, no_wait) refl,
        no_time clock.now (reserve clock.now tokens l).0 no_wait,
      )
      | inr waits ↦ (
        record clock {
          sleeps = clock.sleeps ++ (reserve clock.now tokens l).0 ∷ [];
          now =
              if clock.advance_on_sleep
              then clock.now + (reserve clock.now tokens l).0
              else clock.now;
        },
        rw (not_zero tokens h, not_over l.capacity tokens k, waits) refl,
        rw moves refl,
      )
    ]

reserved-debt :
    (l l' : TokenBucketRateLimiter) (now tokens wait v : ℕ)
    → IsBounded l
    → IsReserved l now tokens wait l'
    → neg_part (available_tokens (now + v) l').0 ≡ wait - v
unfolding available_tokens
reserved-debt l l' now tokens wait v h r =
    let b = reserved-IsBounded l l' now tokens wait h r in
    let owed = IsReserved-debt l l' now tokens wait r in
    ground (
      arith,
      IsFilled-debt (quanta l' l'.capacity) (now + v - l'.updated) l'.tokens
          (refill (now + v) l').tokens (refill-IsFilled l' (now + v) b),
      owed,
      r.is_now,
    )

-- In exact arithmetic on the grid of ticks and quanta, which the floats of the source follow up to rounding: a
-- call of `acquire` for one token or more, and no more than the capacity, returns with its wait, and the
-- clock has moved by it. At any number of ticks after the reservation the balance is below zero by exactly
-- the ticks of the wait that are left, one quantum for each, so by nothing once the wait is over. The
-- balance did not exceed the capacity before, and a sleep moves the clock.
pub acquire-pays_by_waiting :
    (tokens : ℕ) (clock : ManualClock) (l : TokenBucketRateLimiter) (v : ℕ)
    → IsBounded l
    → 1 ≤ tokens
    → tokens ≤ l.capacity
    → clock.advance_on_sleep ≡ true
    → (wait : ℕ) × (clock' : ManualClock) × (l' : TokenBucketRateLimiter) × (acquire tokens clock l
        ≡ ok (wait, clock', l'))
      × (clock'.now ≡ clock.now + wait)
      × (neg_part (available_tokens (clock.now + v) l').0 ≡ wait - v)
acquire-pays_by_waiting tokens clock l v b h k moves =
    let (clock', returns, moved) = acquire-reserves tokens clock l h k moves in
    (
      (reserve clock.now tokens l).0,
      clock',
      (reserve clock.now tokens l).1,
      returns,
      moved,
      reserved-debt l (reserve clock.now tokens l).1 clock.now tokens (reserve clock.now tokens l).0
          v b (reserve-IsReserved l clock.now tokens),
    )
