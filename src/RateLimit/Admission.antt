-- ===== src/RateLimit/Admission.antt =====
-- How much is admitted over time (market_pipeline_lib/rate_limit.py).
use idea2strategy_data_pipel.Prelude.{
  ℕ, ◌+◌, ◌-◌, ◌*◌, ◌≤◌, Option, none, some, ◌≡◌, refl, sym, ◌∙◌, ap, subst, arith, ◌==◌, inl, inr,
  Bool-cases,
}
use idea2strategy_data_pipel.Prelude.Int.{◌≤ℤ◌, pos, pos_part, neg_part}
use idea2strategy_data_pipel.Prelude.Result.{Result, ok}
use idea2strategy_data_pipel.RateLimit.Bucket.{
  LimitError, TokenBucketRateLimiter, quanta, fresh, rate_limiter, refill, available_tokens,
  reserve,
}
use idea2strategy_data_pipel.RateLimit.Waiting.{
  IsBounded, refill-IsFilled, refill-updated, refill-capacity, reserve-IsReserved, IsReserved-debt,
  reserved-IsBounded,
}

ok-injective :
    {a b : TokenBucketRateLimiter}
    → ◌≡◌ {A = Result LimitError TokenBucketRateLimiter} (ok a) (ok b)
    → a ≡ b
ok-injective h = cc

-- What calls lead to from a start, by any callers in any order at instants that do not go back, and how many
-- tokens they have reserved.
pub data IsReached (start : TokenBucketRateLimiter) : TokenBucketRateLimiter → ℕ → Type 0 where
  starts : IsReached start start 0
  reserves :
      (l : TokenBucketRateLimiter) (total now tokens : ℕ)
      → IsReached start l total
      → l.updated ≤ now
      → IsReached start (reserve now tokens l).1 (total + tokens)
  looks :
      (l : TokenBucketRateLimiter) (total now : ℕ)
      → IsReached start l total
      → l.updated ≤ now
      → IsReached start (available_tokens now l).1 total

-- The tokens that were reserved and the balance come from the burst and from what has flowed in.
record IsAccounted (start l : TokenBucketRateLimiter) (total : ℕ) : Type 0 where
  is_bounded : IsBounded l
  same_capacity : (l.capacity ≡ start.capacity) × (l.resolution ≡ start.resolution)
  balance :
      quanta start total + pos_part l.tokens + start.updated
      ≤ quanta start start.capacity + l.updated + neg_part l.tokens

fresh-is_full :
    (resolution rate capacity now : ℕ) (start : TokenBucketRateLimiter)
    → fresh resolution rate capacity now ≡ ok start
    → start.tokens ≡ pos (quanta start start.capacity)
fresh-is_full resolution rate capacity now start h = elim (Bool-cases (capacity == 0)) [
  | inl no_burst ↦ absurd ground (arith, no_burst)
  | inr burst ↦
      subst (λ (l : TokenBucketRateLimiter). l.tokens ≡ pos (quanta l l.capacity))
        (ok-injective (rw burst at h)) refl
]

-- A new limiter holds its capacity.
rate_limiter-is_full :
    (resolution rate now : ℕ) (burst : Option ℕ) (start : TokenBucketRateLimiter)
    → rate_limiter resolution rate burst now ≡ ok start
    → start.tokens ≡ pos (quanta start start.capacity)
unfolding rate_limiter
rate_limiter-is_full resolution rate now burst start h = elim (Bool-cases (rate == 0)) [
  | inl no_rate ↦ absurd ground (arith, no_rate)
  | inr flows ↦
      fresh-is_full resolution rate (elim burst [ none ↦ rate | some b ↦ b ]) now start
        (rw flows at h)
]

quanta_add : (a b k : ℕ) → (a + b) * k ≡ a * k + b * k
quanta_add a b k = grind arith

-- The sums of one step.
account :
    (s p t0 c u n pf nf q p' n' now : ℕ)
    → s + p + t0 ≤ c + u + n
    → pf + n ≤ p + (now - u) + nf
    → u ≤ now
    → p' + (nf + q) ≡ pf + n'
    → s + q + p' + t0 ≤ c + now + n'
account s p t0 c u n pf nf q p' n' now h f o b = ground arith

look :
    (s p t0 c u n pf nf now u' : ℕ)
    → s + p + t0 ≤ c + u + n
    → pf + n ≤ p + (now - u) + nf
    → u ≤ now
    → u' ≡ now
    → s + pf + t0 ≤ c + u' + nf
look s p t0 c u n pf nf now u' h f o e = ground arith

admitted :
    (s p t0 c u now n w : ℕ) → s + p + t0 ≤ c + u + n → u ≡ now → w ≡ n → s + t0 ≤ c + (now + w)
admitted s p t0 c u now n w h e d = ground arith

settle :
    (st s t q p t0 c now u n : ℕ)
    → st ≡ s + t
    → q ≡ t
    → u ≡ now
    → s + q + p + t0 ≤ c + now + n
    → st + p + t0 ≤ c + u + n
settle st s t q p t0 c now u n a b d h = ground arith

module _ (start : TokenBucketRateLimiter) where
  reserve-IsAccounted :
      (l : TokenBucketRateLimiter) (total now tokens : ℕ)
      → IsAccounted start l total
      → l.updated ≤ now
      → IsAccounted start (reserve now tokens l).1 (total + tokens)
  reserve-IsAccounted l total now tokens s h =
      let l' = (reserve now tokens l).1 in
      let r = reserve-IsReserved l now tokens in
      let f = refill-IsFilled l now s.is_bounded in
      let same_quanta : quanta l tokens ≡ quanta start tokens =
        ap (λ k. tokens * (60 * k)) s.same_capacity.1 in
      let sums =
        account (quanta start total) (pos_part l.tokens) start.updated (quanta start start.capacity)
          l.updated (neg_part l.tokens) (pos_part (refill now l).tokens)
          (neg_part (refill now l).tokens) (quanta l tokens) (pos_part l'.tokens)
          (neg_part l'.tokens) now s.balance f.adds_at_most h r.balance in
      record {
        is_bounded = reserved-IsBounded l l' now tokens (reserve now tokens l).0 s.is_bounded r;
        same_capacity =
            (r.same_capacity.0 ∙ s.same_capacity.0, r.same_capacity.1 ∙ s.same_capacity.1);
        balance =
            settle (quanta start (total + tokens)) (quanta start total) (quanta start tokens)
              (quanta l tokens) (pos_part l'.tokens) start.updated (quanta start start.capacity) now
              l'.updated (neg_part l'.tokens) (quanta_add total tokens (60 * start.resolution))
              same_quanta r.is_now sums;
      }

  looks-IsAccounted :
      (l : TokenBucketRateLimiter) (total now : ℕ)
      → IsAccounted start l total
      → l.updated ≤ now
      → IsAccounted start (available_tokens now l).1 total
  unfolding available_tokens
  looks-IsAccounted l total now s h =
      let f = refill-IsFilled l now s.is_bounded in
      let (c, q) = refill-capacity l now in
      record {
        is_bounded =
            subst (λ k. pos_part (refill now l).tokens + 0 ≤ k + neg_part (refill now l).tokens)
              (ap (λ k. l.capacity * (60 * k)) (sym q)
                ∙ ap (λ k. k * (60 * (refill now l).resolution)) (sym c))
              (ground (arith, f.is_capped));
        same_capacity = (c ∙ s.same_capacity.0, q ∙ s.same_capacity.1);
        balance =
            look (quanta start total) (pos_part l.tokens) start.updated
              (quanta start start.capacity) l.updated (neg_part l.tokens)
              (pos_part (refill now l).tokens) (neg_part (refill now l).tokens) now
              (refill now l).updated s.balance f.adds_at_most h (refill-updated l now);
      }

  starts-IsAccounted :
      (resolution rate now : ℕ) (burst : Option ℕ)
      → rate_limiter resolution rate burst now ≡ ok start
      → IsAccounted start start 0
  starts-IsAccounted resolution rate now burst h =
      let full = rate_limiter-is_full resolution rate now burst start h in
      record {
        is_bounded = subst (λ z. z ≤ℤ pos (quanta start start.capacity)) (sym full) (ground arith);
        same_capacity = (refl, refl);
        balance =
            subst
              (λ z.
                quanta start 0 + pos_part z + start.updated
                ≤ quanta start start.capacity + start.updated + neg_part z)
              (sym full) (ground arith);
      }

  reached-IsAccounted :
      (l : TokenBucketRateLimiter) (total : ℕ)
      → IsAccounted start start 0
      → IsReached start l total
      → IsAccounted start l total
  reached-IsAccounted l total s starts = s
  reached-IsAccounted l total s (reserves l₀ total₀ now tokens r h) =
      reserve-IsAccounted l₀ total₀ now tokens (reached-IsAccounted l₀ total₀ s r) h
  reached-IsAccounted l total s (looks l₀ total₀ now r h) =
      looks-IsAccounted l₀ total₀ now (reached-IsAccounted l₀ total₀ s r) h

-- Whatever the callers of a new limiter do, in any interleaving, no more is admitted than the burst and the
-- rate allow: the tokens that were reserved up to and with a call, in quanta, are at most those of the
-- capacity and one for each tick between the start and the instant at which the call is admitted.
pub reserve-admits_at_most :
    (resolution rate t : ℕ) (burst : Option ℕ) (start l : TokenBucketRateLimiter)
    (total now tokens : ℕ)
    → rate_limiter resolution rate burst t ≡ ok start
    → IsReached start l total
    → l.updated ≤ now
    → quanta start (total + tokens) + start.updated
      ≤ quanta start start.capacity + (now + (reserve now tokens l).0)
reserve-admits_at_most resolution rate t burst start l total now tokens h reached later =
    let s =
      reserve-IsAccounted start l total now tokens
        (reached-IsAccounted start l total (starts-IsAccounted start resolution rate t burst h)
          reached)
        later in
    let r = reserve-IsReserved l now tokens in
    admitted (quanta start (total + tokens)) (pos_part (reserve now tokens l).1.tokens)
      start.updated (quanta start start.capacity) (reserve now tokens l).1.updated now
      (neg_part (reserve now tokens l).1.tokens) (reserve now tokens l).0 s.balance r.is_now
      (IsReserved-debt l (reserve now tokens l).1 now tokens (reserve now tokens l).0 r)
