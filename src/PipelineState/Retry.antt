-- ===== src/PipelineState/Retry.antt =====
-- What `replace_with_retry` of pipeline_state.py comes to, and how long it sleeps.
use native.Mathlib.Omega.{pow_step}
use idea2strategy_data_pipel.Prelude.{
  ℕ, zero, suc, ◌+◌, ◌*◌, ◌^◌, ◌<◌, Bool, true, false, not, ◌&&◌, ◌||◌, ◌≡◌, refl, ◌∙◌, ap, List,
  [], ◌∷◌, arith, inl, inr, ◌⊎◌,
}
use idea2strategy_data_pipel.Prelude.Eq.{nat_eq, ◌==◌}
use idea2strategy_data_pipel.Prelude.Result.{Result, ok, err}
use idea2strategy_data_pipel.PipelineState.Replace.{
  StateError, denied_always, raised, Attempt, replaced, denied, failed, tried, slept, attempts_from,
  replace_with_retry,
}

abbrev pub is_denied : {F : Type 0} → Attempt F → Bool
is_denied replaced = false
is_denied denied = true
is_denied (failed fault) = false

-- Every attempt before one was denied.
abbrev pub denied_before : {F : Type 0} → (ℕ → Attempt F) → ℕ → Bool
denied_before replace zero = true
denied_before replace (suc k) = is_denied (replace k) && denied_before replace k

-- What the last attempt that is made says.
abbrev pub outcome : {F : Type 0} → Attempt F → Result (StateError F) (Unit {0})
outcome replaced = ok tt
outcome denied = err denied_always
outcome (failed fault) = err (raised fault)

abbrev pub total : List ℕ → ℕ
total [] = 0
total (seconds ∷ sleeps) = seconds + total sleeps

Attempt-cases :
    {F : Type 0} (a : Attempt F)
    → (a ≡ denied)
      ⊎ (((r : List ℕ × Result (StateError F) (Unit {0})) (last : Bool) (seconds : ℕ)
            → tried a last seconds r ≡ ([], outcome a))
          × (is_denied a ≡ false))
unfolding tried
Attempt-cases replaced = inr (λ r last seconds. refl, refl)
Attempt-cases denied = inl refl
Attempt-cases (failed fault) = inr (λ r last seconds. refl, refl)

double : (r n : ℕ) → r * 2 ^ suc n ≡ r * 2 ^ n + r * 2 ^ n
double r n = omega (arith, ap (λ x. r * x) (pow_step 2 n))

total-slept :
    {F : Type 0} (seconds : ℕ) (r : List ℕ × Result (StateError F) (Unit {0}))
    → (total (slept seconds r).0 ≡ seconds + total r.0) × ((slept seconds r).1 ≡ r.1)
total-slept seconds (sleeps, result) = (refl, refl)

-- The attempt that decides a run of the loop from an attempt on.
abbrev Decides :
    {F : Type 0}
    → (ℕ → Attempt F)
    → ℕ
    → ℕ
    → ℕ
    → List ℕ × Result (StateError F) (Unit {0})
    → ℕ
    → Type 0
Decides replace attempts retry_seconds attempt run k =
    (k < attempts)
    × (denied_before replace k ≡ true)
    × ((not (is_denied (replace k)) || (suc k == attempts)) ≡ true)
    × (total run.0 + retry_seconds * 2 ^ attempt ≡ retry_seconds * 2 ^ k)
    × (run.1 ≡ outcome (replace k))

decided :
    {F : Type 0} (replace : ℕ → Attempt F) (attempts retry_seconds attempt : ℕ) (last : Bool)
    (rest : List ℕ × Result (StateError F) (Unit {0}))
    → attempt < attempts
    → denied_before replace attempt ≡ true
    → is_denied (replace attempt) ≡ false
    → ((r : List ℕ × Result (StateError F) (Unit {0})) (last : Bool) (seconds : ℕ)
        → tried (replace attempt) last seconds r ≡ ([], outcome (replace attempt)))
    → Decides replace attempts retry_seconds attempt
        (tried (replace attempt) last (retry_seconds * 2 ^ attempt) rest)
        attempt
decided replace attempts retry_seconds attempt last rest bound before made run =
    let e = run rest last (retry_seconds * 2 ^ attempt) in
    (bound, before, rw made refl, omega (arith, ap (λ r. total r.0) e), ap (λ r. r.1) e)

attempts_from-Decides :
    {F : Type 0} (replace : ℕ → Attempt F) (attempts retry_seconds left attempt : ℕ)
    → suc left + attempt ≡ attempts
    → denied_before replace attempt ≡ true
    → (k : ℕ) × Decides replace attempts retry_seconds attempt
        (attempts_from replace attempts retry_seconds (suc left) attempt)
        k
unfolding attempts_from tried
attempts_from-Decides replace attempts retry_seconds zero attempt sum before =
    elim (Attempt-cases (replace attempt)) [
      | inr (run, made) ↦ (
        attempt,
        decided replace attempts retry_seconds attempt _ _ (omega (arith, sum)) before made run,
      )
      | inl here ↦
          let last : (suc attempt == attempts) ≡ true = ground (arith, sum) in
          (
            attempt,
            (
              omega (arith, sum),
              before,
              rw last ground arith,
              rw (attempts_from, here, last) omega arith,
              rw (attempts_from, here, last) refl,
            ),
          )
    ]
attempts_from-Decides replace attempts retry_seconds (suc left) attempt sum before =
    elim (Attempt-cases (replace attempt)) [
      | inr (run, made) ↦ (
        attempt,
        decided replace attempts retry_seconds attempt _ _ (omega (arith, sum)) before made run,
      )
      | inl here ↦
          let last : (suc attempt == attempts) ≡ false = ground (arith, sum) in
          let denied_here : denied_before replace (suc attempt) ≡ true = rw here before in
          let (k, (bound, denied_all, end, slept_all, result)) =
            attempts_from-Decides replace attempts retry_seconds left (suc attempt)
              (omega (arith, sum)) denied_here in
          let rest = attempts_from replace attempts retry_seconds (suc left) (suc attempt) in
          let (more, same) = total-slept (retry_seconds * 2 ^ attempt) rest in
          (
            k,
            (
              bound,
              denied_all,
              end,
              rw (attempts_from, here, last) omega
                  (arith, more, slept_all, double retry_seconds attempt),
              rw (attempts_from, here, last) (same ∙ result),
            ),
          )
    ]

-- With one attempt or more, there is an attempt that decides: all before it were denied, and it was not, or it was
-- the last. The call returns or raises what it says, and the sleeps double, so that together with one
-- more first sleep they are the first sleep times 2 to its number.
pub replace_with_retry-decided :
    {F : Type 0} (replace : ℕ → Attempt F) (attempts retry_seconds : ℕ)
    → 0 < attempts
    → (k : ℕ) × (k < attempts)
      × (denied_before replace k ≡ true)
      × ((not (is_denied (replace k)) || (suc k == attempts)) ≡ true)
      × (total (replace_with_retry replace attempts retry_seconds).0 + retry_seconds
          ≡ retry_seconds * 2 ^ k)
      × ((replace_with_retry replace attempts retry_seconds).1 ≡ outcome (replace k))
unfolding replace_with_retry
replace_with_retry-decided replace zero retry_seconds positive = absurd ground arith
replace_with_retry-decided replace (suc n) retry_seconds positive =
    let (k, (bound, denied_all, end, sum, result)) =
      attempts_from-Decides replace (suc n) retry_seconds n 0 (omega arith) refl in
    (k, bound, denied_all, end, omega (arith, sum), result)
