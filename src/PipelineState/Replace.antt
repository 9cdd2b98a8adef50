-- ===== src/PipelineState/Replace.antt =====
-- The exceptions of pipeline_state.py, and `replace_with_retry`. The answers of `os.replace` are a parameter.
use idea2strategy_data_pipel.Prelude.{ℕ, zero, suc, ◌*◌, ◌^◌, Bool, true, false, List, [], ◌∷◌}
use idea2strategy_data_pipel.Prelude.Eq.{string_eq, nat_eq, ◌==◌}
use idea2strategy_data_pipel.Prelude.Result.{Result, ok, err}

-- A `ValueError`, the two `RuntimeError`s of `_load`, a `PermissionError`, or another exception of the file
-- system.
pub data StateError (F : Type 0) : Type 0 where
  not_positive unreadable unsupported denied_always : StateError F
  raised : F → StateError F

-- How `os.replace` answers.
pub data Attempt (F : Type 0) : Type 0 where
  replaced denied : Attempt F
  failed : F → Attempt F

abbrev pub slept :
    {F : Type 0}
    → ℕ
    → List ℕ × Result (StateError F) (Unit {0})
    → List ℕ × Result (StateError F) (Unit {0})
slept seconds (sleeps, result) = (seconds ∷ sleeps, result)

-- One attempt, whether it is the last, the sleep after it and the attempts behind it.
unfoldable pub tried :
    {F : Type 0}
    → Attempt F
    → Bool
    → ℕ
    → List ℕ × Result (StateError F) (Unit {0})
    → List ℕ × Result (StateError F) (Unit {0})
tried replaced last seconds rest = ([], ok tt)
tried (failed fault) last seconds rest = ([], err (raised fault))
tried denied true seconds rest = ([], err denied_always)
tried denied false seconds rest = slept seconds rest

-- The loop from an attempt on, with the number of those that are left. The sleeps are returned.
unfoldable pub attempts_from :
    {F : Type 0} → (ℕ → Attempt F) → ℕ → ℕ → ℕ → ℕ → List ℕ × Result (StateError F) (Unit {0})
attempts_from replace attempts retry_seconds zero attempt = ([], ok tt)
attempts_from replace attempts retry_seconds (suc left) attempt =
    tried (replace attempt) (suc attempt == attempts) (retry_seconds * 2 ^ attempt)
      (attempts_from replace attempts retry_seconds left (suc attempt))

unfoldable pub replace_with_retry :
    {F : Type 0} → (ℕ → Attempt F) → ℕ → ℕ → List ℕ × Result (StateError F) (Unit {0})
replace_with_retry replace zero retry_seconds = ([], err not_positive)
replace_with_retry replace (suc n) retry_seconds =
    attempts_from replace (suc n) retry_seconds (suc n) 0
