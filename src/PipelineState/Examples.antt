-- ===== src/PipelineState/Examples.antt =====
-- Tests of pipeline_state.py.
use idea2strategy_data_pipel.Prelude.{
  ℕ, zero, suc, ◌+◌, ◌*◌, ◌^◌, ◌<◌, true, false, not, ◌&&◌, ◌||◌, ◌≡◌, refl, [], ◌∷◌, Option, none,
  some, ◌⊎◌, arith, if◌then◌else◌,
}
use idea2strategy_data_pipel.Prelude.Eq.{nat_eq, string_eq, ◌==◌}
use idea2strategy_data_pipel.Prelude.Text.{decimal, digits_from}
use idea2strategy_data_pipel.Prelude.Result.{Result, ok, err}
use idea2strategy_data_pipel.PipelineState.Replace.{
  StateError, not_positive, denied_always, Attempt, replaced, denied, tried, attempts_from,
  replace_with_retry,
}
use idea2strategy_data_pipel.PipelineState.Store.{
  PartitionName, partition_key, key_text, StateData, Loaded, dictionary, PipelineStateStore,
  FileSystem, accepts, load, is_partition_complete, save, mark_partition,
}
use idea2strategy_data_pipel.PipelineState.Retry.{
  is_denied, denied_before, outcome, total, replace_with_retry-decided,
}
use idea2strategy_data_pipel.PipelineState.Key.{no_bar, is_clean, same_partition}
use idea2strategy_data_pipel.PipelineState.Restart.{answer, after_restart, mark_partition-restart}

-- Another program has the file open during the first two attempts.
abbrev locked_twice : ℕ → Attempt ℕ
locked_twice zero = denied
locked_twice (suc zero) = denied
locked_twice (suc (suc n)) = replaced

locked_twice_test : replace_with_retry locked_twice 6 1 ≡ (1 ∷ 2 ∷ [], ok tt)
unfolding replace_with_retry attempts_from tried
locked_twice_test = refl

locked_out_test : replace_with_retry locked_twice 2 1 ≡ (1 ∷ [], err denied_always)
unfolding replace_with_retry attempts_from tried
locked_out_test = refl

replace_with_retry-decided_example :
    (k : ℕ) × (k < 6)
    × (denied_before locked_twice k ≡ true)
    × ((not (is_denied (locked_twice k)) || (suc k == 6)) ≡ true)
    × (total (replace_with_retry locked_twice 6 1).0 + 1 ≡ 1 * 2 ^ k)
    × ((replace_with_retry locked_twice 6 1).1 ≡ outcome (locked_twice k))
replace_with_retry-decided_example = replace_with_retry-decided locked_twice 6 1 (omega arith)

abbrev daily : ℕ → PartitionName
daily revision = record {
  pipeline = "ohlcv";
  layer = "raw";
  resolution = "1d";
  partition_start = "2026-01-01";
  partition_end = "2026-01-31";
  shard_key = "all";
  revision = revision;
}

key_test : partition_key {F = ℕ} (daily 12) ≡ ok "ohlcv|raw|1d|2026-01-01|2026-01-31|all|12"
unfolding partition_key key_text decimal digits_from
key_test = refl

revision_test : partition_key {F = ℕ} (daily 0) ≡ err not_positive
unfolding partition_key
revision_test = refl

abbrev Document : Type 0
Document = StateData (Unit {0}) (Unit {0})

abbrev empty : Document
empty = record {
  version = some 1;
  checkpoints = some tt;
  partition_checkpoints = none;
  updated_at_utc = none;
  others = tt;
}

abbrev store : PipelineStateStore (Unit {0}) (Unit {0}) Document
store = record { contents = empty; file = none }

abbrev system : FileSystem ℕ
system = record { write_fault = none; replace = locked_twice }

abbrev reading : Document → Option (Loaded (Unit {0}) (Unit {0}))
reading d = some (dictionary d)

abbrev marked : PipelineStateStore (Unit {0}) (Unit {0}) Document × Result (StateError ℕ) (Unit {0})
marked = mark_partition (λ d. d) system "now" (daily 1) "success" ("o" ∷ []) (some "h") "" store

marked_test : after_restart {F = ℕ} reading tt tt marked.0.file (daily 1) (some "h") ≡ ok true
unfolding mark_partition save partition_key key_text decimal digits_from load is_partition_complete
    replace_with_retry attempts_from tried
marked_test = refl

other_revision_test : after_restart {F = ℕ} reading tt tt marked.0.file (daily 2) none ≡ ok false
unfolding mark_partition save partition_key key_text decimal digits_from load is_partition_complete
    replace_with_retry attempts_from tried
other_revision_test = refl

daily-is_clean : (n : ℕ) → is_clean (daily n) ≡ true
unfolding no_bar
daily-is_clean n = refl

mark_partition-restart_example :
    ((marked.1 ≡ ok tt)
      × (after_restart {F = ℕ} reading tt tt marked.0.file (daily 1) (some "h") ≡ (
          if same_partition (daily 1) (daily 1)
          then ok (string_eq.beq "success" "success" && accepts (some "h") (some "h"))
          else answer (is_partition_complete empty (daily 1) (some "h")))))
    ⊎ ((e : StateError ℕ) × (marked.1 ≡ err e) × (marked.0.file ≡ none))
mark_partition-restart_example =
    mark_partition-restart (λ d. d) reading tt tt system "now" (daily 1) (daily 1) "success"
      ("o" ∷ []) (some "h") "" store (some "h") (λ d. refl) refl (daily-is_clean 1)
      (daily-is_clean 1)
