-- ===== src/Contracts/Shard.antt =====
-- `stable_shard_number` and `stable_shard_key` of market_pipeline_lib/contracts.py. UUID parsing and
-- SHA-256 are arguments.
use Prim.Native.Nat.{max}
use idea2strategy_data_pipel.Prelude.{
  ℕ, ◌-◌, ◌%◌, ◌<◌, String, ◌≡◌, refl, Option, arith, ◌==◌, if◌then◌else◌,
}
use idea2strategy_data_pipel.Prelude.Text.{decimal, append, text_length, pad}
use idea2strategy_data_pipel.Prelude.Result.{Result, ok, err, ◌>>=◌, or_raise}

-- The causes of a `ValueError`.
pub data ShardError : Type 0 where
  bad_shard_count not_a_uuid : ShardError

-- The canonical form of a UUID's text, and the first eight bytes of a text's SHA-256, big-endian.
pub record Hashing : Type 0 where
  pub canonical_uuid : String → Option String
  pub sha256_head : String → ℕ

unfoldable pub stable_shard_number : Hashing → String → ℕ → Result ShardError ℕ
stable_shard_number hashing instrument_id shard_count =
    if shard_count == 0 then err bad_shard_count else do
      canonical ← or_raise (hashing.canonical_uuid instrument_id) not_a_uuid
      ok (hashing.sha256_head canonical % shard_count)

-- `f"s{number:0{width}d}-of-{shard_count}"`.
unfoldable pub shard_name : ℕ → ℕ → String
unfolding decimal
shard_name number shard_count =
    let width = max 2 (text_length (decimal (shard_count - 1))) in
    append "s" (append (pad width (decimal number)) (append "-of-" (decimal shard_count)))

unfoldable pub stable_shard_key : Hashing → String → ℕ → Result ShardError String
stable_shard_key hashing instrument_id shard_count = do
  number ← stable_shard_number hashing instrument_id shard_count
  ok (shard_name number shard_count)

shard_name_test : shard_name 7 128 ≡ "s007-of-128"
unfolding shard_name
shard_name_test = refl

-- A shard number is below the shard count.
pub stable_shard_number-lt :
    (hashing : Hashing) (instrument_id : String) (shard_count number : ℕ)
    → stable_shard_number hashing instrument_id shard_count ≡ ok number
    → number < shard_count
unfolding stable_shard_number
stable_shard_number-lt hashing instrument_id shard_count number h = ground arith
