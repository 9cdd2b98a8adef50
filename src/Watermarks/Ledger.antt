-- ===== src/Watermarks/Ledger.antt =====
-- `WatermarkLedger` of market_pipeline_lib/watermarks.py: per-shard heads for one feed. The
-- repository, which the ledger shares with other processes, is an argument of the methods.
use idea2strategy_data_pipel.Prelude.{
  String, Bool, not, Option, none, some, List, [], ◌∷◌, map, length, any, is_none, is_empty,
  ◌==◌ as nat_beq, if◌then◌else◌,
}
use idea2strategy_data_pipel.Prelude.Eq.{string_eq, distinct}
use idea2strategy_data_pipel.Prelude.Dict.{Dict, lookup, insert}
use idea2strategy_data_pipel.Prelude.Result.{Result, ok, err, ◌>>=◌}
use idea2strategy_data_pipel.Watermarks.Position.{
  DateTime, WatermarkError, no_shard_keys, duplicate_shard_keys, unknown_shard, StreamPosition, lt,
  gt, eq,
}
use idea2strategy_data_pipel.Watermarks.Row.{StreamWatermark, stream_watermark}
use idea2strategy_data_pipel.Watermarks.Repository.{WatermarkRepository}

pub data WatermarkOutcome : Type 0 where
  advanced duplicate stale : WatermarkOutcome

pub record WatermarkDecision : Type 0 where
  pub shard_key : String
  pub outcome : WatermarkOutcome
  pub position : StreamPosition
  pub head : StreamPosition

-- `WatermarkDecision.should_process`.
abbrev pub should_process : WatermarkDecision → Bool
should_process d = elim d.outcome [ advanced ↦ Bool.true | _ ↦ Bool.false ]

pub record WatermarkLedger : Type 0 where
  pub feed_id : String
  pub shard_keys : List String
  pub resumed_from : Option StreamPosition
  pub heads : Dict String (Option StreamPosition)

-- `dict.fromkeys(keys, value)`.
abbrev pub from_keys : List String → Option StreamPosition → Dict String (Option StreamPosition)
from_keys [] p = []
from_keys (k ∷ ks) p = insert k p (from_keys ks p)

-- `WatermarkLedger(...)` with its `__post_init__`.
unfoldable pub watermark_ledger :
    String → List String → Option StreamPosition → Result WatermarkError WatermarkLedger
watermark_ledger feed_id keys resumed_from =
    if is_empty keys
    then err no_shard_keys
    else if not (nat_beq (length (distinct keys)) (length keys))
    then err duplicate_shard_keys
    else ok (record {
      feed_id = feed_id;
      shard_keys = keys;
      resumed_from = resumed_from;
      heads = from_keys keys resumed_from;
    })

-- The `if`/`elif` chain of `observe` on the shard's head.
abbrev pub classify : Option StreamPosition → StreamPosition → WatermarkOutcome
classify none p = advanced
classify (some head) p = if gt p head then advanced else if eq p head then duplicate else stale

abbrev head_or : Option StreamPosition → StreamPosition → StreamPosition
head_or none p = p
head_or (some h) p = h

decide :
    WatermarkLedger
    → String
    → StreamPosition
    → Option StreamPosition
    → WatermarkOutcome
    → WatermarkDecision × WatermarkLedger
decide l shard_key position head advanced = (
  record { shard_key = shard_key; outcome = advanced; position = position; head = position },
  record l { heads = insert shard_key (some position) l.heads },
)
decide l shard_key position head outcome = (
  record {
    shard_key = shard_key;
    outcome = outcome;
    position = position;
    head = head_or head position;
  },
  l,
)

observe_declared :
    WatermarkLedger
    → String
    → StreamPosition
    → Option (Option StreamPosition)
    → Result WatermarkError (WatermarkDecision × WatermarkLedger)
observe_declared l shard_key position none = err (unknown_shard shard_key)
observe_declared l shard_key position (some head) =
    ok (decide l shard_key position head (classify head position))

-- `observe`.
unfoldable pub observe :
    WatermarkLedger
    → String
    → StreamPosition
    → Result WatermarkError (WatermarkDecision × WatermarkLedger)
unfolding observe_declared decide
observe l shard_key position = observe_declared l shard_key position (lookup shard_key l.heads)

abbrev pub join : Option (Option StreamPosition) → Option StreamPosition
join none = none
join (some o) = o

-- `self._heads[key]`: every declared shard has an entry.
abbrev pub head_of : WatermarkLedger → String → Option StreamPosition
head_of l key = join (lookup key l.heads)

-- `head`, which raises on an undeclared shard.
unfoldable pub head : WatermarkLedger → String → Result WatermarkError (Option StreamPosition)
head l key = elim (lookup key l.heads) [ none ↦ err (unknown_shard key) | some h ↦ ok h ]

-- `min` of two positions keeps the first of equals.
unfoldable pub min_position : StreamPosition → StreamPosition → StreamPosition
min_position acc p = if lt p acc then p else acc

-- `min` over the heads that are there: the first of the least.
abbrev pub min_from : StreamPosition → List (Option StreamPosition) → StreamPosition
min_from acc [] = acc
min_from acc (none ∷ ps) = min_from acc ps
min_from acc (some p ∷ ps) = min_from (min_position acc p) ps

abbrev pub least : List (Option StreamPosition) → Option StreamPosition
least [] = none
least (none ∷ ps) = least ps
least (some p ∷ ps) = some (min_from p ps)

-- `completion_floor`.
unfoldable pub completion_floor : WatermarkLedger → Option StreamPosition
completion_floor l =
    let positions = map (head_of l) l.shard_keys in
    if any is_none positions then l.resumed_from else least positions

-- `None if stored is None else stored.position`.
abbrev pub position_of : Option StreamWatermark → Option StreamPosition
position_of none = none
position_of (some w) = some w.position

module _ {R : Type 0} (repo : WatermarkRepository R) where
  open repo use {load, advance}

  store_floor :
      WatermarkLedger
      → R
      → Option StreamPosition
      → DateTime
      → Result WatermarkError (Option StreamWatermark × R)
  store_floor l r none ingested_at = ok (none, r)
  store_floor l r (some floor) ingested_at = do
    w ← stream_watermark l.feed_id floor ingested_at none
    let (stored, r') = advance r w
    ok (some stored, r')

  -- `checkpoint` of a ledger with a repository (without one it returns `None`).
  unfoldable pub checkpoint :
      WatermarkLedger → R → DateTime → Result WatermarkError (Option StreamWatermark × R)
  unfolding store_floor
  checkpoint l r ingested_at = store_floor l r (completion_floor l) ingested_at

  abbrev pub stored_position : R → String → Option StreamPosition
  stored_position r feed_id = position_of (load r feed_id)

  -- `WatermarkLedger.resume`: the crash-restart path.
  unfoldable pub resume : R → String → List String → Result WatermarkError WatermarkLedger
  resume r feed_id shard_keys = watermark_ledger feed_id shard_keys (stored_position r feed_id)
