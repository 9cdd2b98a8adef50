-- ===== src/Watermarks/Heads.antt =====
-- What `WatermarkLedger.observe` does to the shard heads.
use idea2strategy_data_pipel.Prelude.{
  String, ◌≡◌, inl, inr, true, Option, none, some, arith, if◌then◌else◌, Bool-cases,
}
use idea2strategy_data_pipel.Prelude.Eq.{string_eq}
use idea2strategy_data_pipel.Prelude.Dict.{has, lookup-insert}
use idea2strategy_data_pipel.Prelude.Result.{ok}
use idea2strategy_data_pipel.Watermarks.Position.{StreamPosition, le, le_refl, le_trans}
use idea2strategy_data_pipel.Watermarks.Ledger.{
  advanced, WatermarkDecision, WatermarkLedger, classify, observe, head_of,
}

-- The head is there and is as new as the bound, if there is a bound.
abbrev pub AtLeast : Option StreamPosition → Option StreamPosition → Type 0
AtLeast h none = Unit
AtLeast none (some b) = ⊥
AtLeast (some h) (some b) = le b h ≡ true

pub AtLeast-refl : (o : Option StreamPosition) → AtLeast o o
AtLeast-refl none = tt
AtLeast-refl (some p) = le_refl p

pub AtLeast-trans : (o p q : Option StreamPosition) → AtLeast o p → AtLeast p q → AtLeast o q
AtLeast-trans o p none h k = tt
AtLeast-trans o none (some q) h k = absurd k
AtLeast-trans none (some p) (some q) h k = absurd h
AtLeast-trans (some o) (some p) (some q) h k = le_trans q p o k h

-- The head of a shard after it was told of a position.
abbrev pub newer_head : Option StreamPosition → StreamPosition → Option StreamPosition
newer_head h p = elim (classify h p) [ advanced ↦ some p | _ ↦ h ]

pub newer_head-AtLeast :
    (h : Option StreamPosition) (p : StreamPosition) → AtLeast (newer_head h p) h
newer_head-AtLeast none p = tt
newer_head-AtLeast (some h) p = ground (arith, le_refl h)

pub newer_head-AtLeast_self :
    (h : Option StreamPosition) (p : StreamPosition) → AtLeast (newer_head h p) (some p)
newer_head-AtLeast_self none p = le_refl p
newer_head-AtLeast_self (some h) p = ground (arith, le_refl p)

module _ (l : WatermarkLedger) (k : String) (p : StreamPosition) {d : WatermarkDecision}
    {l' : WatermarkLedger} (h : observe l k p ≡ ok (d, l')) where
  -- The heads after a call that returned, shard by shard.
  pub head_of-observe :
      (j : String)
      → head_of l' j ≡ (if string_eq.beq k j then newer_head (head_of l k) p else head_of l j)
  unfolding observe
  head_of-observe j = ground (arith, lookup-insert k j (some p) l.heads, string_eq.beq_iff k j)

  pub observe-outcome : d.outcome ≡ classify (head_of l k) p
  unfolding observe
  observe-outcome = ground arith

  pub observe-shard_keys : l'.shard_keys ≡ l.shard_keys
  unfolding observe
  observe-shard_keys = ground arith

  pub observe-feed_id : l'.feed_id ≡ l.feed_id
  unfolding observe
  observe-feed_id = ground arith

  pub observe-resumed_from : l'.resumed_from ≡ l.resumed_from
  unfolding observe
  observe-resumed_from = ground arith

  pub has-observe : (j : String) → has j l'.heads ≡ has j l.heads
  unfolding observe
  has-observe j = ground (arith, lookup-insert k j (some p) l.heads, string_eq.beq_iff k j)

  -- No head moves backwards, whatever arrives on whichever shard.
  pub observe-never_rewinds : (j : String) → AtLeast (head_of l' j) (head_of l j)
  observe-never_rewinds j = rw (head_of-observe j) (elim (Bool-cases (string_eq.beq k j)) [
    | inl same ↦ rw (same, (string_eq.beq_iff k j).0 same) (newer_head-AtLeast (head_of l j) p)
    | inr other ↦ rw other (AtLeast-refl (head_of l j))
  ])
