-- ===== src/Watermarks/Floor.antt =====
-- The completion floor of a ledger, `WatermarkLedger.completion_floor`.
use idea2strategy_data_pipel.Prelude.{
  String, ◌≡◌, inl, inr, true, false, Option, none, some, List, [], ◌∷◌, map, arith, any, is_none,
  All, subst, Bool-cases,
}
use idea2strategy_data_pipel.Prelude.Eq.{string_eq, contains}
use idea2strategy_data_pipel.Prelude.Dict.{has}
use idea2strategy_data_pipel.Prelude.Result.{ok}
use idea2strategy_data_pipel.Watermarks.Position.{StreamPosition, le, le_refl, le_trans}
use idea2strategy_data_pipel.Watermarks.Ledger.{
  WatermarkDecision, WatermarkLedger, observe, head_of, min_from, least, min_position,
  completion_floor,
}
use idea2strategy_data_pipel.Watermarks.Heads.{
  AtLeast, AtLeast-trans, observe-shard_keys, observe-resumed_from, has-observe,
  observe-never_rewinds,
}

-- The declared shards are the keys of the heads, and none is behind the resume position.
pub record IsDeclared (l : WatermarkLedger) : Type 0 where
  pub keys : (k : String) → contains l.shard_keys k ≡ has k l.heads
  pub resumed : (k : String) → contains l.shard_keys k ≡ true → AtLeast (head_of l k) l.resumed_from

pub observe-IsDeclared :
    (l : WatermarkLedger) (k : String) (p : StreamPosition) {d : WatermarkDecision}
    {l' : WatermarkLedger}
    → IsDeclared l
    → observe l k p ≡ ok (d, l')
    → IsDeclared l'
observe-IsDeclared l k p {l' = l'} s h = record {
  keys = λ j. rw (observe-shard_keys l k p h, has-observe l k p h j) (s.keys j);
  resumed = λ j declared. rw (observe-resumed_from l k p h) (
      AtLeast-trans (head_of l' j) (head_of l j) l.resumed_from (observe-never_rewinds l k p h j)
        (s.resumed j (rw (observe-shard_keys l k p h) at declared)));
}

min_position-le_start : (acc p : StreamPosition) → le (min_position acc p) acc ≡ true
unfolding min_position
min_position-le_start acc p = ground arith

min_position-le_next : (acc p : StreamPosition) → le (min_position acc p) p ≡ true
unfolding min_position
min_position-le_next acc p = ground arith

min_from-le_start :
    (acc : StreamPosition) (ps : List (Option StreamPosition)) → le (min_from acc ps) acc ≡ true
min_from-le_start acc [] = le_refl acc
min_from-le_start acc (none ∷ ps) = min_from-le_start acc ps
min_from-le_start acc (some p ∷ ps) =
    le_trans (min_from (min_position acc p) ps) (min_position acc p) acc
      (min_from-le_start (min_position acc p) ps) (min_position-le_start acc p)

min_from-le-All :
    (acc : StreamPosition) (ps : List (Option StreamPosition))
    → any is_none ps ≡ false
    → All (λ o. AtLeast o (some (min_from acc ps))) ps
min_from-le-All acc [] full = tt
min_from-le-All acc (none ∷ ps) full = cc
min_from-le-All acc (some p ∷ ps) full = (
  le_trans (min_from (min_position acc p) ps) (min_position acc p) p
      (min_from-le_start (min_position acc p) ps) (min_position-le_next acc p),
  min_from-le-All (min_position acc p) ps full,
)

least-le-All :
    (ps : List (Option StreamPosition))
    → any is_none ps ≡ false
    → All (λ o. AtLeast o (least ps)) ps
least-le-All [] full = tt
least-le-All (none ∷ ps) full = cc
least-le-All (some p ∷ ps) full = (min_from-le_start p ps, min_from-le-All p ps full)

All-contains :
    (P : Option StreamPosition → Type 0) (h : String → Option StreamPosition) (ks : List String)
    (k : String)
    → All P (map h ks)
    → contains ks k ≡ true
    → P (h k)
All-contains P h [] k a c = cc
All-contains P h (j ∷ ks) k a c = elim (Bool-cases (string_eq.beq j k)) [
  | inl same ↦ subst (λ i. P (h i)) ((string_eq.beq_iff j k).0 same) a.0
  | inr other ↦ All-contains P h ks k a.1 (ground arith)
]

-- No declared shard is behind the completion floor.
pub completion_floor-bounds :
    (l : WatermarkLedger) (k : String)
    → IsDeclared l
    → contains l.shard_keys k ≡ true
    → AtLeast (head_of l k) (completion_floor l)
unfolding completion_floor
completion_floor-bounds l k s declared =
    let positions = map (head_of l) l.shard_keys in
    elim (Bool-cases (any is_none positions)) [
      | inl partial ↦ rw partial (s.resumed k declared)
      | inr full ↦ rw full (
          All-contains (λ o. AtLeast o (least positions)) (head_of l) l.shard_keys k
            (least-le-All positions full) declared)
    ]
