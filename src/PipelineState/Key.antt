-- ===== src/PipelineState/Key.antt =====
-- The key of a partition names it (pipeline_state.py).
use Prim.Native.Char.{Char, code}
use idea2strategy_data_pipel.Prelude.{String, Bool, true, not, ◌&&◌, ◌≡◌, refl, sym, ap, arith}
use idea2strategy_data_pipel.Prelude.Eq.{string_eq, nat_eq, ◌==◌}
use idea2strategy_data_pipel.Prelude.Text.{append}
use idea2strategy_data_pipel.Prelude.Decimal.{decimal-injective}
use idea2strategy_data_pipel.PipelineState.Store.{PartitionName, key_text}

-- No bar stands in a text.
unfoldable pub no_bar : String → Bool
no_bar String.[] = true
no_bar (String.◌∷◌ c s) = not (code c == 124) && no_bar s

head_code : (c d : Char) (s t : String) → String.◌∷◌ c s ≡ String.◌∷◌ d t → (c ≡ d) × (s ≡ t)
head_code c d s t h = (cc, cc)

no_bar-other : (d : Char) (b : String) → no_bar (String.◌∷◌ d b) ≡ true → "|" ≡ d → ⊥
unfolding no_bar
no_bar-other d b clean e = absurd ground (arith, ap code e)

append-bar :
    (a b s t : String)
    → no_bar a ≡ true
    → no_bar b ≡ true
    → append a (append "|" s) ≡ append b (append "|" t)
    → (a ≡ b) × (s ≡ t)
unfolding no_bar
append-bar String.[] String.[] s t ha hb h = (refl, (head_code "|" "|" s t h).1)
append-bar String.[] (String.◌∷◌ d b) s t ha hb h =
    absurd (no_bar-other d b hb (head_code "|" d s (append b (append "|" t)) h).0)
append-bar (String.◌∷◌ c a) String.[] s t ha hb h =
    absurd (no_bar-other c a ha (sym (head_code c "|" (append a (append "|" s)) t h).0))
append-bar (String.◌∷◌ c a) (String.◌∷◌ d b) s t ha hb h =
    let (e, rest) = head_code c d (append a (append "|" s)) (append b (append "|" t)) h in
    let (same, behind) = append-bar a b s t ground arith ground arith rest in (cc, behind)

-- No bar stands in the six texts that name a partition.
abbrev pub is_clean : PartitionName → Bool
is_clean p =
    no_bar p.pipeline
    && no_bar p.layer
    && no_bar p.resolution
    && no_bar p.partition_start
    && no_bar p.partition_end
    && no_bar p.shard_key

abbrev pub same_partition : PartitionName → PartitionName → Bool
same_partition p q =
    p.pipeline == q.pipeline
    && p.layer == q.layer
    && p.resolution == q.resolution
    && p.partition_start == q.partition_start
    && p.partition_end == q.partition_end
    && p.shard_key == q.shard_key
    && p.revision == q.revision

key_text-injective :
    (p q : PartitionName)
    → is_clean p ≡ true
    → is_clean q ≡ true
    → key_text p ≡ key_text q
    → same_partition p q ≡ true
unfolding key_text
key_text-injective p q hp hq h =
    let (a, h1) = append-bar p.pipeline q.pipeline _ _ ground arith ground arith h in
    let (b, h2) = append-bar p.layer q.layer _ _ ground arith ground arith h1 in
    let (c, h3) = append-bar p.resolution q.resolution _ _ ground arith ground arith h2 in
    let (d, h4) = append-bar p.partition_start q.partition_start _ _ ground arith ground arith h3 in
    let (e, h5) = append-bar p.partition_end q.partition_end _ _ ground arith ground arith h4 in
    let (f, h6) = append-bar p.shard_key q.shard_key _ _ ground arith ground arith h5 in
    let g = decimal-injective p.revision q.revision h6 in
    ground (
      arith,
      string_eq.beq_iff p.pipeline q.pipeline,
      string_eq.beq_iff p.layer q.layer,
      string_eq.beq_iff p.resolution q.resolution,
      string_eq.beq_iff p.partition_start q.partition_start,
      string_eq.beq_iff p.partition_end q.partition_end,
      string_eq.beq_iff p.shard_key q.shard_key,
    )

key_text-same : (p q : PartitionName) → same_partition p q ≡ true → key_text p ≡ key_text q
unfolding key_text
key_text-same p q h =
    let e0 : p.pipeline ≡ q.pipeline = ground (arith, string_eq.beq_iff p.pipeline q.pipeline) in
    let e1 : p.layer ≡ q.layer = ground (arith, string_eq.beq_iff p.layer q.layer) in
    let e2 : p.resolution ≡ q.resolution =
      ground (arith, string_eq.beq_iff p.resolution q.resolution) in
    let e3 : p.partition_start ≡ q.partition_start =
      ground (arith, string_eq.beq_iff p.partition_start q.partition_start) in
    let e4 : p.partition_end ≡ q.partition_end =
      ground (arith, string_eq.beq_iff p.partition_end q.partition_end) in
    let e5 : p.shard_key ≡ q.shard_key =
      ground (arith, string_eq.beq_iff p.shard_key q.shard_key) in
    let e6 : p.revision ≡ q.revision = ground arith in cc

-- Two partitions have the same key exactly when all of their parts are equal.
pub key_text-names :
    (p q : PartitionName)
    → is_clean p ≡ true
    → is_clean q ≡ true
    → (key_text p == key_text q) ≡ same_partition p q
key_text-names p q hp hq = ground (
  arith,
  string_eq.beq_iff (key_text p) (key_text q),
  key_text-injective p q hp hq,
  key_text-same p q,
)
