-- ===== src/WarmupGate/Verdict.antt =====
-- What a verdict of the gate of market_pipeline_lib/warmup_gate.py rests on.
use idea2strategy_data_pipel.Prelude.{
  ℕ, ◌+◌, ◌≤◌, ◌<◌, String, ◌≡◌, ◌≢◌, ◌⊎◌, inl, inr, true, Option, none, some, List, [], ◌∷◌, refl,
  sym, ap, subst, arith, filter, is_empty, ltb, if◌then◌else◌, Bool-cases,
}
use idea2strategy_data_pipel.Prelude.Eq.{string_eq, contains}
use idea2strategy_data_pipel.Prelude.Among.{Among, filter-Among, Among-filter}
use idea2strategy_data_pipel.Prelude.Result.{ok}
use idea2strategy_data_pipel.Watermarks.Row.{StreamWatermark}
use idea2strategy_data_pipel.WarmupGate.Coverage.{
  WarmupCoverage, DatasetManifest, DatasetObject, GateCatalog, Consumption, consumed,
  not_consumable, partial_batch,
}
use idea2strategy_data_pipel.WarmupGate.Gate.{
  WarmupReadinessGate, WarmupReadiness, is_ready, is_candidate, is_available, newest_from,
  covered_by, missing_from, DataCheck, check_manifest, check_available, check_candidates,
  check_data, check_watermark, check_features, manifest_id_of, evaluate,
}

-- One round of `max`.
newest_from-keeps :
    (b m : DatasetManifest) (ms : List DatasetManifest)
    → ((newest_from b (m ∷ ms) ≡ newest_from m ms) × (b.revision_number < m.revision_number))
      ⊎ ((newest_from b (m ∷ ms) ≡ newest_from b ms) × (m.revision_number ≤ b.revision_number))
newest_from-keeps b m ms = elim (Bool-cases (ltb b.revision_number m.revision_number)) [
  | inl newer ↦ inl (ap (λ x. newest_from (if x then m else b) ms) newer, ground arith)
  | inr older ↦ inr (ap (λ x. newest_from (if x then m else b) ms) older, ground arith)
]

pub newest_from-Among :
    (b : DatasetManifest) (ms : List DatasetManifest) → Among (newest_from b ms) (b ∷ ms)
newest_from-Among b [] = inl refl
newest_from-Among b (m ∷ ms) = elim (newest_from-keeps b m ms) [
  | inl (e, newer) ↦ subst (λ n. Among n (b ∷ m ∷ ms)) (sym e) (inr (newest_from-Among m ms))
  | inr (e, older) ↦
      subst (λ n. Among n (b ∷ m ∷ ms)) (sym e)
        (elim (newest_from-Among b ms) [ inl same ↦ inl same | inr later ↦ inr (inr later) ])
]

pub newest_from-le :
    (b : DatasetManifest) (ms : List DatasetManifest) (n : DatasetManifest)
    → Among n (b ∷ ms)
    → n.revision_number ≤ (newest_from b ms).revision_number
newest_from-le b [] n (inl same) =
    ground (arith, ap (λ (m : DatasetManifest). m.revision_number) same)
newest_from-le b [] n (inr h) = absurd h
newest_from-le b (m ∷ ms) n h = elim (newest_from-keeps b m ms) [
  | inl (e, newer) ↦
      let from_m = newest_from-le m ms m (inl refl) in
      subst (λ k. n.revision_number ≤ k.revision_number) (sym e)
        (elim h [
          | inl same ↦ ground (arith, ap (λ (k : DatasetManifest). k.revision_number) same, from_m)
          | inr later ↦ newest_from-le m ms n later
        ])
  | inr (e, older) ↦
      let from_b = newest_from-le b ms b (inl refl) in
      subst (λ k. n.revision_number ≤ k.revision_number) (sym e)
        (elim h [
          | inl same ↦ ground (arith, ap (λ (k : DatasetManifest). k.revision_number) same, from_b)
          | inr (inl same) ↦
              ground (arith, ap (λ (k : DatasetManifest). k.revision_number) same, from_b)
          | inr (inr later) ↦ newest_from-le b ms n (inr later)
        ])
]

missing-contains :
    (covered required : List String) (s : String)
    → is_empty (missing_from covered required) ≡ true
    → contains required s ≡ true
    → contains covered s ≡ true
missing-contains covered [] s h c = cc
missing-contains covered (r ∷ rs) s h c =
    ground (arith, missing-contains covered rs s, string_eq.beq_iff r s)

-- The manifest that the gate reads: the newest that is AVAILABLE for the feed and the contract.
pub record IsNewest (g : WarmupReadinessGate) (c : WarmupCoverage) (ms : List DatasetManifest)
    (m : DatasetManifest) : Type 0 where
  pub listed : Among m ms
  pub candidate : is_candidate g c m ≡ true
  pub available : is_available m ≡ true
  pub newest :
      (n : DatasetManifest)
      → Among n ms
      → is_candidate g c n ≡ true
      → is_available n ≡ true
      → n.revision_number ≤ m.revision_number

-- The checks that a consumer's start rests on.
pub record IsJustified (g : WarmupReadinessGate) (c : WarmupCoverage) (catalog : GateCatalog)
    (now : ℕ) (stored : Option StreamWatermark) (batch : Option Consumption) (r : WarmupReadiness)
    : Type 0 where
  pub manifest : DatasetManifest
  pub watermark : StreamWatermark
  pub read : IsNewest g c catalog.manifests manifest
  pub named : r.manifest_id ≡ some manifest.id
  pub covers :
      (shard : String)
      → contains c.required_shards shard ≡ true
      → contains (covered_by c catalog.objects manifest.id) shard ≡ true
  pub loaded : stored ≡ some watermark
  pub fresh : now ≤ watermark.ingested_at + g.freshness_budget
  pub reached : c.required_watermark_at ≤ watermark.position.source_event_at
  pub features : (batch ≡ none) ⊎ (batch ≡ some consumed)

pub chosen-IsNewest :
    (g : WarmupReadinessGate) (c : WarmupCoverage) (all : List DatasetManifest)
    (m : DatasetManifest) (ms : List DatasetManifest)
    → filter is_available (filter (is_candidate g c) all) ≡ m ∷ ms
    → IsNewest g c all (newest_from m ms)
chosen-IsNewest g c all m ms h =
    let here : Among (newest_from m ms) (filter is_available (filter (is_candidate g c) all)) =
      rw h (newest_from-Among m ms) in
    let (in_candidates, available) =
      filter-Among is_available (newest_from m ms) (filter (is_candidate g c) all) here in
    let (listed, candidate) =
      filter-Among (is_candidate g c) (newest_from m ms) all in_candidates in
    record {
      listed = listed;
      candidate = candidate;
      available = available;
      newest = λ n there is_one is_open. newest_from-le m ms n (
          rw h at (
            Among-filter is_available n (filter (is_candidate g c) all)
              (Among-filter (is_candidate g c) n all there is_one) is_open));
    }

pub List-cases :
    {A : Type 0} (xs : List A) → (xs ≡ []) ⊎ ((x : A) × (rest : List A) × (xs ≡ x ∷ rest))
List-cases [] = inl refl
List-cases (x ∷ xs) = inr (x, xs, refl)

check_candidates-chosen :
    (c : WarmupCoverage) (objects : List DatasetObject) (cs : List DatasetManifest)
    (m : DatasetManifest) (ms : List DatasetManifest)
    → filter is_available cs ≡ m ∷ ms
    → check_candidates c objects cs ≡ check_manifest c objects (newest_from m ms)
unfolding check_candidates check_available
check_candidates-chosen c objects [] m ms h = cc
check_candidates-chosen c objects (k ∷ ks) m ms h = ap (check_available c objects) h

-- `_check_data` reads the newest manifest.
pub check_data-chosen :
    (g : WarmupReadinessGate) (c : WarmupCoverage) (catalog : GateCatalog) (m : DatasetManifest)
    (ms : List DatasetManifest)
    → filter is_available (filter (is_candidate g c) catalog.manifests) ≡ m ∷ ms
    → check_data g c catalog ≡ check_manifest c catalog.objects (newest_from m ms)
unfolding check_data
check_data-chosen g c catalog m ms h =
    check_candidates-chosen c catalog.objects (filter (is_candidate g c) catalog.manifests) m ms h

check_candidates-none :
    (c : WarmupCoverage) (objects : List DatasetObject) (cs : List DatasetManifest)
    → filter is_available cs ≡ []
    → (check_candidates c objects cs).block ≢ none
unfolding check_candidates check_available
check_candidates-none c objects [] h passes = cc
check_candidates-none c objects (k ∷ ks) h passes =
    cc (ap (λ ms. (check_available c objects ms).block) h)

-- What the three checks that passed say.
record Passed (g : WarmupReadinessGate) (c : WarmupCoverage) (catalog : GateCatalog) (now : ℕ)
    (stored : Option StreamWatermark) (batch : Option Consumption) (r : WarmupReadiness)
    : Type 0 where
  data_passes : (check_data g c catalog).block ≡ none
  watermark_passes : check_watermark g c now stored ≡ none
  features_pass : check_features batch ≡ none
  named : r.manifest_id ≡ manifest_id_of (check_data g c catalog).manifest

evaluate-Passed :
    (g : WarmupReadinessGate) (c : WarmupCoverage) (catalog : GateCatalog) (now : ℕ)
    (stored : Option StreamWatermark) (batch : Option Consumption) (r : WarmupReadiness)
    → evaluate g c catalog now stored batch ≡ ok r
    → is_ready r ≡ true
    → Passed g c catalog now stored batch r
unfolding evaluate
evaluate-Passed g c catalog now stored batch r h ready = ground arith

check_data-passes :
    (g : WarmupReadinessGate) (c : WarmupCoverage) (catalog : GateCatalog)
    → (check_data g c catalog).block ≡ none
    → (m : DatasetManifest) × IsNewest g c catalog.manifests m
      × ((check_data g c catalog).manifest ≡ some m)
      × (is_empty (missing_from (covered_by c catalog.objects m.id) c.required_shards) ≡ true)
unfolding check_data check_available check_manifest
check_data-passes g c catalog h =
    elim (List-cases (filter is_available (filter (is_candidate g c) catalog.manifests))) [
      | inl nothing ↦ absurd (
          check_candidates-none c catalog.objects (filter (is_candidate g c) catalog.manifests)
            nothing h)
      | inr (m, ms, chosen) ↦
          let read = check_data-chosen g c catalog m ms chosen in
          (
            newest_from m ms,
            chosen-IsNewest g c catalog.manifests m ms chosen,
            ap (λ (d : DataCheck). d.manifest) read,
            ground (arith, ap (λ (d : DataCheck). d.block) read),
          )
    ]

check_features-passes :
    (batch : Option Consumption)
    → check_features batch ≡ none
    → (batch ≡ none) ⊎ (batch ≡ some consumed)
unfolding check_features
check_features-passes none h = inl refl
check_features-passes (some consumed) h = inr refl
check_features-passes (some (not_consumable b)) h = cc
check_features-passes (some partial_batch) h = cc

-- A READY verdict is justified: the newest AVAILABLE manifest of the feed and the contract has an object
-- over the session for every required shard, the feed's watermark is there, was written within the budget
-- and has reached the required instant, and the feature batch, if one is given, could be consumed.
pub evaluate-IsJustified :
    (g : WarmupReadinessGate) (c : WarmupCoverage) (catalog : GateCatalog) (now : ℕ)
    (stored : Option StreamWatermark) (batch : Option Consumption) (r : WarmupReadiness)
    → evaluate g c catalog now stored batch ≡ ok r
    → is_ready r ≡ true
    → IsJustified g c catalog now stored batch r
unfolding check_watermark
evaluate-IsJustified g c catalog now none batch r h ready =
    absurd ground (arith, (evaluate-Passed g c catalog now none batch r h ready).watermark_passes)
evaluate-IsJustified g c catalog now (some w) batch r h ready =
    let p = evaluate-Passed g c catalog now (some w) batch r h ready in
    let (m, newest, chosen, covered) = check_data-passes g c catalog p.data_passes in
    record {
      manifest = m;
      watermark = w;
      read = newest;
      named = ground (arith, p.named, chosen);
      covers = λ s required.
          missing-contains (covered_by c catalog.objects m.id) c.required_shards s covered required;
      loaded = refl;
      fresh = ground (arith, p.watermark_passes);
      reached = ground (arith, p.watermark_passes);
      features = check_features-passes batch p.features_pass;
    }
