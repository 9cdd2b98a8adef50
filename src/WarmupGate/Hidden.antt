-- ===== src/WarmupGate/Hidden.antt =====
-- What `evaluate` and `record` of market_pipeline_lib/warmup_gate.py do with the newest manifest.
use idea2strategy_data_pipel.Prelude.{
  ℕ, ◌<◌, String, ◌≡◌, ◌⊎◌, inl, inr, true, false, Option, none, some, List, [], ◌∷◌, ◌++◌, refl,
  ap, subst, arith, filter, is_empty, if◌then◌else◌, Bool-cases,
}
use idea2strategy_data_pipel.Prelude.Eq.{string_eq, ◌==◌, contains}
use idea2strategy_data_pipel.Prelude.Among.{Among, Among-filter}
use idea2strategy_data_pipel.Prelude.Result.{ok, Result-cases}
use idea2strategy_data_pipel.Contracts.Calendar.{Date}
use idea2strategy_data_pipel.Watermarks.Row.{StreamWatermark}
use idea2strategy_data_pipel.WarmupGate.Coverage.{
  WarmupCoverage, DatasetManifest, WarmupBlockReason, daily_object_missing, IncidentRow,
  GateCatalog, Consumption,
}
use idea2strategy_data_pipel.WarmupGate.Gate.{
  WarmupReadinessGate, WarmupReadiness, is_candidate, is_available, newest_from, covered_by,
  missing_from, DataCheck, check_manifest, check_data, check_watermark, check_features,
  manifest_id_of, first_block, evaluate,
}
use idea2strategy_data_pipel.WarmupGate.Recording.{
  quarantine, incident_for, Texts, row_id, blocked_shards, to_db_row, record_verdict, quarantined,
  reported, with_manifests, record_quality_incident,
}
use idea2strategy_data_pipel.Prelude.Dict.{lookup, has, keys, insert, lookup-insert, keys-insert}
use idea2strategy_data_pipel.WarmupGate.Verdict.{
  IsNewest, chosen-IsNewest, check_data-chosen, List-cases,
}

-- A manifest of a higher revision than every other that is AVAILABLE for the feed and the contract.
pub record IsStrictlyNewest (g : WarmupReadinessGate) (c : WarmupCoverage)
    (ms : List DatasetManifest) (n : DatasetManifest) : Type 0 where
  pub listed : Among n ms
  pub candidate : is_candidate g c n ≡ true
  pub available : is_available n ≡ true
  pub above :
      (m : DatasetManifest)
      → Among m ms
      → is_candidate g c m ≡ true
      → is_available m ≡ true
      → (m ≡ n) ⊎ (m.revision_number < n.revision_number)

not_missing :
    (covered required : List String) (s : String)
    → contains required s ≡ true
    → contains covered s ≡ false
    → is_empty (missing_from covered required) ≡ false
not_missing covered [] s r c = cc
not_missing covered (x ∷ xs) s r c = ground (arith, not_missing covered xs s, string_eq.beq_iff x s)

newest-is :
    (g : WarmupReadinessGate) (c : WarmupCoverage) (all : List DatasetManifest)
    (n m : DatasetManifest)
    → IsStrictlyNewest g c all n
    → IsNewest g c all m
    → m ≡ n
newest-is g c all n m strict newest =
    elim (strict.above m newest.listed newest.candidate newest.available) [
      | inl same ↦ same
      | inr below ↦
          absurd omega (arith, newest.newest n strict.listed strict.candidate strict.available)
    ]

-- Only the newest manifest is read: where it has no object over the session for a required shard, the
-- verdict is a block with DAILY_OBJECT_MISSING that names it, whatever the other AVAILABLE manifests
-- of the feed and the contract cover.
pub evaluate-reads_newest_only :
    (g : WarmupReadinessGate) (c : WarmupCoverage) (catalog : GateCatalog) (now : ℕ)
    (stored : Option StreamWatermark) (batch : Option Consumption) (n : DatasetManifest)
    (shard : String)
    → (g.feed_id == "") ≡ false
    → IsStrictlyNewest g c catalog.manifests n
    → contains c.required_shards shard ≡ true
    → contains (covered_by c catalog.objects n.id) shard ≡ false
    → (r : WarmupReadiness) × (evaluate g c catalog now stored batch ≡ ok r)
      × (r.reason_code ≡ some daily_object_missing)
      × (r.manifest_id ≡ some n.id)
unfolding evaluate check_manifest
evaluate-reads_newest_only g c catalog now stored batch n shard feed strict required uncovered =
    elim (List-cases (filter is_available (filter (is_candidate g c) catalog.manifests))) [
      | inl nothing ↦ absurd (
          subst (Among n) nothing (
            Among-filter is_available n (filter (is_candidate g c) catalog.manifests)
              (Among-filter (is_candidate g c) n catalog.manifests strict.listed strict.candidate)
              strict.available))
      | inr (m, ms, chosen) ↦
          let it =
            newest-is g c catalog.manifests n (newest_from m ms) strict
              (chosen-IsNewest g c catalog.manifests m ms chosen) in
          let read : check_data g c catalog ≡ check_manifest c catalog.objects n =
            rw it at (check_data-chosen g c catalog m ms chosen) in
          let missing =
            not_missing (covered_by c catalog.objects n.id) c.required_shards shard required
              uncovered in
          let block : (check_data g c catalog).block ≡ some daily_object_missing =
            ground (arith, ap (λ (d : DataCheck). d.block) read, missing) in
          (
            record {
              session = c.session;
              feed_id = g.feed_id;
              evaluated_at = now;
              reason_code =
                  first_block (check_data g c catalog).block
                    (first_block (check_watermark g c now stored) (check_features batch));
              manifest_id = manifest_id_of (check_data g c catalog).manifest;
              covered_shards = (check_data g c catalog).covered;
            },
            rw feed refl,
            rw block refl,
            ap (λ (d : DataCheck). manifest_id_of d.manifest) read,
          )
    ]

-- The status of the first manifest of an id.
abbrev pub status_of : String → List DatasetManifest → Option String
status_of id [] = none
status_of id (m ∷ ms) = if m.id == id then some m.status else status_of id ms

quarantine-status :
    (id : String) (ms ms' : List DatasetManifest) (j : String)
    → quarantine id ms ≡ ok ms'
    → status_of j ms' ≡ (if id == j then some "QUARANTINED" else status_of j ms)
unfolding quarantine
quarantine-status id [] ms' j h = cc
quarantine-status id (m ∷ ms) ms' j h = elim (Bool-cases (m.id == id)) [
  | inl here ↦
      ground (arith, string_eq.beq_iff m.id id, string_eq.beq_iff id j, string_eq.beq_iff m.id j)
  | inr other ↦ elim (Result-cases (quarantine id ms)) [
    | inr (e, raised) ↦ absurd ground arith
    | inl (rest, went) ↦
        let after : ms' ≡ m ∷ rest = ground arith in
        rw after (
          ground (
            arith,
            quarantine-status id ms rest j went,
            string_eq.beq_iff m.id id,
            string_eq.beq_iff id j,
            string_eq.beq_iff m.id j,
          ))
  ]
]

-- `record` of a block that names a manifest, where it returned: the manifest of that id is QUARANTINED
-- after it, and the status under every other id is as before. It returned the id of a row of the block's
-- reason and manifest, and that id would be the same for the same block at any other instant: the
-- incidents hold that row under its id after it, every other incident is as before, and an incident
-- was added only if none had that id.
pub record_verdict-quarantines :
    (texts : Texts) (midnight_et : Date → ℕ) (r : WarmupReadiness) (c : WarmupCoverage)
    (catalog : GateCatalog) (reason : WarmupBlockReason) (id : String) (o : Option String)
    (after : GateCatalog) (j i : String) (t : ℕ)
    → record_verdict texts midnight_et r c catalog ≡ (ok o, after)
    → r.reason_code ≡ some reason
    → r.manifest_id ≡ some id
    → (status_of j after.manifests
        ≡ (if id == j then some "QUARANTINED" else status_of j catalog.manifests))
      × ((row : IncidentRow) × (o ≡ some row.id)
          × (row.id
              ≡ row_id texts
                  (some id)
                  (incident_for midnight_et (record r { evaluated_at = t }) c reason))
          × (row.incident_code ≡ reason)
          × (row.dataset_manifest_id ≡ some id)
          × (lookup i after.incidents
              ≡ (if row.id == i then some row else lookup i catalog.incidents))
          × (keys after.incidents ≡ (
              if has row.id catalog.incidents
              then keys catalog.incidents
              else keys catalog.incidents ++ row.id ∷ [])))
unfolding record_verdict quarantined reported with_manifests record_quality_incident to_db_row
    incident_for row_id blocked_shards
record_verdict-quarantines texts midnight_et r c catalog reason id o after j i t h blocked named =
    elim (Result-cases (quarantine id catalog.manifests)) [
      | inr (e, raised) ↦ absurd ground arith
      | inl (ms, went) ↦
          let row : IncidentRow = to_db_row texts (some id) (incident_for midnight_et r c reason) in
          let returned : o ≡ some row.id = ground (arith, went) in
          let noted : after.incidents ≡ insert row.id row catalog.incidents =
            ground (arith, went) in
          (
            ground (arith, quarantine-status id catalog.manifests ms j went),
            (
              row,
              returned,
              refl,
              refl,
              refl,
              rw noted (lookup-insert row.id i row catalog.incidents),
              rw noted (keys-insert row.id row catalog.incidents),
            ),
          )
    ]
