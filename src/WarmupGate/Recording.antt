-- ===== src/WarmupGate/Recording.antt =====
-- `record` of `WarmupReadinessGate` in market_pipeline_lib/warmup_gate.py, with the rows of a
-- `QualityIncident` of market_pipeline_lib/quality.py and their upsert in market_pipeline_lib/catalog.py.
use idea2strategy_data_pipel.Prelude.{
  ℕ, String, Option, none, some, List, [], ◌∷◌, ◌++◌, if◌then◌else◌,
}
use idea2strategy_data_pipel.Prelude.Eq.{string_eq, ◌==◌}
use idea2strategy_data_pipel.Prelude.Result.{Result, ok, err, ◌>>=◌}
use idea2strategy_data_pipel.Contracts.Calendar.{Date}
use idea2strategy_data_pipel.WarmupGate.Coverage.{
  GateError, manifest_vanished, WarmupCoverage, bounds, period, DatasetManifest, WarmupBlockReason,
  daily_object_missing, manifest_not_available, watermark_missing, watermark_stale,
  watermark_behind_session, feature_batch_missing, feature_batch_incomplete, IncidentScope,
  manifest_wide, partition, QualityIncident, GateCatalog,
}
use idea2strategy_data_pipel.Prelude.Text.{append}
use idea2strategy_data_pipel.Prelude.Dict.{insert}
use idea2strategy_data_pipel.WarmupGate.Coverage.{IncidentRow}
use idea2strategy_data_pipel.WarmupGate.Gate.{WarmupReadiness, missing_from}

-- `_blocked_shards`: the missing shards, or none for a block of the whole feed.
unfoldable pub blocked_shards : WarmupReadiness → WarmupCoverage → List String
blocked_shards r c = elim r.reason_code [
  | some daily_object_missing ↦ elim r.covered_shards [
    | none ↦ c.required_shards
    | some covered ↦ missing_from covered c.required_shards
  ]
  | _ ↦ []
]

abbrev pub scope_of : WarmupCoverage → List String → IncidentScope
scope_of c [] = manifest_wide
scope_of c (shard ∷ _) = let (start, end) = bounds c in partition shard start end

-- The loop of `_quarantine`: the first row of that id is QUARANTINED after it.
unfoldable pub quarantine : String → List DatasetManifest → Result GateError (List DatasetManifest)
quarantine id [] = err manifest_vanished
quarantine id (m ∷ ms) =
    let rest = quarantine id ms in
    if m.id == id
    then ok (record m { status = "QUARANTINED" } ∷ ms)
    else (do ms' ← rest; ok (m ∷ ms'))

unfoldable pub with_manifests :
    GateCatalog
    → Result GateError (List DatasetManifest)
    → Result GateError (Unit {0}) × GateCatalog
with_manifests catalog (err e) = (err e, catalog)
with_manifests catalog (ok ms) = (ok tt, record catalog { manifests = ms })

-- `_quarantine`.
unfoldable pub quarantined : Option String → GateCatalog → Result GateError (Unit {0}) × GateCatalog
unfolding with_manifests
quarantined none catalog = (ok tt, catalog)
quarantined (some id) catalog = with_manifests catalog (quarantine id catalog.manifests)

unfoldable pub incident_for :
    (Date → ℕ) → WarmupReadiness → WarmupCoverage → WarmupBlockReason → QualityIncident
incident_for midnight_et r c reason =
    let (start, end) = period midnight_et c in
    record {
      incident_code = reason;
      scope = scope_of c (blocked_shards r c);
      period_start = start;
      period_end = end;
      detected_at = r.evaluated_at;
    }

-- `str` of the reasons.
abbrev reason_text : WarmupBlockReason → String
reason_text daily_object_missing = "D90_DAILY_OBJECT_MISSING"
reason_text manifest_not_available = "D90_MANIFEST_NOT_AVAILABLE"
reason_text watermark_missing = "D90_WATERMARK_MISSING"
reason_text watermark_stale = "D90_WATERMARK_STALE"
reason_text watermark_behind_session = "D90_WATERMARK_BEHIND_SESSION"
reason_text feature_batch_missing = "D90_FEATURE_BATCH_MISSING"
reason_text feature_batch_incomplete = "D90_FEATURE_BATCH_INCOMPLETE"

-- `str(value)` of a text or None.
abbrev text_or_none : Option String → String
text_or_none none = "None"
text_or_none (some s) = s

-- `"|".join(...)`.
abbrev joined : String → List String → String
joined s [] = s
joined s (t ∷ ts) = append s (append "|" (joined t ts))

-- `uuid.uuid5` under the library's namespace, `iso_utc` and `str` of a date.
pub record Texts : Type 0 where
  pub uuid5 : String → String
  pub iso_utc : ℕ → String
  pub date_text : Date → String

module _ (texts : Texts) where
  -- The breadth, the instrument, the shard and the ends of the partition, as they are salted.
  abbrev scope_texts : IncidentScope → List String
  scope_texts manifest_wide = "MANIFEST" ∷ "None" ∷ "None" ∷ "None" ∷ "None" ∷ []
  scope_texts (partition shard start end) =
      "PARTITION" ∷ "None" ∷ shard ∷ texts.date_text start ∷ texts.date_text end ∷ []

  -- `QualityIncident.row_id`: the identity of the row is made of the manifest, the code and the scope.
  unfoldable pub row_id : Option String → QualityIncident → String
  row_id manifest_id i = texts.uuid5 (
      joined "quality-incident" (
        text_or_none manifest_id ∷ reason_text i.incident_code ∷ scope_texts i.scope
        ++ texts.iso_utc i.period_start ∷ texts.iso_utc i.period_end ∷ "None" ∷ []))

  -- `to_db_row`.
  unfoldable pub to_db_row : Option String → QualityIncident → IncidentRow
  to_db_row manifest_id i = record {
    id = row_id manifest_id i;
    dataset_manifest_id = manifest_id;
    incident_code = i.incident_code;
    period_start = i.period_start;
    period_end = i.period_end;
    detected_at = i.detected_at;
  }

-- `record_quality_incident`: an upsert by the id.
unfoldable pub record_quality_incident : IncidentRow → GateCatalog → GateCatalog
record_quality_incident row catalog = record catalog {
  incidents = insert row.id row catalog.incidents;
}

unfoldable pub reported :
    String
    → Result GateError (Unit {0}) × GateCatalog
    → Result GateError (Option String) × GateCatalog
reported id (err e, catalog) = (err e, catalog)
reported id (ok _, catalog) = (ok (some id), catalog)

-- `record`: the id of the row that it wrote, if any, and the catalog after it.
unfoldable pub record_verdict :
    Texts
    → (Date → ℕ)
    → WarmupReadiness
    → WarmupCoverage
    → GateCatalog
    → Result GateError (Option String) × GateCatalog
unfolding quarantined incident_for reported record_quality_incident
record_verdict texts midnight_et r c catalog = elim r.reason_code [
  | none ↦ (ok none, catalog)
  | some reason ↦
      let row = to_db_row texts r.manifest_id (incident_for midnight_et r c reason) in
      reported row.id (quarantined r.manifest_id (record_quality_incident row catalog))
]
