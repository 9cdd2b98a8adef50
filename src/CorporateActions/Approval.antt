-- ===== src/CorporateActions/Approval.antt =====
-- The provider's decisions, `apply_approval_result` of
-- market_pipeline_lib/corporate_actions/service.py. What a transaction wrote before it raised is undone, so
-- the calls inside it give rows only where they return.
use idea2strategy_data_pipel.Prelude.{
  ℕ, String, Bool, Option, none, some, List, [], ◌∷◌, ◌++◌, if◌then◌else◌, ltb,
}
use idea2strategy_data_pipel.Prelude.Eq.{string_eq}
use idea2strategy_data_pipel.Prelude.Text.{strip, is_blank}
use idea2strategy_data_pipel.Prelude.Result.{Result, ◌>>=◌, guard}
use idea2strategy_data_pipel.CorporateActions.Decisions.{
  ReviewState, RefusalCode, permission_mismatch, unknown_schema_version, inactive_operator,
  audit_binding_mismatch, ApprovalResult, EnvelopeEncoders, envelope_hash,
}
use idea2strategy_data_pipel.CorporateActions.Row.{
  ProviderFacts, pending, decided, provided, Refusal, HistoryEntry, reviewed, refused, Row,
}

-- `ApprovalEvidenceVerifier`: the two directories and the registered ids.
pub record ApprovalEvidenceVerifier : Type 0 where
  pub is_active : String → Bool
  pub matches_audit : ApprovalResult → Bool
  pub permission_id : String
  pub request_schema_version : String

unfoldable pub verify : ApprovalEvidenceVerifier → ApprovalResult → Result RefusalCode (Unit {0})
verify v result = do
  _ ← guard (string_eq.beq result.permission_id v.permission_id) permission_mismatch
  _ ←
      guard (string_eq.beq result.request_schema_version v.request_schema_version)
        unknown_schema_version
  _ ← guard (v.is_active result.actor_id) inactive_operator
  guard (v.matches_audit result) audit_binding_mismatch

-- The envelope hash of the first delivery of this id that was not refused.
abbrev pub delivered : String → List HistoryEntry → Option String
delivered id [] = none
delivered id (reviewed (provided _ facts) ∷ entries) =
    if string_eq.beq facts.delivery_id id then some facts.envelope_hash else delivered id entries
delivered id (reviewed (decided _ _ _ _) ∷ entries) = delivered id entries
delivered id (reviewed pending ∷ entries) = delivered id entries
delivered id (refused _ ∷ entries) = delivered id entries

abbrev max : ℕ → ℕ → ℕ
max a b = if ltb a b then b else a

-- The greatest sequence number that was not refused, 0 without one.
abbrev pub latest_sequence : List HistoryEntry → ℕ
latest_sequence [] = 0
latest_sequence (reviewed (provided _ facts) ∷ entries) =
    max facts.aggregate_sequence (latest_sequence entries)
latest_sequence (reviewed (decided _ _ _ _) ∷ entries) = latest_sequence entries
latest_sequence (reviewed pending ∷ entries) = latest_sequence entries
latest_sequence (refused _ ∷ entries) = latest_sequence entries

-- The digests of the evidence that are there and not empty.
abbrev pub digests : List (Option String) → List String
digests [] = []
digests (none ∷ evidence) = digests evidence
digests (some s ∷ evidence) = let rest = digests evidence in if is_blank s then rest else s ∷ rest

module _ {F D : Type 0} (encoders : EnvelopeEncoders F D) where
  abbrev pub facts_of : ApprovalResult → Option String → ProviderFacts
  facts_of result affected = record {
    decision = result.decision;
    candidate_id = elim affected [ none ↦ result.candidate_id | some id ↦ id ];
    decided_content_hash = result.decided_content_hash;
    evidence_bindings = result.evidence_bindings;
    actor_id = result.actor_id;
    audit_id = result.audit_id;
    permission_id = result.permission_id;
    request_schema_version = result.request_schema_version;
    decided_at = result.decided_at;
    delivery_id = result.delivery_id;
    envelope_hash = envelope_hash encoders result;
    aggregate_sequence = result.aggregate_sequence;
    supersedes_candidate_id = result.supersedes_candidate_id;
    rationale = strip result.rationale;
  }

  -- The row that `_provider_transition` writes.
  unfoldable pub reviewed_row :
      {T : Type 0} → Row T → ApprovalResult → ReviewState → Option String → Row T
  reviewed_row row result target affected =
      let entry = provided target (facts_of result affected) in
      let document = row.terms_document in
      record row {
        terms_document = record document {
          review = entry;
          review_history = document.review_history ++ reviewed entry ∷ [];
        };
      }

  -- The entry of `_record_refusal`.
  abbrev pub refusal_of : ApprovalResult → RefusalCode → Refusal
  refusal_of result code = record {
    reason_code = code;
    candidate_id = result.candidate_id;
    delivery_id = result.delivery_id;
    envelope_hash = envelope_hash encoders result;
    audit_id = result.audit_id;
    aggregate_sequence = result.aggregate_sequence;
    recorded_at = result.decided_at;
  }
