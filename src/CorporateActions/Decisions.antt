-- ===== src/CorporateActions/Decisions.antt =====
-- market_pipeline_lib/corporate_actions/decisions.py: the vocabulary of the review. A UUID is its canonical
-- text, an instant a number with the flag of its being UTC; a negative sequence number is refused like 0.
use idea2strategy_data_pipel.Prelude.{
  ℕ, String, Bool, true, false, not, ◌||◌, ◌&&◌, Option, none, some, List, [], ◌∷◌, is_empty, all,
  ◌==◌,
}
use idea2strategy_data_pipel.Prelude.Text.{strip, is_blank}
use idea2strategy_data_pipel.Prelude.Int.{pos}
use idea2strategy_data_pipel.Prelude.Result.{Result, ok, ◌>>=◌, guard}
use idea2strategy_data_pipel.RealtimeIngest.Json.{
  Json, Items, null, int, text, array, object, nil, cons, end, field,
}
use idea2strategy_data_pipel.Features.Hashing.{is_sha256_hex}

pub data DecisionType : Type 0 where
  approve reject withdraw : DecisionType

pub data ReviewState : Type 0 where
  review_required approved rejected withdrawn superseded : ReviewState

abbrev pub decision_value : DecisionType → String
decision_value approve = "APPROVE"
decision_value reject = "REJECT"
decision_value withdraw = "WITHDRAW"

-- `ReviewState.for_decision`.
abbrev pub for_decision : DecisionType → ReviewState
for_decision approve = approved
for_decision reject = rejected
for_decision withdraw = withdrawn

-- Equality of the members of the two enumerations.
abbrev pub same_state : ReviewState → ReviewState → Bool
same_state review_required review_required = true
same_state approved approved = true
same_state rejected rejected = true
same_state withdrawn withdrawn = true
same_state superseded superseded = true
same_state _ _ = false

abbrev pub is_approve : DecisionType → Bool
is_approve approve = true
is_approve _ = false

abbrev pub is_withdraw : DecisionType → Bool
is_withdraw withdraw = true
is_withdraw _ = false

-- The codes of `ApprovalRefusedError`.
pub data RefusalCode : Type 0 where
  decision_unsupported decided_content_hash_invalid evidence_binding_invalid schema_version_missing
        decided_at_invalid aggregate_sequence_invalid permission_mismatch unknown_schema_version
        inactive_operator audit_binding_mismatch approval_provider_unwired
        approval_transaction_unavailable unknown_candidate_code delivery_id_conflict
        reversed_aggregate_sequence stale_content_hash unbound_evidence withdrawal_state_conflict
        conflicting_redecision unnamed_supersede_conflict superseded_candidate_not_approved
        source_manifest_missing :
      RefusalCode

abbrev pub code_text : RefusalCode → String
code_text decision_unsupported = "DECISION_UNSUPPORTED"
code_text decided_content_hash_invalid = "DECIDED_CONTENT_HASH_INVALID"
code_text evidence_binding_invalid = "EVIDENCE_BINDING_INVALID"
code_text schema_version_missing = "SCHEMA_VERSION_MISSING"
code_text decided_at_invalid = "DECIDED_AT_INVALID"
code_text aggregate_sequence_invalid = "AGGREGATE_SEQUENCE_INVALID"
code_text permission_mismatch = "PERMISSION_MISMATCH"
code_text unknown_schema_version = "UNKNOWN_SCHEMA_VERSION"
code_text inactive_operator = "INACTIVE_OPERATOR"
code_text audit_binding_mismatch = "AUDIT_BINDING_MISMATCH"
code_text approval_provider_unwired = "APPROVAL_PROVIDER_UNWIRED"
code_text approval_transaction_unavailable = "APPROVAL_TRANSACTION_UNAVAILABLE"
code_text unknown_candidate_code = "UNKNOWN_CANDIDATE"
code_text delivery_id_conflict = "DELIVERY_ID_CONFLICT"
code_text reversed_aggregate_sequence = "REVERSED_AGGREGATE_SEQUENCE"
code_text stale_content_hash = "STALE_CONTENT_HASH"
code_text unbound_evidence = "UNBOUND_EVIDENCE"
code_text withdrawal_state_conflict = "WITHDRAWAL_STATE_CONFLICT"
code_text conflicting_redecision = "CONFLICTING_REDECISION"
code_text unnamed_supersede_conflict = "UNNAMED_SUPERSEDE_CONFLICT"
code_text superseded_candidate_not_approved = "SUPERSEDED_CANDIDATE_NOT_APPROVED"
code_text source_manifest_missing = "SOURCE_MANIFEST_MISSING"

pub record ApprovalResult : Type 0 where
  pub candidate_id : String
  pub decision : DecisionType
  pub decided_content_hash : String
  pub evidence_bindings : List String
  pub actor_id : String
  pub audit_id : String
  pub permission_id : String
  pub request_schema_version : String
  pub decided_at : ℕ
  pub is_utc : Bool
  pub delivery_id : String
  pub aggregate_sequence : ℕ
  pub supersedes_candidate_id : Option String
  pub rationale : String

-- `ApprovalResult.__post_init__`.
unfoldable pub approval_result : ApprovalResult → Result RefusalCode ApprovalResult
approval_result r = do
  _ ← guard (is_approve r.decision || is_withdraw r.decision) decision_unsupported
  _ ← guard (is_sha256_hex r.decided_content_hash) decided_content_hash_invalid
  _ ←
      guard (not (is_empty r.evidence_bindings) && all is_sha256_hex r.evidence_bindings)
        evidence_binding_invalid
  _ ← guard (not (is_blank (strip r.request_schema_version))) schema_version_missing
  _ ← guard r.is_utc decided_at_invalid
  _ ← guard (not (r.aggregate_sequence == 0)) aggregate_sequence_invalid
  ok r

-- `json.dumps` with sorted keys, `hashlib.sha256(...).hexdigest()` and the rendering of an instant.
pub record EnvelopeEncoders (F D : Type 0) : Type 0 where
  pub dumps : Json F D → String
  pub sha256 : String → String
  pub isoformat : ℕ → String

module _ {F D : Type 0} where
  abbrev pub text_items : List String → Items F D
  text_items [] = nil
  text_items (s ∷ ss) = cons (text s) (text_items ss)

  abbrev pub text_or_null : Option String → Json F D
  text_or_null none = null
  text_or_null (some s) = text s

  -- `ApprovalResult.envelope_hash`.
  unfoldable pub envelope_hash : EnvelopeEncoders F D → ApprovalResult → String
  envelope_hash encoders r = encoders.sha256 (
      encoders.dumps (
        object (
          field "candidateId" (text r.candidate_id) (
            field "decision" (text (decision_value r.decision)) (
              field "decidedContentHash" (text r.decided_content_hash) (
                field "evidenceBindings" (array (text_items r.evidence_bindings)) (
                  field "actorId" (text r.actor_id) (
                    field "auditId" (text r.audit_id) (
                      field "permissionId" (text r.permission_id) (
                        field "requestSchemaVersion" (text r.request_schema_version) (
                          field "decidedAt" (text (encoders.isoformat r.decided_at)) (
                            field "supersedesCandidateId" (text_or_null r.supersedes_candidate_id) (
                              field "deliveryId" (text r.delivery_id) (
                                field "aggregateSequence" (int (pos r.aggregate_sequence))
                                  (field "rationale" (text r.rationale) end)))))))))))))))

pub record AdminDecision : Type 0 where
  pub candidate_id : String
  pub decision : DecisionType
  pub decided_by : String
  pub decided_at : ℕ
  pub is_utc : Bool
  pub rationale : String

-- The causes of the `ValueError`s.
pub data DecisionError : Type 0 where
  blank_candidate blank_decider blank_rationale not_utc_decision : DecisionError

-- `AdminDecision.__post_init__`.
unfoldable pub admin_decision : AdminDecision → Result DecisionError AdminDecision
admin_decision d = do
  _ ← guard (not (is_blank (strip d.candidate_id))) blank_candidate
  _ ← guard (not (is_blank (strip d.decided_by))) blank_decider
  _ ← guard (not (is_blank (strip d.rationale))) blank_rationale
  _ ← guard d.is_utc not_utc_decision
  ok d

abbrev pub target_state : AdminDecision → ReviewState
target_state d = for_decision d.decision
