-- ===== src/CorporateActions/Verified.antt =====
-- `_apply_verified_result` and the two transactions around it, of
-- market_pipeline_lib/corporate_actions/service.py.
use idea2strategy_data_pipel.Prelude.{
  String, Bool, true, false, not, ◌&&◌, Option, none, some, List, [], ◌∷◌, ◌++◌, if◌then◌else◌, any,
  all, filter, is_none, ltb, is_empty,
}
use idea2strategy_data_pipel.Prelude.Eq.{string_eq, contains}
use idea2strategy_data_pipel.Prelude.Text.{is_blank}
use idea2strategy_data_pipel.Prelude.Result.{Result, ok, err, ◌>>=◌, guard}
use idea2strategy_data_pipel.CorporateActions.Decisions.{
  ReviewState, review_required, approved, withdrawn, superseded, same_state, RefusalCode,
  approval_provider_unwired, approval_transaction_unavailable, unknown_candidate_code,
  delivery_id_conflict, reversed_aggregate_sequence, stale_content_hash, unbound_evidence,
  withdrawal_state_conflict, conflicting_redecision, unnamed_supersede_conflict,
  superseded_candidate_not_approved, source_manifest_missing, ApprovalResult, is_withdraw,
  EnvelopeEncoders, envelope_hash,
}
use idea2strategy_data_pipel.CorporateActions.Row.{
  Refusal, HistoryEntry, reviewed, refused, Row, same_text, state_of, upsert, row_of_id,
}
use idea2strategy_data_pipel.CorporateActions.Review.{
  Terms, ReviewError, regenerator_not_configured, approval_refused, regeneration_failed,
  Regenerator, DecisionOutcome, approved_actions,
}
use idea2strategy_data_pipel.CorporateActions.Decisions.{code_text}
use idea2strategy_data_pipel.CorporateActions.Approval.{
  ApprovalEvidenceVerifier, verify, delivered, latest_sequence, digests, reviewed_row, refusal_of,
}

abbrev pub is_refused_as : Refusal → HistoryEntry → Bool
is_refused_as r (refused e) =
    string_eq.beq (code_text e.reason_code) (code_text r.reason_code)
    && string_eq.beq e.delivery_id r.delivery_id
    && string_eq.beq e.envelope_hash r.envelope_hash
is_refused_as r (reviewed _) = false

-- The document with the refusal in its history, once.
abbrev pub with_refusal : {T : Type 0} → Refusal → Row T → List (Row T) → List (Row T)
with_refusal r row rows =
    let document = row.terms_document in
    if any (is_refused_as r) document.review_history
    then rows
    else upsert
        (record row {
          terms_document = record document {
            review_history = document.review_history ++ refused r ∷ [];
          };
        })
        rows

-- `_record_refusal`, where the catalog has transactions.
unfoldable pub record_refusal : {T : Type 0} → Bool → Refusal → List (Row T) → List (Row T)
record_refusal false r rows = rows
record_refusal true r rows = elim (row_of_id r.candidate_id rows) [
  | none ↦ rows
  | some row ↦ with_refusal r row rows
]

-- `_approved_for_same_subject`.
abbrev pub same_subject : {T : Type 0} → Row T → Row T → Bool
same_subject row other =
    string_eq.beq other.instrument_id row.instrument_id
    && string_eq.beq other.action_type row.action_type
    && string_eq.beq other.effective_at row.effective_at

unfoldable pub approved_for_same_subject : {T : Type 0} → Row T → List (Row T) → List (Row T)
approved_for_same_subject row rows =
    filter
      (λ other.
        not (string_eq.beq other.id row.id)
        && same_state (state_of other) approved
        && same_subject row other)
      rows

-- The part of the service that the two constructors share.
pub record ReviewService (A R E : Type 0) : Type 0 where
  pub regenerator : Option (Regenerator A R E)
  pub adjusted_feed_id : String
  pub approval_verifier : Option ApprovalEvidenceVerifier
  pub has_transactions : Bool

-- The checks of the sequence, the content and the evidence.
unfoldable pub check_binding : {T : Type 0} → ApprovalResult → Row T → Result RefusalCode (Unit {0})
check_binding result row = do
  _ ←
      guard (ltb (latest_sequence row.terms_document.review_history) result.aggregate_sequence)
        reversed_aggregate_sequence
  _ ← guard (string_eq.beq row.terms_hash result.decided_content_hash) stale_content_hash
  guard (all (contains (digests row.terms_document.evidence)) result.evidence_bindings)
      unbound_evidence

module _ {F D : Type 0} (encoders : EnvelopeEncoders F D) where
  -- `_provider_transition`.
  unfoldable pub provider_transition :
      {T : Type 0}
      → Row T
      → ApprovalResult
      → ReviewState
      → Option String
      → List (Row T)
      → List (Row T)
  provider_transition row result target affected rows =
      upsert (reviewed_row encoders row result target affected) rows

  -- The row that an approval supersedes, which it must name; none of both without a conflict.
  unfoldable pub supersede :
      {T : Type 0}
      → ApprovalResult
      → List (Row T)
      → List (Row T)
      → Result RefusalCode (List (Row T))
  supersede result [] rows =
      if is_none result.supersedes_candidate_id
      then ok rows
      else err superseded_candidate_not_approved
  supersede result (conflict ∷ conflicts) rows =
      if is_empty conflicts && same_text result.supersedes_candidate_id (some conflict.id)
      then ok (provider_transition conflict result superseded result.supersedes_candidate_id rows)
      else err unnamed_supersede_conflict

  unfoldable pub withdraw_row :
      {T : Type 0}
      → ApprovalResult
      → Row T
      → List (Row T)
      → Result RefusalCode (ReviewState × List (Row T))
  withdraw_row result row rows = do
    _ ← guard (same_state (state_of row) approved) withdrawal_state_conflict
    ok (withdrawn, provider_transition row result withdrawn none rows)

  unfoldable pub approve_row :
      {T : Type 0}
      → ApprovalResult
      → Row T
      → List (Row T)
      → Result RefusalCode (ReviewState × List (Row T))
  approve_row result row rows = do
    _ ← guard (same_state (state_of row) review_required) conflicting_redecision
    rows' ← supersede result (approved_for_same_subject row rows) rows
    ok (approved, provider_transition row result approved none rows')

  unfoldable pub move_row :
      {T : Type 0}
      → ApprovalResult
      → Row T
      → List (Row T)
      → Result RefusalCode (ReviewState × List (Row T))
  move_row result row rows = do
    _ ← check_binding result row
    if is_withdraw result.decision
        then withdraw_row result row rows
        else approve_row result row rows

  -- The refusal of a delivery id that was used with another envelope, and whether this is a redelivery.
  unfoldable pub is_redelivery : {T : Type 0} → ApprovalResult → Row T → Result RefusalCode Bool
  is_redelivery result row = elim (delivered result.delivery_id row.terms_document.review_history) [
    | none ↦ ok false
    | some hash ↦
        if string_eq.beq hash (envelope_hash encoders result)
        then ok true
        else err delivery_id_conflict
  ]

-- A refusal as the exception that it is.
abbrev pub refusing : {E B : Type 0} → Result RefusalCode B → Result (ReviewError E) B
refusing (ok b) = ok b
refusing (err code) = err (approval_refused code)

abbrev pub regenerating : {E B : Type 0} → Result E B → Result (ReviewError E) B
regenerating (ok b) = ok b
regenerating (err e) = err (regeneration_failed e)

-- `source_manifest_id in (None, "")`.
abbrev pub manifest_of : Option String → Result RefusalCode String
manifest_of none = err source_manifest_missing
manifest_of (some s) = if is_blank s then err source_manifest_missing else ok s

module _ {T A R E : Type 0} (terms : Terms T A) (feed : String)
    (regenerator : Regenerator A R E) where
  -- The regeneration at the end of the transaction.
  unfoldable pub regenerate_joined :
      ApprovalResult → Row T → List (Row T) → Result (ReviewError E) R
  regenerate_joined result row rows = do
    _ ← refusing (guard regenerator.joins_transaction approval_transaction_unavailable)
    manifest ← refusing (manifest_of row.source_manifest_id)
    actions ← approved_actions terms rows
    regenerating (regenerator.regenerate_in_transaction manifest feed actions result.decided_at)

  module _ {F D : Type 0} (encoders : EnvelopeEncoders F D) where
    -- `_apply_verified_result` behind the test for a redelivery.
    unfoldable pub apply_delivery :
        ApprovalResult
        → Row T
        → Bool
        → List (Row T)
        → Result (ReviewError E) (DecisionOutcome R × List (Row T))
    apply_delivery result row true rows = ok (
      record { candidate_id = result.candidate_id; state = state_of row; regeneration = none },
      rows,
    )
    apply_delivery result row false rows = do
      moved ← refusing (move_row encoders result row rows)
      regeneration ← regenerate_joined result row moved.1
      ok (
        record {
          candidate_id = result.candidate_id;
          state = moved.0;
          regeneration = some regeneration;
        },
        moved.1,
      )

    unfoldable pub apply_verified_result :
        ApprovalResult → List (Row T) → Result (ReviewError E) (DecisionOutcome R × List (Row T))
    apply_verified_result result rows = elim (row_of_id result.candidate_id rows) [
      | none ↦ err (approval_refused unknown_candidate_code)
      | some row ↦
          refusing (is_redelivery encoders result row)
          >>= (λ again. apply_delivery result row again rows)
    ]

module _ {T A R E F D : Type 0} (encoders : EnvelopeEncoders F D) (terms : Terms T A) where
  -- `apply_approval_result` behind the verifier.
  unfoldable pub apply_wired :
      ReviewService A R E
      → Option (Regenerator A R E)
      → ApprovalResult
      → List (Row T)
      → Result (ReviewError E) (DecisionOutcome R × List (Row T))
  apply_wired service none result rows = err regenerator_not_configured
  apply_wired service (some regenerator) result rows =
      if regenerator.binds_catalog && service.has_transactions
      then apply_verified_result terms service.adjusted_feed_id regenerator encoders result rows
      else err (approval_refused approval_transaction_unavailable)

  -- `apply_approval_result` inside its `try`.
  unfoldable pub try_verified :
      ReviewService A R E
      → Option ApprovalEvidenceVerifier
      → ApprovalResult
      → List (Row T)
      → Result (ReviewError E) (DecisionOutcome R × List (Row T))
  try_verified service none result rows = err (approval_refused approval_provider_unwired)
  try_verified service (some verifier) result rows =
      refusing (verify verifier result)
      >>= (λ _. apply_wired service service.regenerator result rows)

  unfoldable pub try_approval_result :
      ReviewService A R E
      → ApprovalResult
      → List (Row T)
      → Result (ReviewError E) (DecisionOutcome R × List (Row T))
  try_approval_result service result rows =
      try_verified service service.approval_verifier result rows

  -- The end of the transaction, and the `except`.
  unfoldable pub settle :
      ReviewService A R E
      → ApprovalResult
      → List (Row T)
      → Result (ReviewError E) (DecisionOutcome R × List (Row T))
      → Result (ReviewError E) (DecisionOutcome R) × List (Row T)
  settle service result rows (ok (outcome, rows')) = (ok outcome, rows')
  settle service result rows (err (approval_refused code)) = (
    err (approval_refused code),
    record_refusal service.has_transactions (refusal_of encoders result code) rows,
  )
  settle service result rows (err raised) = (err raised, rows)

  unfoldable pub apply_approval_result :
      ReviewService A R E
      → ApprovalResult
      → List (Row T)
      → Result (ReviewError E) (DecisionOutcome R) × List (Row T)
  apply_approval_result service result rows =
      settle service result rows (try_approval_result service result rows)
