-- ===== src/CorporateActions/Examples.antt =====
-- One split under review (market_pipeline_lib/corporate_actions/service.py).
use idea2strategy_data_pipel.Prelude.{ℕ, String, true, ◌≡◌, refl, Option, none, some, List, [], ◌∷◌}
use idea2strategy_data_pipel.Prelude.Eq.{string_eq}
use idea2strategy_data_pipel.Prelude.Sort.{sorted, insert_sorted}
use idea2strategy_data_pipel.Prelude.Text.{strip}
use idea2strategy_data_pipel.Prelude.Result.{Result, ok, err}
use idea2strategy_data_pipel.CorporateActions.Decisions.{
  approve, withdraw, review_required, approved, withdrawn, ApprovalResult, AdminDecision,
  stale_content_hash, EnvelopeEncoders, envelope_hash,
}
use idea2strategy_data_pipel.CorporateActions.Row.{Row, pending, row_of_id, state_of, upsert}
use idea2strategy_data_pipel.CorporateActions.Review.{
  Terms, ReviewError, approval_refused, assertion_failed, Regenerator, DecisionOutcome,
  ApprovedAction, approved_action, collect_approved, approved_actions, apply_decision,
}
use idea2strategy_data_pipel.CorporateActions.Approval.{
  ApprovalEvidenceVerifier, verify, reviewed_row,
}
use idea2strategy_data_pipel.CorporateActions.Verified.{
  ReviewService, approved_for_same_subject, check_binding, provider_transition, supersede,
  approve_row, move_row, is_redelivery, regenerate_joined, apply_delivery, apply_verified_result,
  apply_wired, try_verified, try_approval_result, settle, apply_approval_result,
}
use idea2strategy_data_pipel.CorporateActions.Table.{IsTable}
use idea2strategy_data_pipel.CorporateActions.Moves.{Leads}
use idea2strategy_data_pipel.CorporateActions.Settled.{
  records, decides, delivers, call_all, call_all-Leads,
}
use idea2strategy_data_pipel.CorporateActions.Again.{apply_approval_result-again}
use idea2strategy_data_pipel.CorporateActions.Refusals.{apply_approval_result-no_effect}
use idea2strategy_data_pipel.CorporateActions.Withdrawal.{
  no_regenerator, apply_decision-withdraws_unguarded,
}

abbrev encoders : EnvelopeEncoders Unit Unit
encoders = record { dumps = λ _. "{}"; sha256 = λ s. s; isoformat = λ _. "t" }

abbrev terms : Terms ℕ ℕ
terms = record { parse_terms = λ _ n. some n; parse_utc = λ _. some 5; research_digest = λ _. "h" }

abbrev regenerator : Regenerator ℕ ℕ Unit
regenerator = record {
  regenerate = λ _ _ _ _. ok 1;
  regenerate_in_transaction = λ _ _ _ _. ok 1;
  binds_catalog = true;
  joins_transaction = true;
}

abbrev verifier : ApprovalEvidenceVerifier
verifier = record {
  is_active = λ _. true;
  matches_audit = λ _. true;
  permission_id = "p";
  request_schema_version = "1";
}

abbrev service : ReviewService ℕ ℕ Unit
service = record {
  regenerator = some regenerator;
  adjusted_feed_id = "f";
  approval_verifier = some verifier;
  has_transactions = true;
}

abbrev id_of : Option String → String → String
id_of _ key = key

abbrev split : Row ℕ
split = record {
  id = "a";
  instrument_id = "i";
  source_manifest_id = some "m";
  provider_event_key = "a";
  action_type = "SPLIT";
  effective_at = "d";
  terms_document = record {
    candidate_id = some "c";
    substance = 2;
    evidence = some "e" ∷ none ∷ [];
    review = pending;
    review_history = [];
  };
  terms_hash = "h";
}

abbrev table : List (Row ℕ)
table = split ∷ []

table-IsTable : IsTable id_of table
table-IsTable = record { canonical = (refl, tt); distinct = (refl, tt) }

abbrev approval : ApprovalResult
approval = record {
  candidate_id = "a";
  decision = approve;
  decided_content_hash = "h";
  evidence_bindings = "e" ∷ [];
  actor_id = "o";
  audit_id = "u";
  permission_id = "p";
  request_schema_version = "1";
  decided_at = 9;
  is_utc = true;
  delivery_id = "d1";
  aggregate_sequence = 1;
  supersedes_candidate_id = none;
  rationale = "r";
}

abbrev stale : ApprovalResult
stale = record approval { decided_content_hash = "other"; delivery_id = "d2" }

abbrev outcome : DecisionOutcome ℕ
outcome = record { candidate_id = "a"; state = approved; regeneration = some 1 }

approve_test : (apply_approval_result encoders terms service approval table).0 ≡ ok outcome
unfolding apply_approval_result settle try_approval_result try_verified verify apply_wired
    apply_verified_result is_redelivery apply_delivery move_row check_binding approve_row
    approved_for_same_subject supersede provider_transition reviewed_row regenerate_joined
    approved_actions collect_approved approved_action envelope_hash upsert strip sorted
    insert_sorted
approve_test = refl

stale_test :
    (apply_approval_result encoders terms service stale table).0
    ≡ err (approval_refused stale_content_hash)
unfolding apply_approval_result settle try_approval_result try_verified verify apply_wired
    apply_verified_result is_redelivery apply_delivery move_row check_binding
stale_test = refl

-- The approval is delivered twice.
apply_approval_result-again_example :
    apply_approval_result encoders terms service approval
      (apply_approval_result encoders terms service approval table).1
    ≡ (
      ok record { candidate_id = "a"; state = approved; regeneration = none },
      (apply_approval_result encoders terms service approval table).1,
    )
apply_approval_result-again_example =
    apply_approval_result-again encoders terms service id_of approval table
      (apply_approval_result encoders terms service approval table).1 outcome table-IsTable
      approve_test refl

apply_approval_result-no_effect_example :
    ◌≡◌ {A = Result (ReviewError Unit) (List (ApprovedAction ℕ))}
      (approved_actions terms (apply_approval_result encoders terms service stale table).1)
      (approved_actions terms table)
apply_approval_result-no_effect_example =
    apply_approval_result-no_effect encoders terms service id_of stale table
      (approval_refused stale_content_hash) table-IsTable stale_test

abbrev withdrawal : AdminDecision
withdrawal = record {
  candidate_id = "c";
  decision = withdraw;
  decided_by = "me";
  decided_at = 9;
  is_utc = true;
  rationale = "r";
}

apply_decision-withdraws_unguarded_example :
    ((apply_decision terms
        (no_regenerator {A = ℕ} {R = ℕ} {E = Unit})
        (some "m")
        "f"
        withdrawal
        table).0
      ≡ err assertion_failed)
    × ((row' : Row ℕ) × (row_of_id "a"
            (apply_decision terms
              (no_regenerator {A = ℕ} {R = ℕ} {E = Unit})
              (some "m")
              "f"
              withdrawal
              table).1
          ≡ some row')
        × (state_of row' ≡ withdrawn))
apply_decision-withdraws_unguarded_example =
    apply_decision-withdraws_unguarded id_of terms (some "m") "f" withdrawal split table
      table-IsTable refl refl refl

-- The candidate is recorded again, approved, refused once and withdrawn.
call_all-Leads_example :
    (row' : Row ℕ) × (row_of_id "a" (
        call_all encoders terms service
          (some "m")
          (records split ∷ delivers approval ∷ delivers stale ∷ decides withdrawal ∷ [])
          table)
      ≡ some row')
    × Leads review_required (state_of row')
call_all-Leads_example =
    call_all-Leads encoders terms service (some "m") id_of
      (records split ∷ delivers approval ∷ delivers stale ∷ decides withdrawal ∷ []) table "a" split
      table-IsTable (refl, (tt, (tt, (tt, tt)))) refl
