-- ===== src/CorporateActions/Again.antt =====
-- A provider's result that is delivered again (market_pipeline_lib/corporate_actions/service.py).
use idea2strategy_data_pipel.Prelude.{
  String, Bool, true, false, ◌≡◌, refl, sym, ◌∙◌, ap, subst, Option, none, some, List, [], ◌∷◌,
  ◌++◌, arith, inl, inr, Bool-cases, Option-cases, if◌then◌else◌,
}
use idea2strategy_data_pipel.Prelude.Eq.{string_eq, beq_refl}
use idea2strategy_data_pipel.Prelude.Result.{Result, ok, err, ◌>>=◌}
use idea2strategy_data_pipel.CorporateActions.Decisions.{
  delivery_id_conflict, ReviewState, ApprovalResult, RefusalCode, EnvelopeEncoders, envelope_hash,
}
use idea2strategy_data_pipel.CorporateActions.Row.{
  Row, row_of_id, state_of, HistoryEntry, reviewed, refused, provided, decided, pending,
  ProviderFacts,
}
use idea2strategy_data_pipel.CorporateActions.Review.{
  Terms, ReviewError, unknown_candidate, conflicting_decision, regenerator_not_configured,
  assertion_failed, unreadable_action, approval_refused, regeneration_failed, Regenerator,
  DecisionOutcome,
}
use idea2strategy_data_pipel.CorporateActions.Approval.{facts_of, reviewed_row, delivered}
use idea2strategy_data_pipel.CorporateActions.Verified.{
  ReviewService, refusing, is_redelivery, apply_delivery, apply_verified_result,
  try_approval_result, settle, apply_approval_result,
}
use idea2strategy_data_pipel.CorporateActions.Table.{IsTable, row_of_id-Among, row_of_id-id}
use idea2strategy_data_pipel.CorporateActions.Moved.{move_row-IsMoved, reviewed_row-state}
use idea2strategy_data_pipel.CorporateActions.Delivery.{Applied, apply_verified_result-Applied}
use idea2strategy_data_pipel.CorporateActions.Calls.{try_approval_result-verified}

delivered-append :
    (id : String) (history : List HistoryEntry) (target : ReviewState) (facts : ProviderFacts)
    → delivered id history ≡ none
    → facts.delivery_id ≡ id
    → delivered id (history ++ reviewed (provided target facts) ∷ []) ≡ some facts.envelope_hash
delivered-append id [] target facts h e =
    ap (λ b. if b then some facts.envelope_hash else none)
      ((string_eq.beq_iff facts.delivery_id id).1 e)
delivered-append id (reviewed (provided s f) ∷ history) target facts h e =
    elim (Bool-cases (string_eq.beq f.delivery_id id)) [
      | inl hit ↦ absurd ground (arith, hit)
      | inr miss ↦ rw miss (delivered-append id history target facts (rw miss at h) e)
    ]
delivered-append id (reviewed (decided s a b c) ∷ history) target facts h e =
    delivered-append id history target facts h e
delivered-append id (reviewed pending ∷ history) target facts h e =
    delivered-append id history target facts h e
delivered-append id (refused r ∷ history) target facts h e =
    delivered-append id history target facts h e

not_fresh :
    (b : Bool)
    → ◌≡◌ {A = Result RefusalCode Bool} (if b then ok true else err delivery_id_conflict) (ok false)
    → ⊥
not_fresh b h = absurd ground arith

module _ {T F D : Type 0} (encoders : EnvelopeEncoders F D) where
  is_redelivery-fresh :
      (result : ApprovalResult) (row : Row T)
      → is_redelivery encoders result row ≡ ok false
      → delivered result.delivery_id row.terms_document.review_history ≡ none
  unfolding is_redelivery
  is_redelivery-fresh result row h =
      elim (Option-cases (delivered result.delivery_id row.terms_document.review_history)) [
        | inl fresh ↦ fresh
        | inr (hash, there) ↦ absurd (
            not_fresh (string_eq.beq hash (envelope_hash encoders result))
              (rw (is_redelivery, there) at h))
      ]

  is_redelivery-delivered :
      (result : ApprovalResult) (row : Row T)
      → delivered result.delivery_id row.terms_document.review_history
        ≡ some (envelope_hash encoders result)
      → is_redelivery encoders result row ≡ ok true
  unfolding is_redelivery
  is_redelivery-delivered result row h =
      rw (is_redelivery, h, beq_refl (envelope_hash encoders result)) refl

  reviewed_row-delivered :
      (result : ApprovalResult) (row : Row T) (target : ReviewState)
      → delivered result.delivery_id row.terms_document.review_history ≡ none
      → delivered result.delivery_id
          (reviewed_row encoders row result target none).terms_document.review_history
        ≡ some (envelope_hash encoders result)
  unfolding reviewed_row
  reviewed_row-delivered result row target h =
      delivered-append result.delivery_id row.terms_document.review_history target
        (facts_of encoders result none) h refl

  reviewed_row-is_redelivery :
      (result : ApprovalResult) (row : Row T) (target : ReviewState)
      → is_redelivery encoders result row ≡ ok false
      → is_redelivery encoders result (reviewed_row encoders row result target none) ≡ ok true
  reviewed_row-is_redelivery result row target h =
      is_redelivery-delivered result (reviewed_row encoders row result target none)
        (reviewed_row-delivered result row target (is_redelivery-fresh result row h))

-- The outcome of a redelivery.
abbrev repeated : {R : Type 0} → ApprovalResult → ReviewState → DecisionOutcome R
repeated result state = record {
  candidate_id = result.candidate_id;
  state = state;
  regeneration = none;
}

module _ {T A R E F D : Type 0} (terms : Terms T A) (feed : String)
    (regenerator : Regenerator A R E) (encoders : EnvelopeEncoders F D) where
  apply_delivery-true :
      (result : ApprovalResult) (row : Row T) (rows : List (Row T))
      → apply_delivery terms feed regenerator encoders result row true rows
        ≡ ok (repeated result (state_of row), rows)
  unfolding apply_delivery
  apply_delivery-true result row rows = refl

  apply_verified_result-redelivery :
      (result : ApprovalResult) (row : Row T) (rows : List (Row T))
      → row_of_id result.candidate_id rows ≡ some row
      → is_redelivery encoders result row ≡ ok true
      → apply_verified_result terms feed regenerator encoders result rows
        ≡ ok (repeated result (state_of row), rows)
  unfolding apply_verified_result
  apply_verified_result-redelivery result row rows found again =
      rw (apply_verified_result, found)
        (ap
            (λ (r : Result RefusalCode Bool).
              refusing r
              >>= (λ again. apply_delivery terms feed regenerator encoders result row again rows))
            again
          ∙ apply_delivery-true result row rows)

  apply_verified_result-again :
      (id_of : Option String → String → String) (result : ApprovalResult)
      (rows rows' : List (Row T)) (outcome : DecisionOutcome R)
      → IsTable id_of rows
      → apply_verified_result terms feed regenerator encoders result rows ≡ ok (outcome, rows')
      → apply_verified_result terms feed regenerator encoders result rows'
        ≡ ok (repeated result outcome.state, rows')
  unfolding Applied
  apply_verified_result-again id_of result rows rows' outcome t h =
      let (row, found, applied) =
        apply_verified_result-Applied terms feed regenerator encoders result rows rows' outcome h in
      elim applied [
        | inl (again, same, state) ↦
            apply_verified_result-redelivery result row rows'
              (subst (λ x. row_of_id result.candidate_id x ≡ some row) (sym same) found) again
            ∙ ap (λ s. ok (repeated result s, rows')) (sym state)
        | inr (fresh, moves) ↦
            let moved =
              move_row-IsMoved id_of encoders result row rows rows' outcome.state t
                (row_of_id-Among result.candidate_id rows row found) moves in
            apply_verified_result-redelivery result
              (reviewed_row encoders row result outcome.state none) rows'
              (subst
                (λ i.
                  row_of_id i rows' ≡ some (reviewed_row encoders row result outcome.state none))
                (row_of_id-id result.candidate_id rows row found) moved.written)
              (reviewed_row-is_redelivery encoders result row outcome.state fresh)
            ∙ ap (λ s. ok (repeated result s, rows'))
                (reviewed_row-state id_of encoders row result outcome.state none)
      ]

module _ {T A R E F D : Type 0} (encoders : EnvelopeEncoders F D) (terms : Terms T A)
    (service : ReviewService A R E) (id_of : Option String → String → String) where
  settle-ok :
      (result : ApprovalResult) (rows rows' : List (Row T)) (outcome : DecisionOutcome R)
      (r : Result (ReviewError E) (DecisionOutcome R × List (Row T)))
      → (settle encoders terms service result rows r).0 ≡ ok outcome
      → (settle encoders terms service result rows r).1 ≡ rows'
      → r ≡ ok (outcome, rows')
  unfolding settle
  settle-ok result rows rows' outcome (ok (o, x)) h e = cc
  settle-ok result rows rows' outcome (err (approval_refused code)) h e = absurd cc
  settle-ok result rows rows' outcome (err unknown_candidate) h e = absurd cc
  settle-ok result rows rows' outcome (err conflicting_decision) h e = absurd cc
  settle-ok result rows rows' outcome (err regenerator_not_configured) h e = absurd cc
  settle-ok result rows rows' outcome (err assertion_failed) h e = absurd cc
  settle-ok result rows rows' outcome (err unreadable_action) h e = absurd cc
  settle-ok result rows rows' outcome (err (regeneration_failed x)) h e = absurd cc

  settle-returns :
      (result : ApprovalResult) (rows : List (Row T)) (outcome : DecisionOutcome R)
      → settle encoders terms service result rows (ok (outcome, rows)) ≡ (ok outcome, rows)
  unfolding settle
  settle-returns result rows outcome = refl

  -- A result that was applied and is delivered again, to the table that it left, changes nothing: the call
  -- returns the same state without a regeneration, and the table is as it was. The table's ids are distinct
  -- and made of the natural keys.
  pub apply_approval_result-again :
      (result : ApprovalResult) (rows rows' : List (Row T)) (outcome : DecisionOutcome R)
      → IsTable id_of rows
      → (apply_approval_result encoders terms service result rows).0 ≡ ok outcome
      → (apply_approval_result encoders terms service result rows).1 ≡ rows'
      → apply_approval_result encoders terms service result rows' ≡ (
        ok record {
          candidate_id = result.candidate_id;
          state = outcome.state;
          regeneration = none;
        },
        rows',
      )
  unfolding apply_approval_result
  apply_approval_result-again result rows rows' outcome t returns leaves =
      let applied =
        settle-ok result rows rows' outcome (try_approval_result encoders terms service result rows)
          returns leaves in
      let (regenerator, verified) =
        try_approval_result-verified encoders terms service result rows (outcome, rows') applied in
      ap (settle encoders terms service result rows') (
        verified rows'
        ∙ apply_verified_result-again terms service.adjusted_feed_id regenerator encoders id_of
            result rows rows' outcome t (sym (verified rows) ∙ applied))
      ∙ settle-returns result rows' (repeated result outcome.state)
