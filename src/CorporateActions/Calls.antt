-- ===== src/CorporateActions/Calls.antt =====
-- The calls of the review service on the table
-- (market_pipeline_lib/corporate_actions/service.py).
use idea2strategy_data_pipel.Prelude.{
  String, Bool, true, false, ◌&&◌, ◌≡◌, refl, sym, ◌∙◌, ap, Option, none, some, List, arith, inl,
  inr, Bool-cases, Option-cases, any,
}
use idea2strategy_data_pipel.Prelude.Among.{Among}
use idea2strategy_data_pipel.Prelude.Eq.{string_eq}
use idea2strategy_data_pipel.Prelude.Result.{Result, ok, err, ◌>>=◌, >>=-eq-ok}
use idea2strategy_data_pipel.CorporateActions.Decisions.{ApprovalResult, EnvelopeEncoders}
use idea2strategy_data_pipel.CorporateActions.Row.{Row, row_of_id, state_of, Refusal}
use idea2strategy_data_pipel.CorporateActions.Review.{
  Terms, ReviewError, unknown_candidate, conflicting_decision, regenerator_not_configured,
  assertion_failed, unreadable_action, approval_refused, regeneration_failed, Regenerator,
  DecisionOutcome,
}
use idea2strategy_data_pipel.CorporateActions.Approval.{
  ApprovalEvidenceVerifier, verify, refusal_of,
}
use idea2strategy_data_pipel.CorporateActions.Verified.{
  ReviewService, refusing, is_refused_as, with_refusal, record_refusal, apply_verified_result,
  apply_wired, try_verified, try_approval_result, settle, apply_approval_result,
}
use idea2strategy_data_pipel.CorporateActions.Table.{IsTable, row_of_id-Among}
use idea2strategy_data_pipel.CorporateActions.Moves.{stays, Keeps, Keeps-refl, rewritten-Keeps}
use idea2strategy_data_pipel.CorporateActions.Delivery.{apply_verified_result-Keeps}

err-ok : {E B : Type 0} {e : E} {b : B} → ◌≡◌ {A = Result E B} (err e) (ok b) → ⊥
err-ok h = cc

module _ {T : Type 0} (id_of : Option String → String → String) where
  with_refusal-Keeps :
      (r : Refusal) (row : Row T) (rows : List (Row T))
      → IsTable id_of rows
      → Among row rows
      → Keeps id_of rows (with_refusal r row rows)
  with_refusal-Keeps r row rows t h =
      elim (Bool-cases (any (is_refused_as r) row.terms_document.review_history)) [
        | inl recorded ↦ rw recorded (Keeps-refl id_of rows t)
        | inr fresh ↦ rw fresh (
            rewritten-Keeps id_of row _ rows t h
              (record { same_id = refl; same_manifest = refl; same_key = refl })
              (stays (state_of row)))
      ]

  record_refusal-Keeps :
      (has : Bool) (r : Refusal) (rows : List (Row T))
      → IsTable id_of rows
      → Keeps id_of rows (record_refusal has r rows)
  unfolding record_refusal
  record_refusal-Keeps false r rows t = Keeps-refl id_of rows t
  record_refusal-Keeps true r rows t = elim (Option-cases (row_of_id r.candidate_id rows)) [
    | inl absent ↦ rw (record_refusal, absent) (Keeps-refl id_of rows t)
    | inr (row, found) ↦
        rw (record_refusal, found)
          (with_refusal-Keeps r row rows t (row_of_id-Among r.candidate_id rows row found))
  ]

module _ {T A R E F D : Type 0} (encoders : EnvelopeEncoders F D) (terms : Terms T A) where
  apply_wired-verified :
      (service : ReviewService A R E) (o : Option (Regenerator A R E)) (result : ApprovalResult)
      (rows : List (Row T)) (p : DecisionOutcome R × List (Row T))
      → apply_wired encoders terms service o result rows ≡ ok p
      → (regenerator : Regenerator A R E) × ((table : List (Row T))
          → apply_wired encoders terms service o result table
            ≡ apply_verified_result terms service.adjusted_feed_id regenerator encoders result
                table)
  unfolding apply_wired
  apply_wired-verified service none result rows p h = absurd ground arith
  apply_wired-verified service (some regenerator) result rows p h =
      elim (Bool-cases (regenerator.binds_catalog && service.has_transactions)) [
        | inl wired ↦ (regenerator, λ table. rw wired refl)
        | inr unwired ↦ absurd ground (arith, unwired)
      ]

  try_verified-verified :
      (service : ReviewService A R E) (o : Option ApprovalEvidenceVerifier)
      (result : ApprovalResult) (rows : List (Row T)) (p : DecisionOutcome R × List (Row T))
      → try_verified encoders terms service o result rows ≡ ok p
      → (regenerator : Regenerator A R E) × ((table : List (Row T))
          → try_verified encoders terms service o result table
            ≡ apply_verified_result terms service.adjusted_feed_id regenerator encoders result
                table)
  unfolding try_verified
  try_verified-verified service none result rows p h = absurd (err-ok h)
  try_verified-verified service (some verifier) result rows p h =
      let (_, verifies, rest) =
        >>=-eq-ok (refusing (verify verifier result))
          (λ _. apply_wired encoders terms service service.regenerator result rows) h in
      let (regenerator, wired) =
        apply_wired-verified service service.regenerator result rows p rest in
      (
        regenerator,
        λ table.
            ap
              (λ r.
                r >>= (λ _. apply_wired encoders terms service service.regenerator result table))
              verifies
            ∙ wired table,
      )

  -- A call that went through has passed the verifier and the wiring, which do not look at the table.
  pub try_approval_result-verified :
      (service : ReviewService A R E) (result : ApprovalResult) (rows : List (Row T))
      (p : DecisionOutcome R × List (Row T))
      → try_approval_result encoders terms service result rows ≡ ok p
      → (regenerator : Regenerator A R E) × ((table : List (Row T))
          → try_approval_result encoders terms service result table
            ≡ apply_verified_result terms service.adjusted_feed_id regenerator encoders result
                table)
  unfolding try_approval_result
  try_approval_result-verified service result rows p =
      try_verified-verified service service.approval_verifier result rows p

  settle-Keeps :
      (id_of : Option String → String → String) (service : ReviewService A R E)
      (result : ApprovalResult) (rows : List (Row T))
      (r : Result (ReviewError E) (DecisionOutcome R × List (Row T)))
      → IsTable id_of rows
      → ((outcome : DecisionOutcome R) (rows' : List (Row T))
          → r ≡ ok (outcome, rows')
          → Keeps id_of rows rows')
      → Keeps id_of rows (settle encoders terms service result rows r).1
  unfolding settle
  settle-Keeps id_of service result rows (ok (outcome, rows')) t h = h outcome rows' refl
  settle-Keeps id_of service result rows (err (approval_refused code)) t h =
      record_refusal-Keeps id_of service.has_transactions (refusal_of encoders result code) rows t
  settle-Keeps id_of service result rows (err unknown_candidate) t h = Keeps-refl id_of rows t
  settle-Keeps id_of service result rows (err conflicting_decision) t h = Keeps-refl id_of rows t
  settle-Keeps id_of service result rows (err regenerator_not_configured) t h =
      Keeps-refl id_of rows t
  settle-Keeps id_of service result rows (err assertion_failed) t h = Keeps-refl id_of rows t
  settle-Keeps id_of service result rows (err unreadable_action) t h = Keeps-refl id_of rows t
  settle-Keeps id_of service result rows (err (regeneration_failed e)) t h = Keeps-refl id_of rows t

  pub apply_approval_result-Keeps :
      (id_of : Option String → String → String) (service : ReviewService A R E)
      (result : ApprovalResult) (rows : List (Row T))
      → IsTable id_of rows
      → Keeps id_of rows (apply_approval_result encoders terms service result rows).1
  unfolding apply_approval_result
  apply_approval_result-Keeps id_of service result rows t =
      settle-Keeps id_of service result rows
        (try_approval_result encoders terms service result rows) t
        (λ outcome rows' h.
          let (regenerator, verified) =
            try_approval_result-verified service result rows (outcome, rows') h in
          apply_verified_result-Keeps terms service.adjusted_feed_id regenerator encoders id_of
            result rows rows' outcome t (sym (verified rows) ∙ h))
