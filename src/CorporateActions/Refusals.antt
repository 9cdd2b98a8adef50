-- ===== src/CorporateActions/Refusals.antt =====
-- A refused result and the actions that are applied
-- (market_pipeline_lib/corporate_actions/service.py).
use idea2strategy_data_pipel.Prelude.{
  String, Bool, true, false, ◌≡◌, refl, sym, ◌∙◌, ap, subst, Option, some, List, [], ◌∷◌, ◌++◌, inl,
  inr, Bool-cases, Option-cases, if◌then◌else◌, any,
}
use idea2strategy_data_pipel.Prelude.Among.{Among}
use idea2strategy_data_pipel.Prelude.Sort.{sorted}
use idea2strategy_data_pipel.Prelude.Eq.{string_eq}
use idea2strategy_data_pipel.Prelude.Result.{Result, ok, err, ◌>>=◌}
use idea2strategy_data_pipel.CorporateActions.Decisions.{
  ReviewState, approved, same_state, ApprovalResult, EnvelopeEncoders,
}
use idea2strategy_data_pipel.CorporateActions.Row.{
  Row, row_of_id, state_of, HistoryEntry, refused, Refusal, upsert, merge, same_natural_key,
}
use idea2strategy_data_pipel.CorporateActions.Review.{
  Terms, ReviewError, unknown_candidate, conflicting_decision, regenerator_not_configured,
  assertion_failed, unreadable_action, approval_refused, regeneration_failed, DecisionOutcome,
  ApprovedAction, by_effective_at, approved_action, collect_approved, approved_actions,
}
use idea2strategy_data_pipel.CorporateActions.Approval.{refusal_of}
use idea2strategy_data_pipel.CorporateActions.Verified.{
  ReviewService, is_refused_as, with_refusal, record_refusal, try_approval_result, settle,
  apply_approval_result,
}
use idea2strategy_data_pipel.CorporateActions.Table.{
  IsTable, row_of_id-Among, Among-row_of_id, any-found, same_natural_key-id, some-injective,
}
use idea2strategy_data_pipel.CorporateActions.Moves.{same_natural_key_refl, Among-IsCanonical}

module _ {T : Type 0} where
  abbrev with_history : Row T → List HistoryEntry → Row T
  with_history row history = record row {
    terms_document = record row.terms_document { review_history = history };
  }

-- One round of the loop of `approved_actions`.
abbrev add :
    {A E : Type 0}
    → ReviewState
    → Result (ReviewError E) (ApprovedAction A)
    → Result (ReviewError E) (List (ApprovedAction A))
    → Result (ReviewError E) (List (ApprovedAction A))
add state action rest =
    if same_state state approved
    then (action >>= λ a. rest >>= λ actions. ok (a ∷ actions))
    else rest

module _ {T A E : Type 0} (terms : Terms T A) where
  approved_action-with_history :
      (row : Row T) (history : List HistoryEntry) (id : String)
      → ◌≡◌ {A = Result (ReviewError E) (ApprovedAction A)}
          (approved_action terms (record (with_history row history) { id = id }))
          (approved_action terms row)
  unfolding approved_action
  approved_action-with_history row history id = refl

  collect_approved-merge :
      (row : Row T) (history : List HistoryEntry) (rows : List (Row T))
      → ((x : Row T)
          → Among x rows
          → same_natural_key x (with_history row history) ≡ true
          → x ≡ row)
      → ◌≡◌ {A = Result (ReviewError E) (List (ApprovedAction A))}
          (collect_approved terms (merge (with_history row history) rows))
          (collect_approved terms rows)
  unfolding collect_approved
  collect_approved-merge row history [] only = refl
  collect_approved-merge row history (x ∷ rows) only =
      let rest = collect_approved-merge row history rows (λ y there. only y (inr there)) in
      elim (Bool-cases (same_natural_key x (with_history row history))) [
        | inr other ↦ rw other (ap (add (state_of x) (approved_action terms x)) rest)
        | inl same ↦
            let written = record (with_history row history) { id = x.id } in
            rw same (
              ap (add (state_of row) (approved_action terms written)) rest
              ∙ ap (λ a. add (state_of row) a (collect_approved terms rows))
                  (approved_action-with_history row history x.id)
              ∙ ap (λ y. add (state_of y) (approved_action terms y) (collect_approved terms rows))
                  (sym (only x (inl refl) same)))
      ]

  approved_actions-upsert :
      (id_of : Option String → String → String) (row : Row T) (history : List HistoryEntry)
      (rows : List (Row T))
      → IsTable id_of rows
      → Among row rows
      → ◌≡◌ {A = Result (ReviewError E) (List (ApprovedAction A))}
          (approved_actions terms (upsert (with_history row history) rows))
          (approved_actions terms rows)
  unfolding approved_actions upsert
  approved_actions-upsert id_of row history rows t h =
      rw (any-found id_of (with_history row history) rows row h (same_natural_key_refl row)) (
        ap (λ r. r >>= (λ actions. ok (sorted by_effective_at actions)))
          (collect_approved-merge row history rows (λ x there same. some-injective x row (
            sym (Among-row_of_id rows x t.distinct there)
            ∙ subst (λ i. row_of_id i rows ≡ some row)
                (sym (
                  same_natural_key-id id_of x row (Among-IsCanonical id_of x rows there t.canonical)
                    (Among-IsCanonical id_of row rows h t.canonical) same))
                (Among-row_of_id rows row t.distinct h)))))

  with_refusal-approved_actions :
      (id_of : Option String → String → String) (r : Refusal) (row : Row T) (rows : List (Row T))
      → IsTable id_of rows
      → Among row rows
      → ◌≡◌ {A = Result (ReviewError E) (List (ApprovedAction A))}
          (approved_actions terms (with_refusal r row rows))
          (approved_actions terms rows)
  with_refusal-approved_actions id_of r row rows t h =
      elim (Bool-cases (any (is_refused_as r) row.terms_document.review_history)) [
        | inl recorded ↦ rw recorded refl
        | inr fresh ↦ rw fresh (
            approved_actions-upsert id_of row (row.terms_document.review_history ++ refused r ∷ [])
              rows t h)
      ]

  record_refusal-approved_actions :
      (id_of : Option String → String → String) (has : Bool) (r : Refusal) (rows : List (Row T))
      → IsTable id_of rows
      → ◌≡◌ {A = Result (ReviewError E) (List (ApprovedAction A))}
          (approved_actions terms (record_refusal has r rows))
          (approved_actions terms rows)
  unfolding record_refusal
  record_refusal-approved_actions id_of false r rows t = refl
  record_refusal-approved_actions id_of true r rows t =
      elim (Option-cases (row_of_id r.candidate_id rows)) [
        | inl absent ↦ rw (record_refusal, absent) refl
        | inr (row, found) ↦
            rw (record_refusal, found)
              (with_refusal-approved_actions id_of r row rows t
                (row_of_id-Among r.candidate_id rows row found))
      ]

module _ {T A R E F D : Type 0} (encoders : EnvelopeEncoders F D) (terms : Terms T A)
    (service : ReviewService A R E) (id_of : Option String → String → String) where
  settle-approved_actions :
      (result : ApprovalResult) (rows : List (Row T)) (raised : ReviewError E)
      (r : Result (ReviewError E) (DecisionOutcome R × List (Row T)))
      → IsTable id_of rows
      → (settle encoders terms service result rows r).0 ≡ err raised
      → ◌≡◌ {A = Result (ReviewError E) (List (ApprovedAction A))}
          (approved_actions terms (settle encoders terms service result rows r).1)
          (approved_actions terms rows)
  unfolding settle
  settle-approved_actions result rows raised (ok (o, x)) t h = absurd cc
  settle-approved_actions result rows raised (err (approval_refused code)) t h =
      record_refusal-approved_actions terms id_of service.has_transactions
        (refusal_of encoders result code) rows t
  settle-approved_actions result rows raised (err unknown_candidate) t h = refl
  settle-approved_actions result rows raised (err conflicting_decision) t h = refl
  settle-approved_actions result rows raised (err regenerator_not_configured) t h = refl
  settle-approved_actions result rows raised (err assertion_failed) t h = refl
  settle-approved_actions result rows raised (err unreadable_action) t h = refl
  settle-approved_actions result rows raised (err (regeneration_failed x)) t h = refl

  -- A provider's result that raised, wherever, has no effect on the data: the approved actions that the
  -- regenerator would be given are the same as before. The table's ids are distinct and made of the
  -- natural keys.
  pub apply_approval_result-no_effect :
      (result : ApprovalResult) (rows : List (Row T)) (raised : ReviewError E)
      → IsTable id_of rows
      → (apply_approval_result encoders terms service result rows).0 ≡ err raised
      → ◌≡◌ {A = Result (ReviewError E) (List (ApprovedAction A))}
          (approved_actions terms (apply_approval_result encoders terms service result rows).1)
          (approved_actions terms rows)
  unfolding apply_approval_result
  apply_approval_result-no_effect result rows raised t h =
      settle-approved_actions result rows raised
        (try_approval_result encoders terms service result rows) t h
