-- ===== src/CorporateActions/Withdrawal.antt =====
-- An administrator's withdrawal without a regenerator
-- (market_pipeline_lib/corporate_actions/service.py).
use idea2strategy_data_pipel.Prelude.{
  String, ◌≡◌, refl, sym, ◌∙◌, ap, subst, Option, none, some, List, if◌then◌else◌,
}
use idea2strategy_data_pipel.Prelude.Among.{Among}
use idea2strategy_data_pipel.Prelude.Eq.{string_eq, beq_refl}
use idea2strategy_data_pipel.Prelude.Result.{Result, err}
use idea2strategy_data_pipel.CorporateActions.Decisions.{
  review_required, withdrawn, withdraw, AdminDecision,
}
use idea2strategy_data_pipel.CorporateActions.Row.{Row, row_of_id, row_of_candidate, state_of}
use idea2strategy_data_pipel.CorporateActions.Review.{
  Terms, ReviewError, assertion_failed, Regenerator, DecisionOutcome, decided_row, transition,
  regenerate_all, decide, apply_to, apply_decision,
}
use idea2strategy_data_pipel.CorporateActions.Table.{IsTable, row_of_candidate-Among}
use idea2strategy_data_pipel.CorporateActions.Moves.{row_of_id-rewritten}

module _ {T A : Type 0} (id_of : Option String → String → String) (terms : Terms T A) where
  transition-withdrawn :
      (d : AdminDecision) (row : Row T) (rows : List (Row T))
      → IsTable id_of rows
      → Among row rows
      → (row' : Row T) × (row_of_id row.id (transition terms row d withdrawn rows) ≡ some row')
        × (state_of row' ≡ withdrawn)
  unfolding transition decided_row
  transition-withdrawn d row rows t h = (
    decided_row terms row d withdrawn,
    row_of_id-rewritten id_of row (decided_row terms row d withdrawn) rows row.id t h
          (record { same_id = refl; same_manifest = refl; same_key = refl })
        ∙ ap (λ b. if b then some (decided_row terms row d withdrawn) else row_of_id row.id rows)
            (beq_refl row.id),
    refl,
  )

abbrev pub no_regenerator : {A R E : Type 0} → Option (Regenerator A R E)
no_regenerator = none

module _ {T A R E : Type 0} (id_of : Option String → String → String) (terms : Terms T A)
    (raw : Option String) (feed : String) where
  apply_to-withdraws :
      (d : AdminDecision) (row : Row T) (rows : List (Row T))
      → d.decision ≡ withdraw
      → state_of row ≡ review_required
      → apply_to terms (no_regenerator {A = A} {R = R} {E = E}) raw feed d (some row) rows
        ≡ (err assertion_failed, transition terms row d withdrawn rows)
  unfolding apply_to decide regenerate_all
  apply_to-withdraws d row rows withdraws pending = rw (withdraws, pending) refl

  -- Without a regenerator, the withdrawal of a candidate that waits for its review raises an
  -- `AssertionError` after it was recorded: the candidate is WITHDRAWN, and nothing was regenerated. The
  -- table's ids are distinct and made of the natural keys.
  pub apply_decision-withdraws_unguarded :
      (d : AdminDecision) (row : Row T) (rows : List (Row T))
      → IsTable id_of rows
      → d.decision ≡ withdraw
      → row_of_candidate d.candidate_id rows ≡ some row
      → state_of row ≡ review_required
      → ((apply_decision terms (no_regenerator {A = A} {R = R} {E = E}) raw feed d rows).0
          ≡ err assertion_failed)
        × ((row' : Row T) × (row_of_id row.id
                (apply_decision terms (no_regenerator {A = A} {R = R} {E = E}) raw feed d rows).1
              ≡ some row')
            × (state_of row' ≡ withdrawn))
  unfolding apply_decision
  apply_decision-withdraws_unguarded d row rows t withdraws found pending =
      let e =
        ap (λ o. apply_to terms (no_regenerator {A = A} {R = R} {E = E}) raw feed d o rows) found
        ∙ apply_to-withdraws d row rows withdraws pending in
      (
        ap (λ (p : Result (ReviewError E) (DecisionOutcome R) × List (Row T)). p.0) e,
        subst (λ x. (row' : Row T) × (row_of_id row.id x ≡ some row') × (state_of row' ≡ withdrawn))
            (sym (ap (λ (p : Result (ReviewError E) (DecisionOutcome R) × List (Row T)). p.1) e))
            (transition-withdrawn id_of terms d row rows t
              (row_of_candidate-Among d.candidate_id rows row found)),
      )
