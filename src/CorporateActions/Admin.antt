-- ===== src/CorporateActions/Admin.antt =====
-- The decisions of an administrator on the table
-- (market_pipeline_lib/corporate_actions/service.py).
use idea2strategy_data_pipel.Prelude.{
  String, true, ◌&&◌, ◌||◌, ◌≡◌, refl, sym, subst, Option, none, some, List, inl, inr, Bool-cases,
  is_none,
}
use idea2strategy_data_pipel.Prelude.Among.{Among}
use idea2strategy_data_pipel.Prelude.Eq.{string_eq}
use idea2strategy_data_pipel.CorporateActions.Decisions.{
  review_required, same_state, AdminDecision, target_state, is_approve,
}
use idea2strategy_data_pipel.CorporateActions.Row.{Row, row_of_candidate, state_of}
use idea2strategy_data_pipel.CorporateActions.Review.{
  Terms, Regenerator, decided_row, transition, decide, apply_to, apply_decision,
}
use idea2strategy_data_pipel.CorporateActions.Table.{IsTable, row_of_candidate-Among}
use idea2strategy_data_pipel.CorporateActions.Moves.{
  same_state-≡, Leads, reviews, Keeps, Keeps-refl, rewritten-Keeps,
}

module _ {T A : Type 0} (id_of : Option String → String → String) (terms : Terms T A) where
  transition-Keeps :
      (row : Row T) (d : AdminDecision) (rows : List (Row T))
      → IsTable id_of rows
      → Among row rows
      → same_state (state_of row) review_required ≡ true
      → Keeps id_of rows (transition terms row d (target_state d) rows)
  unfolding transition decided_row
  transition-Keeps row d rows t h pending =
      rewritten-Keeps id_of row (decided_row terms row d (target_state d)) rows t h
        (record { same_id = refl; same_manifest = refl; same_key = refl })
        (subst (λ s. Leads s (target_state d))
          (sym (same_state-≡ (state_of row) review_required pending)) (reviews (target_state d)))

  module _ {R E : Type 0} (regenerator : Option (Regenerator A R E)) (raw : Option String)
      (feed : String) where
    decide-Keeps :
        (d : AdminDecision) (row : Row T) (rows : List (Row T))
        → IsTable id_of rows
        → Among row rows
        → Keeps id_of rows (decide terms regenerator raw feed d row rows).1
    unfolding decide
    decide-Keeps d row rows t h = elim (Bool-cases (same_state (state_of row) review_required)) [
      | inl pending ↦ rw pending (transition-Keeps row d rows t h pending)
      | inr settled ↦ rw settled (Keeps-refl id_of rows t)
    ]

    apply_to-Keeps :
        (d : AdminDecision) (o : Option (Row T)) (rows : List (Row T))
        → IsTable id_of rows
        → ((row : Row T) → o ≡ some row → Among row rows)
        → Keeps id_of rows (apply_to terms regenerator raw feed d o rows).1
    unfolding apply_to
    apply_to-Keeps d none rows t h = Keeps-refl id_of rows t
    apply_to-Keeps d (some row) rows t h =
        elim (Bool-cases (
          same_state (state_of row) review_required
          || same_state (state_of row) (target_state d))) [
            | inr conflict ↦ rw conflict (Keeps-refl id_of rows t)
            | inl allowed ↦ elim (Bool-cases (is_approve d.decision && is_none regenerator)) [
              | inl unwired ↦ rw (allowed, unwired) (Keeps-refl id_of rows t)
              | inr wired ↦ rw (allowed, wired) (decide-Keeps d row rows t (h row refl))
            ]
          ]

    pub apply_decision-Keeps :
        (d : AdminDecision) (rows : List (Row T))
        → IsTable id_of rows
        → Keeps id_of rows (apply_decision terms regenerator raw feed d rows).1
    unfolding apply_decision
    apply_decision-Keeps d rows t =
        apply_to-Keeps d (row_of_candidate d.candidate_id rows) rows t
          (λ row found. row_of_candidate-Among d.candidate_id rows row found)
