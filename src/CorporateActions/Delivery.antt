-- ===== src/CorporateActions/Delivery.antt =====
-- A provider's result from its delivery to the table
-- (market_pipeline_lib/corporate_actions/service.py).
use idea2strategy_data_pipel.Prelude.{
  String, Bool, true, false, ◌≡◌, sym, ◌∙◌, ap, subst, Option, some, List, arith, inl, inr, ◌⊎◌,
  Option-cases,
}
use idea2strategy_data_pipel.Prelude.Eq.{string_eq}
use idea2strategy_data_pipel.Prelude.Result.{Result, ok, err, ◌>>=◌, >>=-eq-ok}
use idea2strategy_data_pipel.CorporateActions.Decisions.{
  ApprovalResult, RefusalCode, EnvelopeEncoders,
}
use idea2strategy_data_pipel.CorporateActions.Row.{Row, row_of_id, state_of}
use idea2strategy_data_pipel.CorporateActions.Review.{
  Terms, ReviewError, Regenerator, DecisionOutcome,
}
use idea2strategy_data_pipel.CorporateActions.Verified.{
  refusing, move_row, is_redelivery, regenerate_joined, apply_delivery, apply_verified_result,
}
use idea2strategy_data_pipel.CorporateActions.Table.{IsTable, row_of_id-Among}
use idea2strategy_data_pipel.CorporateActions.Moves.{Keeps, Keeps-refl}
use idea2strategy_data_pipel.CorporateActions.Moved.{move_row-IsMoved}

module _ {E B : Type 0} where
  result-injective : {a b : B} → ◌≡◌ {A = Result E B} (ok a) (ok b) → a ≡ b
  result-injective h = cc

  refusing-ok :
      (r : Result RefusalCode B) (b : B)
      → ◌≡◌ {A = Result (ReviewError E) B} (refusing r) (ok b)
      → r ≡ ok b
  refusing-ok (ok a) b h = cc
  refusing-ok (err code) b h = absurd cc

module _ {T A R E F D : Type 0} (terms : Terms T A) (feed : String)
    (regenerator : Regenerator A R E) (encoders : EnvelopeEncoders F D) where
  -- How a result was applied: as a redelivery, which changes nothing, or by a move.
  unfoldable pub Applied :
      ApprovalResult → Row T → List (Row T) → DecisionOutcome R → List (Row T) → Type 0
  Applied result row rows outcome rows' =
      ((is_redelivery encoders result row ≡ ok true)
        × (rows' ≡ rows)
        × (outcome.state ≡ state_of row))
      ⊎ ((is_redelivery encoders result row ≡ ok false)
          × (move_row encoders result row rows ≡ ok (outcome.state, rows')))

  apply_delivery-Applied :
      (result : ApprovalResult) (row : Row T) (again : Bool) (rows rows' : List (Row T))
      (outcome : DecisionOutcome R)
      → is_redelivery encoders result row ≡ ok again
      → apply_delivery terms feed regenerator encoders result row again rows ≡ ok (outcome, rows')
      → Applied result row rows outcome rows'
  unfolding Applied apply_delivery
  apply_delivery-Applied result row true rows rows' outcome again h =
      let e = result-injective h in
      inl (
        again,
        sym (ap (λ (p : DecisionOutcome R × List (Row T)). p.1) e),
        sym (ap (λ (p : DecisionOutcome R × List (Row T)). p.0.state) e),
      )
  apply_delivery-Applied result row false rows rows' outcome again h =
      let (moved, moves, rest) =
        >>=-eq-ok (refusing (move_row encoders result row rows))
          (λ moved. regenerate_joined terms feed regenerator result row moved.1 >>= (λ regeneration.
            ok (
              record {
                candidate_id = result.candidate_id;
                state = moved.0;
                regeneration = some regeneration;
              },
              moved.1,
            )))
          h in
      let (regeneration, _, last) =
        >>=-eq-ok (regenerate_joined terms feed regenerator result row moved.1)
          (λ regeneration. ok (
            record {
              candidate_id = result.candidate_id;
              state = moved.0;
              regeneration = some regeneration;
            },
            moved.1,
          ))
          rest in
      let e = result-injective last in
      inr (
        again,
        refusing-ok (move_row encoders result row rows) moved moves
            ∙ ap (λ (p : DecisionOutcome R × List (Row T)). ok (p.0.state, p.1)) e,
      )

  pub apply_verified_result-Applied :
      (result : ApprovalResult) (rows rows' : List (Row T)) (outcome : DecisionOutcome R)
      → apply_verified_result terms feed regenerator encoders result rows ≡ ok (outcome, rows')
      → (row : Row T) × (row_of_id result.candidate_id rows ≡ some row)
        × Applied result row rows outcome rows'
  unfolding apply_verified_result
  apply_verified_result-Applied result rows rows' outcome h =
      elim (Option-cases (row_of_id result.candidate_id rows)) [
        | inl absent ↦ absurd ground (arith, absent)
        | inr (row, found) ↦
            let (again, tested, applied) =
              >>=-eq-ok (refusing (is_redelivery encoders result row))
                (λ again. apply_delivery terms feed regenerator encoders result row again rows)
                (rw (apply_verified_result, found) at h) in
            (
              row,
              found,
              apply_delivery-Applied result row again rows rows' outcome
                  (refusing-ok (is_redelivery encoders result row) again tested) applied,
            )
      ]

  pub apply_verified_result-Keeps :
      (id_of : Option String → String → String) (result : ApprovalResult)
      (rows rows' : List (Row T)) (outcome : DecisionOutcome R)
      → IsTable id_of rows
      → apply_verified_result terms feed regenerator encoders result rows ≡ ok (outcome, rows')
      → Keeps id_of rows rows'
  unfolding Applied
  apply_verified_result-Keeps id_of result rows rows' outcome t h =
      let (row, found, applied) = apply_verified_result-Applied result rows rows' outcome h in
      elim applied [
        | inl (again, same, state) ↦ subst (Keeps id_of rows) (sym same) (Keeps-refl id_of rows t)
        | inr (fresh, moves) ↦
            (move_row-IsMoved id_of encoders result row rows rows' outcome.state t
              (row_of_id-Among result.candidate_id rows row found) moves).keeps
      ]
