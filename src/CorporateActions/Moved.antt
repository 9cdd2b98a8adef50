-- ===== src/CorporateActions/Moved.antt =====
-- What a provider's decision writes (market_pipeline_lib/corporate_actions/service.py).
use idea2strategy_data_pipel.Prelude.{
  String, Bool, true, false, not, ◌&&◌, ◌≡◌, refl, sym, ◌∙◌, ap, subst, Option, none, some, List,
  [], ◌∷◌, arith, inl, inr, Bool-cases, if◌then◌else◌, is_none, is_empty,
}
use idea2strategy_data_pipel.Prelude.Among.{Among, filter-Among}
use idea2strategy_data_pipel.Prelude.Eq.{string_eq, beq_refl}
use idea2strategy_data_pipel.Prelude.Result.{Result, ok, >>=-eq-ok}
use idea2strategy_data_pipel.CorporateActions.Decisions.{
  ReviewState, review_required, approved, withdrawn, superseded, same_state, ApprovalResult,
  RefusalCode, EnvelopeEncoders, is_withdraw,
}
use idea2strategy_data_pipel.CorporateActions.Row.{Row, same_text, row_of_id, state_of}
use idea2strategy_data_pipel.CorporateActions.Approval.{reviewed_row}
use idea2strategy_data_pipel.CorporateActions.Verified.{
  provider_transition, supersede, withdraw_row, approve_row, move_row, check_binding,
  approved_for_same_subject, same_subject,
}
use idea2strategy_data_pipel.CorporateActions.Table.{IsTable, row_of_id-Among, Among-row_of_id}
use idea2strategy_data_pipel.CorporateActions.Moves.{
  same_state-≡, Leads, reviews, withdraws, supersedes, Keeps, Keeps-refl, Keeps-trans, IsSame,
  rewritten-Keeps, row_of_id-rewritten,
}

ok-injective : {B : Type 0} {a b : B} → ◌≡◌ {A = Result RefusalCode B} (ok a) (ok b) → a ≡ b
ok-injective h = cc

conflict-parts : (a b c : Bool) → (not a && b && c) ≡ true → (a ≡ false) × (b ≡ true)
conflict-parts a b c h = ground arith

module _ {T F D : Type 0} (id_of : Option String → String → String)
    (encoders : EnvelopeEncoders F D) where
  reviewed_row-IsSame :
      (row : Row T) (result : ApprovalResult) (target : ReviewState) (affected : Option String)
      → IsSame id_of row (reviewed_row encoders row result target affected)
  unfolding reviewed_row
  reviewed_row-IsSame row result target affected = record {
    same_id = refl;
    same_manifest = refl;
    same_key = refl;
  }

  pub reviewed_row-state :
      (row : Row T) (result : ApprovalResult) (target : ReviewState) (affected : Option String)
      → state_of (reviewed_row encoders row result target affected) ≡ target
  unfolding reviewed_row
  reviewed_row-state row result target affected = refl

  provider_transition-Keeps :
      (row : Row T) (result : ApprovalResult) (target : ReviewState) (affected : Option String)
      (rows : List (Row T))
      → IsTable id_of rows
      → Among row rows
      → Leads (state_of row) target
      → Keeps id_of rows (provider_transition encoders row result target affected rows)
  unfolding provider_transition
  provider_transition-Keeps row result target affected rows t h leads =
      rewritten-Keeps id_of row (reviewed_row encoders row result target affected) rows t h
        (reviewed_row-IsSame row result target affected)
        (subst (Leads (state_of row)) (sym (reviewed_row-state row result target affected)) leads)

  provider_transition-finds :
      (row : Row T) (result : ApprovalResult) (target : ReviewState) (affected : Option String)
      (rows : List (Row T)) (id : String)
      → IsTable id_of rows
      → Among row rows
      → row_of_id id (provider_transition encoders row result target affected rows) ≡ (
          if string_eq.beq row.id id
          then some (reviewed_row encoders row result target affected)
          else row_of_id id rows)
  unfolding provider_transition
  provider_transition-finds row result target affected rows id t h =
      let s = reviewed_row-IsSame row result target affected in
      row_of_id-rewritten id_of row (reviewed_row encoders row result target affected) rows id t h s
      ∙ ap
          (λ i.
            if string_eq.beq i id
            then some (reviewed_row encoders row result target affected)
            else row_of_id id rows)
          s.same_id

  -- The row has been written in a state where it may go, and the table is kept.
  pub record IsMoved (result : ApprovalResult) (row : Row T) (rows : List (Row T))
      (target : ReviewState) (rows' : List (Row T)) : Type 0 where
    pub keeps : Keeps id_of rows rows'
    pub written : row_of_id row.id rows' ≡ some (reviewed_row encoders row result target none)

  transition-IsMoved :
      (row : Row T) (result : ApprovalResult) (target : ReviewState) (rows : List (Row T))
      → IsTable id_of rows
      → Among row rows
      → Leads (state_of row) target
      → IsMoved result row rows target (provider_transition encoders row result target none rows)
  transition-IsMoved row result target rows t h leads = record {
    keeps = provider_transition-Keeps row result target none rows t h leads;
    written =
        provider_transition-finds row result target none rows row.id t h
        ∙ ap
            (λ b.
              if b
              then some (reviewed_row encoders row result target none)
              else row_of_id row.id rows)
            (beq_refl row.id);
  }

  IsMoved-subst :
      (result : ApprovalResult) (row : Row T) (rows : List (Row T))
      {p q : ReviewState × List (Row T)}
      → p ≡ q
      → IsMoved result row rows p.0 p.1
      → IsMoved result row rows q.0 q.1
  IsMoved-subst result row rows e m =
      subst (λ (p : ReviewState × List (Row T)). IsMoved result row rows p.0 p.1) e m

  withdraw_row-IsMoved :
      (result : ApprovalResult) (row : Row T) (rows rows' : List (Row T)) (target : ReviewState)
      → IsTable id_of rows
      → Among row rows
      → withdraw_row encoders result row rows ≡ ok (target, rows')
      → IsMoved result row rows target rows'
  unfolding withdraw_row
  withdraw_row-IsMoved result row rows rows' target t h e =
      elim (Bool-cases (same_state (state_of row) approved)) [
        | inr other ↦ absurd ground (arith, other)
        | inl same ↦ IsMoved-subst result row rows (ok-injective (rw same at e)) (
            transition-IsMoved row result withdrawn rows t h (
              subst (λ s. Leads s withdrawn) (sym (same_state-≡ (state_of row) approved same))
                withdraws))
      ]

  supersede-ok :
      (result : ApprovalResult) (row : Row T) (conflicts rows rows' : List (Row T))
      → IsTable id_of rows
      → row_of_id row.id rows ≡ some row
      → ((x : Row T)
          → Among x conflicts
          → Among x rows × (state_of x ≡ approved) × (string_eq.beq x.id row.id ≡ false))
      → supersede encoders result conflicts rows ≡ ok rows'
      → Keeps id_of rows rows' × (row_of_id row.id rows' ≡ some row)
  unfolding supersede
  supersede-ok result row [] rows rows' t found all_are e =
      elim (Bool-cases (is_none result.supersedes_candidate_id)) [
        | inr named ↦ absurd ground (arith, named)
        | inl unnamed ↦
            subst (λ x. Keeps id_of rows x × (row_of_id row.id x ≡ some row))
              (ok-injective (rw unnamed at e)) (Keeps-refl id_of rows t, found)
      ]
  supersede-ok result row (x ∷ xs) rows rows' t found all_are e =
      let (there, is_approved, other) = all_are x (inl refl) in
      elim (Bool-cases (is_empty xs && same_text result.supersedes_candidate_id (some x.id))) [
        | inr unnamed ↦ absurd ground (arith, unnamed)
        | inl named ↦
            subst (λ y. Keeps id_of rows y × (row_of_id row.id y ≡ some row))
              (ok-injective (rw named at e))
              (
                provider_transition-Keeps x result superseded result.supersedes_candidate_id rows t
                    there (subst (λ s. Leads s superseded) (sym is_approved) supersedes),
                provider_transition-finds x result superseded result.supersedes_candidate_id rows
                      row.id t there
                    ∙ ap
                        (λ b.
                          if b
                          then some (
                              reviewed_row encoders x result superseded
                                result.supersedes_candidate_id)
                          else row_of_id row.id rows)
                        other
                    ∙ found,
              )
      ]

  approved_for_same_subject-all :
      (row x : Row T) (rows : List (Row T))
      → Among x (approved_for_same_subject row rows)
      → Among x rows × (state_of x ≡ approved) × (string_eq.beq x.id row.id ≡ false)
  unfolding approved_for_same_subject
  approved_for_same_subject-all row x rows h =
      let (there, passes) =
        filter-Among
          (λ other.
            not (string_eq.beq other.id row.id)
            && same_state (state_of other) approved
            && same_subject row other)
          x rows h in
      let (other, is_approved) =
        conflict-parts (string_eq.beq x.id row.id) (same_state (state_of x) approved)
          (same_subject row x) passes in
      (there, same_state-≡ (state_of x) approved is_approved, other)

  approve_row-IsMoved :
      (result : ApprovalResult) (row : Row T) (rows rows' : List (Row T)) (target : ReviewState)
      → IsTable id_of rows
      → Among row rows
      → approve_row encoders result row rows ≡ ok (target, rows')
      → IsMoved result row rows target rows'
  unfolding approve_row
  approve_row-IsMoved result row rows rows' target t h e =
      elim (Bool-cases (same_state (state_of row) review_required)) [
        | inr other ↦ absurd ground (arith, other)
        | inl same ↦
            let (between, superseding, rest) =
              >>=-eq-ok (supersede encoders result (approved_for_same_subject row rows) rows)
                (λ x. ok (approved, provider_transition encoders row result approved none x))
                (rw same at e) in
            let (keeps, found) =
              supersede-ok result row (approved_for_same_subject row rows) rows between t
                (Among-row_of_id rows row t.distinct h)
                (λ x there. approved_for_same_subject-all row x rows there) superseding in
            let moved =
              transition-IsMoved row result approved between keeps.is_table
                (row_of_id-Among row.id between row found)
                (subst (λ s. Leads s approved)
                  (sym (same_state-≡ (state_of row) review_required same)) (reviews approved)) in
            IsMoved-subst result row rows (ok-injective rest) (record {
              keeps =
                  Keeps-trans id_of rows between
                    (provider_transition encoders row result approved none between) keeps
                    moved.keeps;
              written = moved.written;
            })
      ]

  pub move_row-IsMoved :
      (result : ApprovalResult) (row : Row T) (rows rows' : List (Row T)) (target : ReviewState)
      → IsTable id_of rows
      → Among row rows
      → move_row encoders result row rows ≡ ok (target, rows')
      → IsMoved result row rows target rows'
  unfolding move_row
  move_row-IsMoved result row rows rows' target t h e =
      let (_, bound, rest) =
        >>=-eq-ok (check_binding result row)
          (λ _.
            if is_withdraw result.decision
            then withdraw_row encoders result row rows
            else approve_row encoders result row rows)
          e in
      elim (Bool-cases (is_withdraw result.decision)) [
        | inl withdrawal ↦
            withdraw_row-IsMoved result row rows rows' target t h (rw withdrawal at rest)
        | inr approval ↦ approve_row-IsMoved result row rows rows' target t h (rw approval at rest)
      ]
