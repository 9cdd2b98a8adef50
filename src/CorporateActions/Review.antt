-- ===== src/CorporateActions/Review.antt =====
-- `CorporateActionReviewService` of market_pipeline_lib/corporate_actions/service.py: recording, reading and
-- the decisions of an administrator. A call that raises leaves behind what it wrote. The parsers of
-- instants and terms, and the regenerator, are parameters.
use idea2strategy_data_pipel.Prelude.{
  ℕ, String, Bool, true, false, ◌||◌, ◌&&◌, Option, none, some, List, [], ◌∷◌, ◌++◌, if◌then◌else◌,
  any, is_none, ltb,
}
use idea2strategy_data_pipel.Prelude.Eq.{string_eq}
use idea2strategy_data_pipel.Prelude.Sort.{sorted}
use idea2strategy_data_pipel.Prelude.Text.{strip}
use idea2strategy_data_pipel.Prelude.Result.{Result, ok, err, ◌>>=◌, or_raise}
use idea2strategy_data_pipel.CorporateActions.Decisions.{
  ReviewState, review_required, approved, rejected, same_state, RefusalCode, AdminDecision,
  target_state, is_approve,
}
use idea2strategy_data_pipel.CorporateActions.Row.{
  Row, decided, reviewed, state_of, upsert, row_of_candidate,
}

pub record ApprovedAction (A : Type 0) : Type 0 where
  pub action_type : String
  pub effective_at : ℕ
  pub terms : A

-- `parse_terms`, which raises on terms that are not those of the type, `_parse_utc`, and `research_digest`.
pub record Terms (T A : Type 0) : Type 0 where
  pub parse_terms : String → T → Option A
  pub parse_utc : String → Option ℕ
  pub research_digest : T → String

-- The exceptions of the service; the regenerator's are a parameter.
pub data ReviewError (E : Type 0) : Type 0 where
  unknown_candidate conflicting_decision regenerator_not_configured assertion_failed
        unreadable_action :
      ReviewError E
  approval_refused : RefusalCode → ReviewError E
  regeneration_failed : E → ReviewError E

-- `regenerate` and `regenerate_in_transaction`, on the raw manifest, the adjusted feed, the approved actions
-- and the instant; whether the regenerator has `with_catalog` and the latter.
pub record Regenerator (A R E : Type 0) : Type 0 where
  pub regenerate : Option String → String → List (ApprovedAction A) → ℕ → Result E R
  pub regenerate_in_transaction : String → String → List (ApprovedAction A) → ℕ → Result E R
  pub binds_catalog : Bool
  pub joins_transaction : Bool

pub record DecisionOutcome (R : Type 0) : Type 0 where
  pub candidate_id : String
  pub state : ReviewState
  pub regeneration : Option R

-- `record_candidate`, on the row that `corporate_action_record` makes of the candidate.
unfoldable pub record_candidate : {T : Type 0} → Row T → List (Row T) → Bool × List (Row T)
record_candidate r rows =
    if any (λ row. string_eq.beq row.id r.id) rows then (false, rows) else (true, upsert r rows)

-- The row that `_transition` writes.
unfoldable pub decided_row :
    {T A : Type 0} → Terms T A → Row T → AdminDecision → ReviewState → Row T
decided_row terms row d target =
    let entry = decided target (strip d.decided_by) d.decided_at (strip d.rationale) in
    let document = row.terms_document in
    record row {
      terms_document = record document {
        review = entry;
        review_history = document.review_history ++ reviewed entry ∷ [];
      };
      terms_hash = terms.research_digest document.substance;
    }

-- `_transition`, on the row that was read.
unfoldable pub transition :
    {T A : Type 0} → Terms T A → Row T → AdminDecision → ReviewState → List (Row T) → List (Row T)
transition terms row d target rows = upsert (decided_row terms row d target) rows

abbrev pub by_effective_at : {A : Type 0} → ApprovedAction A → ApprovedAction A → Bool
by_effective_at a b = ltb a.effective_at b.effective_at

module _ {T A E : Type 0} (terms : Terms T A) where
  unfoldable pub approved_action : Row T → Result (ReviewError E) (ApprovedAction A)
  approved_action row = do
    effective_at ← or_raise (terms.parse_utc row.effective_at) unreadable_action
    parsed ←
        or_raise (terms.parse_terms row.action_type row.terms_document.substance) unreadable_action
    ok record { action_type = row.action_type; effective_at = effective_at; terms = parsed }

  -- The loop of `approved_actions`.
  unfoldable pub collect_approved : List (Row T) → Result (ReviewError E) (List (ApprovedAction A))
  collect_approved [] = ok []
  collect_approved (row ∷ rows) =
      let rest = collect_approved rows in
      if same_state (state_of row) approved
      then (approved_action row >>= λ action. rest >>= λ actions. ok (action ∷ actions))
      else rest

  unfoldable pub approved_actions : List (Row T) → Result (ReviewError E) (List (ApprovedAction A))
  approved_actions rows = do actions ← collect_approved rows; ok (sorted by_effective_at actions)

module _ {T A R E : Type 0} (terms : Terms T A) where
  -- The regeneration of `apply_decision`, on the rows after the transition.
  unfoldable pub regenerate_all :
      Option (Regenerator A R E)
      → Option String
      → String
      → AdminDecision
      → List (Row T)
      → Result (ReviewError E) (DecisionOutcome R)
  regenerate_all none raw feed d rows = err assertion_failed
  regenerate_all (some regenerator) raw feed d rows = do
    actions ← approved_actions terms rows
    regeneration ← elim (regenerator.regenerate raw feed actions d.decided_at) [
      | ok r ↦ ok r
      | err e ↦ err (regeneration_failed e)
    ]
    ok record {
      candidate_id = d.candidate_id;
      state = target_state d;
      regeneration = some regeneration;
    }

  -- `apply_decision` behind its checks: the transition, and the regeneration.
  unfoldable pub decide :
      Option (Regenerator A R E)
      → Option String
      → String
      → AdminDecision
      → Row T
      → List (Row T)
      → Result (ReviewError E) (DecisionOutcome R) × List (Row T)
  decide regenerator raw feed d row rows =
      let rows' =
        if same_state (state_of row) review_required
        then transition terms row d (target_state d) rows
        else rows in
      (
        if same_state (target_state d) rejected
            then ok record {
              candidate_id = d.candidate_id;
              state = target_state d;
              regeneration = none;
            }
            else regenerate_all regenerator raw feed d rows',
        rows',
      )

  -- `apply_decision` behind the lookup of the row.
  unfoldable pub apply_to :
      Option (Regenerator A R E)
      → Option String
      → String
      → AdminDecision
      → Option (Row T)
      → List (Row T)
      → Result (ReviewError E) (DecisionOutcome R) × List (Row T)
  apply_to regenerator raw feed d none rows = (err unknown_candidate, rows)
  apply_to regenerator raw feed d (some row) rows =
      if same_state (state_of row) review_required || same_state (state_of row) (target_state d)
      then if is_approve d.decision && is_none regenerator
        then (err regenerator_not_configured, rows)
        else decide regenerator raw feed d row rows
      else (err conflicting_decision, rows)

  unfoldable pub apply_decision :
      Option (Regenerator A R E)
      → Option String
      → String
      → AdminDecision
      → List (Row T)
      → Result (ReviewError E) (DecisionOutcome R) × List (Row T)
  apply_decision regenerator raw feed d rows =
      apply_to regenerator raw feed d (row_of_candidate d.candidate_id rows) rows
