-- ===== src/CorporateActions/Settled.antt =====
-- Sequences of calls of the review service, and a result that is delivered again
-- (market_pipeline_lib/corporate_actions/service.py).
use idea2strategy_data_pipel.Prelude.{String, ◌≡◌, Option, some, List, [], ◌∷◌, All}
use idea2strategy_data_pipel.Prelude.Eq.{string_eq}
use idea2strategy_data_pipel.CorporateActions.Decisions.{
  ApprovalResult, AdminDecision, EnvelopeEncoders,
}
use idea2strategy_data_pipel.CorporateActions.Row.{Row, row_of_id, state_of}
use idea2strategy_data_pipel.CorporateActions.Review.{Terms, record_candidate, apply_decision}
use idea2strategy_data_pipel.CorporateActions.Verified.{ReviewService, apply_approval_result}
use idea2strategy_data_pipel.CorporateActions.Table.{IsCanonical, IsTable}
use idea2strategy_data_pipel.CorporateActions.Moves.{Leads, Keeps, Keeps-refl, Keeps-trans}
use idea2strategy_data_pipel.CorporateActions.Recording.{record_candidate-Keeps}
use idea2strategy_data_pipel.CorporateActions.Admin.{apply_decision-Keeps}
use idea2strategy_data_pipel.CorporateActions.Calls.{apply_approval_result-Keeps}

-- A call of the service: a candidate's row is recorded, an administrator decides, the provider does.
pub data Call (T : Type 0) : Type 0 where
  records : Row T → Call T
  decides : AdminDecision → Call T
  delivers : ApprovalResult → Call T

-- The row of a recorded candidate has the id of its natural key.
abbrev pub IsCanonicalCall : {T : Type 0} → (Option String → String → String) → Call T → Type 0
IsCanonicalCall id_of (records row) = IsCanonical id_of row
IsCanonicalCall id_of (decides d) = Unit
IsCanonicalCall id_of (delivers result) = Unit

module _ {T A R E F D : Type 0} (encoders : EnvelopeEncoders F D) (terms : Terms T A)
    (service : ReviewService A R E) (raw : Option String) where
  unfoldable pub call : Call T → List (Row T) → List (Row T)
  call (records row) rows = (record_candidate row rows).1
  call (decides d) rows =
      (apply_decision terms service.regenerator raw service.adjusted_feed_id d rows).1
  call (delivers result) rows = (apply_approval_result encoders terms service result rows).1

  unfoldable pub call_all : List (Call T) → List (Row T) → List (Row T)
  call_all [] rows = rows
  call_all (c ∷ calls) rows = call_all calls (call c rows)

  module _ (id_of : Option String → String → String) where
    call-Keeps :
        (c : Call T) (rows : List (Row T))
        → IsTable id_of rows
        → IsCanonicalCall id_of c
        → Keeps id_of rows (call c rows)
    unfolding call
    call-Keeps (records row) rows t canonical = record_candidate-Keeps id_of row rows t canonical
    call-Keeps (decides d) rows t canonical =
        apply_decision-Keeps id_of terms service.regenerator raw service.adjusted_feed_id d rows t
    call-Keeps (delivers result) rows t canonical =
        apply_approval_result-Keeps encoders terms id_of service result rows t

    call_all-Keeps :
        (calls : List (Call T)) (rows : List (Row T))
        → IsTable id_of rows
        → All (IsCanonicalCall id_of) calls
        → Keeps id_of rows (call_all calls rows)
    unfolding call_all
    call_all-Keeps [] rows t canonical = Keeps-refl id_of rows t
    call_all-Keeps (c ∷ calls) rows t (first, rest) =
        let k = call-Keeps c rows t first in
        Keeps-trans id_of rows (call c rows) (call_all calls (call c rows)) k
          (call_all-Keeps calls (call c rows) k.is_table rest)

    -- No row is lost in any sequence of recordings, decisions and deliveries, whether they return or raise,
    -- and the state of each has gone only where it may: from `REVIEW_REQUIRED` to anything, from `APPROVED`
    -- to `WITHDRAWN` or `SUPERSEDED`, and from the others nowhere. The table's ids are distinct and made of
    -- the natural keys, as are those of the recorded candidates.
    pub call_all-Leads :
        (calls : List (Call T)) (rows : List (Row T)) (id : String) (row : Row T)
        → IsTable id_of rows
        → All (IsCanonicalCall id_of) calls
        → row_of_id id rows ≡ some row
        → (row' : Row T) × (row_of_id id (call_all calls rows) ≡ some row')
          × Leads (state_of row) (state_of row')
    call_all-Leads calls rows id row t canonical found =
        (call_all-Keeps calls rows t canonical).follows id row found
