-- ===== src/CorporateActions/Row.antt =====
-- The canonical rows of `market_data.corporate_actions` as market_pipeline_lib/corporate_actions/service.py
-- reads and writes them. The substance of a document, which the terms and their digest are made of, is a
-- parameter; `upsert` is that of `LocalCatalog` on the table's natural key.
use idea2strategy_data_pipel.Prelude.{
  ℕ, String, Bool, true, false, ◌&&◌, Option, none, some, List, [], ◌∷◌, if◌then◌else◌, any,
}
use idea2strategy_data_pipel.Prelude.Eq.{string_eq}
use idea2strategy_data_pipel.CorporateActions.Decisions.{
  DecisionType, ReviewState, review_required, RefusalCode,
}

-- What `_provider_transition` records beside the state.
pub record ProviderFacts : Type 0 where
  pub decision : DecisionType
  pub candidate_id : String
  pub decided_content_hash : String
  pub evidence_bindings : List String
  pub actor_id : String
  pub audit_id : String
  pub permission_id : String
  pub request_schema_version : String
  pub decided_at : ℕ
  pub delivery_id : String
  pub envelope_hash : String
  pub aggregate_sequence : ℕ
  pub supersedes_candidate_id : Option String
  pub rationale : String

-- The document's `review`: as it was researched, decided by an administrator, or by the provider.
pub data Review : Type 0 where
  pending : Review
  decided : ReviewState → String → ℕ → String → Review
  provided : ReviewState → ProviderFacts → Review

-- What `_record_refusal` appends.
pub record Refusal : Type 0 where
  pub reason_code : RefusalCode
  pub candidate_id : String
  pub delivery_id : String
  pub envelope_hash : String
  pub audit_id : String
  pub aggregate_sequence : ℕ
  pub recorded_at : ℕ

pub data HistoryEntry : Type 0 where
  reviewed : Review → HistoryEntry
  refused : Refusal → HistoryEntry

pub record TermsDocument (T : Type 0) : Type 0 where
  pub candidate_id : Option String
  pub substance : T
  pub evidence : List (Option String)
  pub review : Review
  pub review_history : List HistoryEntry

pub record Row (T : Type 0) : Type 0 where
  pub id : String
  pub instrument_id : String
  pub source_manifest_id : Option String
  pub provider_event_key : String
  pub action_type : String
  pub effective_at : String
  pub terms_document : TermsDocument T
  pub terms_hash : String

abbrev pub review_state : Review → ReviewState
review_state pending = review_required
review_state (decided s _ _ _) = s
review_state (provided s _) = s

abbrev pub same_text : Option String → Option String → Bool
same_text none none = true
same_text (some a) (some b) = string_eq.beq a b
same_text _ _ = false

-- `str(value)`.
abbrev pub text_of : Option String → String
text_of none = "None"
text_of (some s) = s

module _ {T : Type 0} where
  -- `_state`.
  abbrev pub state_of : Row T → ReviewState
  state_of row = review_state row.terms_document.review

  -- The unique index of `NATURAL_KEYS`.
  abbrev pub same_natural_key : Row T → Row T → Bool
  same_natural_key a b =
      same_text a.source_manifest_id b.source_manifest_id
      && string_eq.beq a.provider_event_key b.provider_event_key

  -- The rows of the same natural key are replaced, under their own ids.
  abbrev pub merge : Row T → List (Row T) → List (Row T)
  merge r [] = []
  merge r (row ∷ rows) =
      (if same_natural_key row r then record r { id = row.id } else row) ∷ merge r rows

  abbrev pub append_row : Row T → List (Row T) → List (Row T)
  append_row r [] = r ∷ []
  append_row r (row ∷ rows) = row ∷ append_row r rows

  unfoldable pub upsert : Row T → List (Row T) → List (Row T)
  upsert r rows =
      if any (λ row. same_natural_key row r) rows then merge r rows else append_row r rows

  -- The first row of an id, and the first of a candidate.
  abbrev pub row_of_id : String → List (Row T) → Option (Row T)
  row_of_id id [] = none
  row_of_id id (row ∷ rows) = if string_eq.beq row.id id then some row else row_of_id id rows

  abbrev pub row_of_candidate : String → List (Row T) → Option (Row T)
  row_of_candidate candidate [] = none
  row_of_candidate candidate (row ∷ rows) =
      if string_eq.beq (text_of row.terms_document.candidate_id) candidate
      then some row
      else row_of_candidate candidate rows
