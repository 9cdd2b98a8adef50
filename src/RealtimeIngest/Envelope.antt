-- ===== src/RealtimeIngest/Envelope.antt =====
-- Which events `parse_market_event` accepts, and what it makes of them.
use idea2strategy_data_pipel.Prelude.{
  ℕ, zero, suc, ◌≤◌, inl, inr, Bool-cases, String, ◌≡◌, refl, true, false, Option, none, some,
  is_some, arith, ltb,
}
use idea2strategy_data_pipel.Prelude.Int.{ℤ, pos, eqb_ℤ_iff}
use idea2strategy_data_pipel.Prelude.Text.{strip, is_blank}
use idea2strategy_data_pipel.Prelude.Stripping.{strip-again}
use idea2strategy_data_pipel.Prelude.Result.{ok}
use idea2strategy_data_pipel.Watermarks.Position.{aware}
use idea2strategy_data_pipel.RealtimeIngest.Json
use idea2strategy_data_pipel.RealtimeIngest.Json.{Json, Fields, get, has_fields}
use idea2strategy_data_pipel.RealtimeIngest.Fault.{Platform}
use idea2strategy_data_pipel.RealtimeIngest.Event.{
  MarketEvent, parse_market_event, with_offset, text, stripped, text_of, named_correction, utc,
  fields_of, non_negative, check_correction, check_version, check_values,
}

-- What C's `MarketEventEnvelope` guarantees.
pub record IsEnvelope {F D : Type 0} (e : MarketEvent F D) : Type 0 where
  pub version : e.schema_version ≡ pos 1
  pub in_order : e.occurred_at ≤ e.received_at
  pub corrects : is_some e.correction_of_event_id ≡ ltb 0 e.revision
  pub carries_values : has_fields e.values ≡ true
  pub named : is_blank e.event_id ≡ false
  pub instrument : is_blank e.instrument_id ≡ false
  pub from_provider : is_blank e.provider ≡ false
  pub from_feed : is_blank e.feed ≡ false
  pub typed : is_blank e.event_type ≡ false
  pub provider_named : is_blank e.provider_event_id ≡ false

-- A correction names its original by a text that is not blank, without white space at its ends.
abbrev pub IsNaming : Option String → Type 0
IsNaming none = Unit
IsNaming (some s) = (strip s ≡ s) × (is_blank s ≡ false)

-- No text of the event has white space at its ends.
pub record IsTrimmed {F D : Type 0} (e : MarketEvent F D) : Type 0 where
  pub event_id : strip e.event_id ≡ e.event_id
  pub instrument_id : strip e.instrument_id ≡ e.instrument_id
  pub provider : strip e.provider ≡ e.provider
  pub feed : strip e.feed ≡ e.feed
  pub event_type : strip e.event_type ≡ e.event_type
  pub provider_event_id : strip e.provider_event_id ≡ e.provider_event_id
  pub correction : IsNaming e.correction_of_event_id

stripped-trimmed : (key raw s : String) → stripped key raw ≡ ok s → strip s ≡ s
unfolding stripped
stripped-trimmed key raw s h = elim (Bool-cases (is_blank (strip raw))) [
  | inl blank ↦ absurd ground arith
  | inr named ↦ let it : s ≡ strip raw = ground arith in rw it (strip-again raw)
]

named_correction-IsNaming :
    (s t : String) → named_correction s ≡ ok (some t) → (strip t ≡ t) × (is_blank t ≡ false)
unfolding named_correction
named_correction-IsNaming s t h = elim (Bool-cases (is_blank (strip s))) [
  | inl blank ↦ absurd ground arith
  | inr named ↦ let it : t ≡ strip s = ground arith in rw it (strip-again s, named)
]

module _ {F D : Type 0} (platform : Platform F D) where
  check_correction-corrects :
      (r : ℕ) (o : Option (Json F D)) (c : Option String)
      → check_correction r o ≡ ok c
      → is_some c ≡ ltb 0 r
  unfolding check_correction
  check_correction-corrects zero o c h = ground arith
  check_correction-corrects (suc r) o c h = ground arith

  text_named : (key : String) (d : Fields F D) (s : String) → text key d ≡ ok s → is_blank s ≡ false
  unfolding text
  text_named key d s h = ground arith

  text_of-trimmed :
      (key : String) (o : Option (Json F D)) (s : String) → text_of key o ≡ ok s → strip s ≡ s
  unfolding text_of
  text_of-trimmed key (some (Json.text raw)) s h = stripped-trimmed key raw s h
  text_of-trimmed key o s h = absurd ground arith

  text_trimmed : (key : String) (d : Fields F D) (s : String) → text key d ≡ ok s → strip s ≡ s
  unfolding text
  text_trimmed key d s h = text_of-trimmed key (get key d) s h

  check_correction-IsNaming :
      (r : ℕ) (o : Option (Json F D)) (c : Option String) → check_correction r o ≡ ok c → IsNaming c
  unfolding check_correction
  check_correction-IsNaming r o none h = tt
  check_correction-IsNaming zero o (some t) h = absurd ground arith
  check_correction-IsNaming (suc r) (some (Json.text s)) (some t) h =
      named_correction-IsNaming s t h
  check_correction-IsNaming (suc r) o (some t) h = absurd ground arith

  check_version-one : (o : Option (Json F D)) (v : ℤ) → check_version o ≡ ok v → v ≡ pos 1
  unfolding check_version
  check_version-one o v h = ground (arith, eqb_ℤ_iff v (pos 1))

  check_values-carries :
      (o : Option (Json F D)) (v : Fields F D) → check_values o ≡ ok v → has_fields v ≡ true
  unfolding check_values
  check_values-carries o v h = ground arith

  -- What the document gave the event, field by field.
  record Parsed (d : Fields F D) (e : MarketEvent F D) : Type 0 where
    version : check_version (get "schemaVersion" d) ≡ ok e.schema_version
    in_order : e.occurred_at ≤ e.received_at
    correction :
        check_correction e.revision (get "correctionOfEventId" d) ≡ ok e.correction_of_event_id
    values : check_values (get "values" d) ≡ ok e.values
    event_id : text "eventId" d ≡ ok e.event_id
    instrument_id : text "instrumentId" d ≡ ok e.instrument_id
    provider : text "provider" d ≡ ok e.provider
    feed : text "feed" d ≡ ok e.feed
    event_type : text "eventType" d ≡ ok e.event_type
    provider_event_id : text "providerEventId" d ≡ ok e.provider_event_id

  parsed :
      (d : Fields F D) (e : MarketEvent F D)
      → parse_market_event platform (Json.object d) ≡ ok e
      → Parsed d e
  unfolding parse_market_event fields_of
  parsed d e h = ground arith

  document-IsEnvelope :
      (d : Fields F D) (e : MarketEvent F D)
      → parse_market_event platform (Json.object d) ≡ ok e
      → IsEnvelope e × IsTrimmed e
  document-IsEnvelope d e h =
      let p = parsed d e h in
      (
        record {
          version = check_version-one (get "schemaVersion" d) e.schema_version p.version;
          in_order = p.in_order;
          corrects =
              check_correction-corrects e.revision (get "correctionOfEventId" d)
                e.correction_of_event_id p.correction;
          carries_values = check_values-carries (get "values" d) e.values p.values;
          named = text_named "eventId" d e.event_id p.event_id;
          instrument = text_named "instrumentId" d e.instrument_id p.instrument_id;
          from_provider = text_named "provider" d e.provider p.provider;
          from_feed = text_named "feed" d e.feed p.feed;
          typed = text_named "eventType" d e.event_type p.event_type;
          provider_named = text_named "providerEventId" d e.provider_event_id p.provider_event_id;
        },
        record {
          event_id = text_trimmed "eventId" d e.event_id p.event_id;
          instrument_id = text_trimmed "instrumentId" d e.instrument_id p.instrument_id;
          provider = text_trimmed "provider" d e.provider p.provider;
          feed = text_trimmed "feed" d e.feed p.feed;
          event_type = text_trimmed "eventType" d e.event_type p.event_type;
          provider_event_id =
              text_trimmed "providerEventId" d e.provider_event_id p.provider_event_id;
          correction =
              check_correction-IsNaming e.revision (get "correctionOfEventId" d)
                e.correction_of_event_id p.correction;
        },
      )

  -- Every accepted event meets the invariants of C's envelope: the schema version is 1, it was not received
  -- before it occurred, it has values, and it corrects another exactly when its revision is above 0. Its
  -- texts, with the name of the corrected event where there is one, are not blank and have no white space
  -- at their ends.
  pub parse_market_event-IsEnvelope :
      (event : Json F D) (e : MarketEvent F D)
      → parse_market_event platform event ≡ ok e
      → IsEnvelope e × IsTrimmed e
  unfolding parse_market_event fields_of
  parse_market_event-IsEnvelope (Json.object d) e h = document-IsEnvelope d e h
  parse_market_event-IsEnvelope event e h = absurd (ground arith)

-- The document in which C's publisher sends an event, with `stamp` for the text of an instant.
module _ {F D : Type 0} (platform : Platform F D) (stamp : ℕ → String) where
  abbrev correction_json : Option String → Json F D
  correction_json none = Json.null
  correction_json (some s) = Json.text s

  abbrev pub document : MarketEvent F D → Fields F D
  document e =
      (Json.field "eventId" (Json.text e.event_id) (
        Json.field "schemaVersion" (Json.int e.schema_version) (
          Json.field "instrumentId" (Json.text e.instrument_id) (
            Json.field "provider" (Json.text e.provider) (
              Json.field "feed" (Json.text e.feed) (
                Json.field "eventType" (Json.text e.event_type) (
                  Json.field "providerEventId" (Json.text e.provider_event_id) (
                    Json.field "occurredAt" (Json.text (stamp e.occurred_at)) (
                      Json.field "receivedAt" (Json.text (stamp e.received_at)) (
                        Json.field "sequence" (Json.int (pos e.sequence)) (
                          Json.field "revision" (Json.int (pos e.revision)) (
                            Json.field "correctionOfEventId"
                              (correction_json e.correction_of_event_id)
                              (Json.field "values" (Json.object e.values) Json.end)))))))))))))

  abbrev pub envelope : MarketEvent F D → Json F D
  envelope e = Json.object (document e)

  -- The text of the instant is read back as it.
  pub record IsStamp (t : ℕ) : Type 0 where
    pub trimmed : strip (stamp t) ≡ stamp t
    pub named : is_blank (stamp t) ≡ false
    pub read : platform.fromisoformat (with_offset (stamp t)) ≡ some (aware t)

  text-get :
      (key : String) (d : Fields F D) (s : String)
      → get key d ≡ some (Json.text s)
      → strip s ≡ s
      → is_blank s ≡ false
      → text key d ≡ ok s
  unfolding text
  text-get key d s h trimmed named = ground arith

  utc-get :
      (key : String) (d : Fields F D) (t : ℕ)
      → IsStamp t
      → get key d ≡ some (Json.text (stamp t))
      → utc platform key d ≡ ok t
  unfolding utc
  utc-get key d t st h = ground (arith, text-get key d (stamp t) h st.trimmed st.named, st.read)

  check_correction-json :
      (r : ℕ) (c : Option String)
      → is_some c ≡ ltb 0 r
      → IsNaming c
      → check_correction r (some (correction_json c)) ≡ ok c
  unfolding check_correction
  check_correction-json zero none h t = refl
  check_correction-json zero (some s) h t = ground arith
  check_correction-json (suc r) none h t = ground arith
  check_correction-json (suc r) (some s) h t = ground (arith, t)

  -- An event that meets the envelope's invariants comes back from its document unchanged, where its
  -- texts are trimmed and the texts of its two instants read back as those instants.
  pub parse_market_event-envelope :
      (e : MarketEvent F D)
      → IsStamp e.occurred_at
      → IsStamp e.received_at
      → IsEnvelope e
      → IsTrimmed e
      → parse_market_event platform (envelope e) ≡ ok e
  unfolding parse_market_event fields_of check_version non_negative check_values
  parse_market_event-envelope e occurred received v t =
      let d : Fields F D = document e in
      ground (
        arith,
        utc-get "occurredAt" d e.occurred_at occurred refl,
        utc-get "receivedAt" d e.received_at received refl,
        check_correction-json e.revision e.correction_of_event_id v.corrects t.correction,
        text-get "eventId" d e.event_id refl,
        text-get "instrumentId" d e.instrument_id refl,
        text-get "provider" d e.provider refl,
        text-get "feed" d e.feed refl,
        text-get "eventType" d e.event_type refl,
        text-get "providerEventId" d e.provider_event_id refl,
      )
