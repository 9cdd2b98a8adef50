-- ===== src/CorporateActions/Table.antt =====
-- The table of corporate actions under `upsert` (market_pipeline_lib/corporate_actions/service.py). An id is
-- made of the natural key.
use idea2strategy_data_pipel.Prelude.{
  String, Bool, true, false, ◌||◌, ◌≡◌, refl, sym, ◌∙◌, ap, subst, Option, none, some, List, [],
  ◌∷◌, arith, inl, inr, Bool-cases, All, any, if◌then◌else◌, &&-true,
}
use idea2strategy_data_pipel.Prelude.Among.{Among}
use idea2strategy_data_pipel.Prelude.Eq.{string_eq, beq_refl}
use idea2strategy_data_pipel.CorporateActions.Row.{
  Row, same_text, same_natural_key, merge, upsert, row_of_id, row_of_candidate, text_of,
}

same_text-≡ : (a b : Option String) → same_text a b ≡ true → a ≡ b
same_text-≡ none none h = refl
same_text-≡ none (some b) h = absurd ground arith
same_text-≡ (some a) none h = absurd ground arith
same_text-≡ (some a) (some b) h = ap some ((string_eq.beq_iff a b).0 h)

pub some-injective : {A : Type 0} → (a b : A) → some a ≡ some b → a ≡ b
some-injective a b h = cc

pub none-some : {A : Type 0} → (a : A) → none ≡ some a → ⊥
none-some a h = cc

pub true-false : true ≡ false → ⊥
true-false h = cc

or-true : (a b : Bool) → b ≡ true → (a || b) ≡ true
or-true a b h = ground arith

module _ {T : Type 0} where
  -- No two rows have the same id.
  abbrev pub IsDistinct : List (Row T) → Type 0
  IsDistinct [] = Unit
  IsDistinct (row ∷ rows) = (row_of_id row.id rows ≡ none) × IsDistinct rows

  pub row_of_id-id :
      (id : String) (rows : List (Row T)) (row : Row T) → row_of_id id rows ≡ some row → row.id ≡ id
  row_of_id-id id [] row h = absurd ground arith
  row_of_id-id id (r ∷ rows) row h = elim (Bool-cases (string_eq.beq r.id id)) [
    | inl same ↦
        let e : r ≡ row = some-injective r row (rw same at h) in
        subst (λ x. x.id ≡ id) e ((string_eq.beq_iff r.id id).0 same)
    | inr other ↦ row_of_id-id id rows row (rw other at h)
  ]

  pub row_of_id-Among :
      (id : String) (rows : List (Row T)) (row : Row T)
      → row_of_id id rows ≡ some row
      → Among row rows
  row_of_id-Among id [] row h = absurd ground arith
  row_of_id-Among id (r ∷ rows) row h = elim (Bool-cases (string_eq.beq r.id id)) [
    | inl same ↦ inl (some-injective r row (rw same at h))
    | inr other ↦ inr (row_of_id-Among id rows row (rw other at h))
  ]

  pub Among-row_of_id :
      (rows : List (Row T)) (row : Row T)
      → IsDistinct rows
      → Among row rows
      → row_of_id row.id rows ≡ some row
  Among-row_of_id [] row d h = absurd h
  Among-row_of_id (r ∷ rows) row (fresh, d) (inl same) =
      subst (λ (x : Row T). row_of_id x.id (r ∷ rows) ≡ some x) same (rw (beq_refl r.id) refl)
  Among-row_of_id (r ∷ rows) row (fresh, d) (inr later) =
      let found = Among-row_of_id rows row d later in
      elim (Bool-cases (string_eq.beq r.id row.id)) [
        | inl same ↦
            let e = (string_eq.beq_iff r.id row.id).0 same in
            absurd (none-some row (sym (subst (λ i. row_of_id i rows ≡ none) e fresh) ∙ found))
        | inr other ↦ rw other found
      ]

  pub row_of_candidate-Among :
      (candidate : String) (rows : List (Row T)) (row : Row T)
      → row_of_candidate candidate rows ≡ some row
      → Among row rows
  row_of_candidate-Among candidate [] row h = absurd ground arith
  row_of_candidate-Among candidate (r ∷ rows) row h =
      elim (Bool-cases (string_eq.beq (text_of r.terms_document.candidate_id) candidate)) [
        | inl same ↦ inl (some-injective r row (rw same at h))
        | inr other ↦ inr (row_of_candidate-Among candidate rows row (rw other at h))
      ]

module _ {T : Type 0} (id_of : Option String → String → String) where
  -- The id is that of the natural key.
  abbrev pub IsCanonical : Row T → Type 0
  IsCanonical row = row.id ≡ id_of row.source_manifest_id row.provider_event_key

  pub record IsTable (rows : List (Row T)) : Type 0 where
    pub canonical : All IsCanonical rows
    pub distinct : IsDistinct rows

  pub same_natural_key-id :
      (a b : Row T) → IsCanonical a → IsCanonical b → same_natural_key a b ≡ true → a.id ≡ b.id
  same_natural_key-id a b p q h =
      let (m, k) =
        &&-true (same_text a.source_manifest_id b.source_manifest_id)
          (string_eq.beq a.provider_event_key b.provider_event_key) h in
      p
      ∙ ap (λ x. id_of x a.provider_event_key)
          (same_text-≡ a.source_manifest_id b.source_manifest_id m)
      ∙ ap (id_of b.source_manifest_id)
          ((string_eq.beq_iff a.provider_event_key b.provider_event_key).0 k)
      ∙ sym q

  with_own_id : (r : Row T) (id : String) → id ≡ r.id → ◌≡◌ {A = Row T} (record r { id = id }) r
  with_own_id r id e = λ i. record r { id = e i }

  merge-other :
      (r : Row T) (rows : List (Row T)) (id : String)
      → IsCanonical r
      → All IsCanonical rows
      → string_eq.beq r.id id ≡ false
      → row_of_id id (merge r rows) ≡ row_of_id id rows
  merge-other r [] id c cs h = refl
  merge-other r (row ∷ rows) id c (d, cs) h = elim (Bool-cases (same_natural_key row r)) [
    | inr other ↦
        rw other
          (ap (λ o. if string_eq.beq row.id id then some row else o) (merge-other r rows id c cs h))
    | inl same ↦
        let ne =
          subst (λ i. string_eq.beq i id ≡ false) (sym (same_natural_key-id row r d c same)) h in
        rw (same, ne) (merge-other r rows id c cs h)
  ]

  merge-same :
      (r : Row T) (rows : List (Row T)) (found : Row T)
      → IsCanonical r
      → All IsCanonical rows
      → row_of_id r.id rows ≡ some found
      → same_natural_key found r ≡ true
      → row_of_id r.id (merge r rows) ≡ some r
  merge-same r [] found c cs there same = absurd ground arith
  merge-same r (row ∷ rows) found c (d, cs) there same =
      elim (Bool-cases (same_natural_key row r)) [
        | inl hit ↦
            let e = same_natural_key-id row r d c hit in
            let eq = subst (λ i. string_eq.beq i r.id ≡ true) (sym e) (beq_refl r.id) in
            rw (hit, eq) (ap some (with_own_id r row.id e))
        | inr miss ↦ elim (Bool-cases (string_eq.beq row.id r.id)) [
          | inl first ↦
              let e = some-injective row found (rw first at there) in
              absurd (true-false (sym same ∙ ap (λ x. same_natural_key x r) (sym e) ∙ miss))
          | inr later ↦ rw (miss, later) (merge-same r rows found c cs (rw later at there) same)
        ]
      ]

  pub any-found :
      (r : Row T) (rows : List (Row T)) (found : Row T)
      → Among found rows
      → same_natural_key found r ≡ true
      → any (λ row. same_natural_key row r) rows ≡ true
  any-found r [] found h same = absurd h
  any-found r (row ∷ rows) found (inl e) same = rw (ap (λ x. same_natural_key x r) e ∙ same) refl
  any-found r (row ∷ rows) found (inr later) same =
      or-true (same_natural_key row r) (any (λ x. same_natural_key x r) rows)
        (any-found r rows found later same)

  -- Writing over a row of the same natural key changes what is found under its id, and nothing else.
  pub row_of_id-upsert :
      (r : Row T) (rows : List (Row T)) (found : Row T) (id : String)
      → IsTable rows
      → IsCanonical r
      → row_of_id r.id rows ≡ some found
      → same_natural_key found r ≡ true
      → row_of_id id (upsert r rows) ≡ (if string_eq.beq r.id id then some r else row_of_id id rows)
  unfolding upsert
  row_of_id-upsert r rows found id t c there same =
      rw (any-found r rows found (row_of_id-Among r.id rows found there) same)
        (elim (Bool-cases (string_eq.beq r.id id)) [
          | inl hit ↦
              let e = (string_eq.beq_iff r.id id).0 hit in
              rw hit (
                subst (λ i. row_of_id i (merge r rows) ≡ some r) e
                  (merge-same r rows found c t.canonical there same))
          | inr miss ↦ rw miss (merge-other r rows id c t.canonical miss)
        ])
