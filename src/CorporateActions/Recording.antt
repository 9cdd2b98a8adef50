-- ===== src/CorporateActions/Recording.antt =====
-- A candidate that is recorded (market_pipeline_lib/corporate_actions/service.py).
use idea2strategy_data_pipel.Prelude.{
  String, Bool, true, false, ◌||◌, ◌≡◌, refl, sym, ◌∙◌, ap, subst, Option, none, some, List, [],
  ◌∷◌, arith, inl, inr, Bool-cases, All, any,
}
use idea2strategy_data_pipel.Prelude.Eq.{string_eq, beq_refl}
use idea2strategy_data_pipel.CorporateActions.Row.{
  Row, same_natural_key, append_row, upsert, row_of_id, state_of,
}
use idea2strategy_data_pipel.CorporateActions.Review.{record_candidate}
use idea2strategy_data_pipel.CorporateActions.Table.{
  IsDistinct, IsCanonical, IsTable, same_natural_key-id, none-some, true-false,
}
use idea2strategy_data_pipel.CorporateActions.Moves.{stays, Keeps, Keeps-refl}

or-right : (a b : Bool) → (a || b) ≡ false → b ≡ false
or-right a b h = ground arith

or-left : (a b : Bool) → (a || b) ≡ false → a ≡ false
or-left a b h = ground arith

beq-sym : (s t : String) → string_eq.beq s t ≡ false → string_eq.beq t s ≡ false
beq-sym s t h = ground (arith, string_eq.beq_iff s t, string_eq.beq_iff t s)

module _ {T : Type 0} (id_of : Option String → String → String) where
  any_key-false :
      (r : Row T) (rows : List (Row T))
      → IsCanonical id_of r
      → All (IsCanonical id_of) rows
      → any (λ row. string_eq.beq row.id r.id) rows ≡ false
      → any (λ row. same_natural_key row r) rows ≡ false
  any_key-false r [] c cs h = refl
  any_key-false r (row ∷ rows) c (d, cs) h = elim (Bool-cases (same_natural_key row r)) [
    | inl same ↦
        let e = same_natural_key-id id_of row r d c same in
        absurd (
          true-false (
            sym (
              ap (λ b. b || any (λ x. string_eq.beq x.id r.id) rows)
                (subst (λ i. string_eq.beq i r.id ≡ true) (sym e) (beq_refl r.id)))
            ∙ h))
    | inr other ↦ rw other (
        any_key-false r rows c cs
          (or-right (string_eq.beq row.id r.id) (any (λ x. string_eq.beq x.id r.id) rows) h))
  ]

  append_row-IsCanonical :
      (r : Row T) (rows : List (Row T))
      → IsCanonical id_of r
      → All (IsCanonical id_of) rows
      → All (IsCanonical id_of) (append_row r rows)
  append_row-IsCanonical r [] c cs = (c, tt)
  append_row-IsCanonical r (row ∷ rows) c (d, cs) = (d, append_row-IsCanonical r rows c cs)

  row_of_id-append_row :
      (r : Row T) (rows : List (Row T)) (id : String) (row : Row T)
      → row_of_id id rows ≡ some row
      → row_of_id id (append_row r rows) ≡ some row
  row_of_id-append_row r [] id row h = absurd (none-some row h)
  row_of_id-append_row r (x ∷ rows) id row h = elim (Bool-cases (string_eq.beq x.id id)) [
    | inl hit ↦ rw hit (rw hit at h)
    | inr miss ↦ rw miss (row_of_id-append_row r rows id row (rw miss at h))
  ]

  append_row-none :
      (r : Row T) (rows : List (Row T)) (id : String)
      → string_eq.beq r.id id ≡ false
      → row_of_id id rows ≡ none
      → row_of_id id (append_row r rows) ≡ none
  append_row-none r [] id other h = rw other refl
  append_row-none r (x ∷ rows) id other h = elim (Bool-cases (string_eq.beq x.id id)) [
    | inl hit ↦ absurd ground (arith, hit)
    | inr miss ↦ rw miss (append_row-none r rows id other (rw miss at h))
  ]

  append_row-IsDistinct :
      (r : Row T) (rows : List (Row T))
      → IsDistinct rows
      → any (λ row. string_eq.beq row.id r.id) rows ≡ false
      → IsDistinct (append_row r rows)
  append_row-IsDistinct r [] d h = (refl, tt)
  append_row-IsDistinct r (row ∷ rows) (fresh, d) h = (
    append_row-none r rows row.id
        (beq-sym row.id r.id
          (or-left (string_eq.beq row.id r.id) (any (λ x. string_eq.beq x.id r.id) rows) h))
        fresh,
    append_row-IsDistinct r rows d
        (or-right (string_eq.beq row.id r.id) (any (λ x. string_eq.beq x.id r.id) rows) h),
  )

  pub record_candidate-Keeps :
      (r : Row T) (rows : List (Row T))
      → IsTable id_of rows
      → IsCanonical id_of r
      → Keeps id_of rows (record_candidate r rows).1
  unfolding record_candidate upsert
  record_candidate-Keeps r rows t c =
      elim (Bool-cases (any (λ row. string_eq.beq row.id r.id) rows)) [
        | inl there ↦ rw there (Keeps-refl id_of rows t)
        | inr absent ↦
            rw (absent, any_key-false r rows c t.canonical absent)
              (record {
                is_table = record {
                  canonical = append_row-IsCanonical r rows c t.canonical;
                  distinct = append_row-IsDistinct r rows t.distinct absent;
                };
                follows = λ id row found.
                    (row, row_of_id-append_row r rows id row found, stays (state_of row));
              })
      ]
