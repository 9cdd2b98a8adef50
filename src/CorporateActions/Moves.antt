-- ===== src/CorporateActions/Moves.antt =====
-- Where a review may go, and the writes that follow it
-- (market_pipeline_lib/corporate_actions/service.py).
use idea2strategy_data_pipel.Prelude.{
  String, true, ◌&&◌, ◌≡◌, refl, sym, ◌∙◌, ap, subst, Option, none, some, List, [], ◌∷◌, arith, inl,
  inr, Bool-cases, All, if◌then◌else◌,
}
use idea2strategy_data_pipel.Prelude.Among.{Among}
use idea2strategy_data_pipel.Prelude.Eq.{string_eq, beq_refl}
use idea2strategy_data_pipel.CorporateActions.Decisions.{
  ReviewState, review_required, approved, withdrawn, superseded, same_state,
}
use idea2strategy_data_pipel.CorporateActions.Row.{
  Row, same_text, same_natural_key, merge, upsert, row_of_id, state_of,
}
use idea2strategy_data_pipel.CorporateActions.Table.{
  IsDistinct, IsCanonical, IsTable, same_natural_key-id, any-found, Among-row_of_id,
  row_of_id-upsert, some-injective,
}

-- A review leaves `REVIEW_REQUIRED` for anything, and an approval is only withdrawn or superseded.
pub data Leads : ReviewState → ReviewState → Type 0 where
  stays : (s : ReviewState) → Leads s s
  reviews : (s : ReviewState) → Leads review_required s
  withdraws : Leads approved withdrawn
  supersedes : Leads approved superseded

pub Leads-trans : (a b c : ReviewState) → Leads a b → Leads b c → Leads a c
Leads-trans a b c (stays _) l = l
Leads-trans a b c (reviews _) l = reviews c
Leads-trans a b c withdraws (stays _) = withdraws
Leads-trans a b c supersedes (stays _) = supersedes

pub same_state-≡ : (a b : ReviewState) → same_state a b ≡ true → a ≡ b
same_state-≡ a b h = ground arith

same_text_refl : (a : Option String) → same_text a a ≡ true
same_text_refl none = refl
same_text_refl (some a) = beq_refl a

pub same_natural_key_refl : {T : Type 0} → (row : Row T) → same_natural_key row row ≡ true
same_natural_key_refl row =
    ground (arith, same_text_refl row.source_manifest_id, beq_refl row.provider_event_key)

module _ {T : Type 0} (id_of : Option String → String → String) where
  -- Every row is still there, and its state has gone where it may.
  abbrev pub Follows : List (Row T) → List (Row T) → Type 0
  Follows rows rows' =
      (id : String) (row : Row T)
      → row_of_id id rows ≡ some row
      → (row' : Row T) × (row_of_id id rows' ≡ some row') × Leads (state_of row) (state_of row')

  pub record Keeps (rows rows' : List (Row T)) : Type 0 where
    pub is_table : IsTable id_of rows'
    pub follows : Follows rows rows'

  pub Keeps-refl : (rows : List (Row T)) → IsTable id_of rows → Keeps rows rows
  Keeps-refl rows t = record {
    is_table = t;
    follows = λ id row found. (row, found, stays (state_of row));
  }

  pub Keeps-trans : (a b c : List (Row T)) → Keeps a b → Keeps b c → Keeps a c
  Keeps-trans a b c k l = record {
    is_table = l.is_table;
    follows = λ id row found.
        let (row', found', leads) = k.follows id row found in
        let (row'', found'', leads') = l.follows id row' found' in
        (row'', found'', Leads-trans (state_of row) (state_of row') (state_of row'') leads leads');
  }

  merge-IsCanonical :
      (r : Row T) (rows : List (Row T))
      → IsCanonical id_of r
      → All (IsCanonical id_of) rows
      → All (IsCanonical id_of) (merge r rows)
  merge-IsCanonical r [] c cs = tt
  merge-IsCanonical r (row ∷ rows) c (d, cs) = elim (Bool-cases (same_natural_key row r)) [
    | inl hit ↦ rw hit (same_natural_key-id id_of row r d c hit ∙ c, merge-IsCanonical r rows c cs)
    | inr miss ↦ rw miss (d, merge-IsCanonical r rows c cs)
  ]

  merge-none :
      (r : Row T) (rows : List (Row T)) (id : String)
      → row_of_id id rows ≡ none
      → row_of_id id (merge r rows) ≡ none
  merge-none r [] id h = refl
  merge-none r (row ∷ rows) id h = elim (Bool-cases (string_eq.beq row.id id)) [
    | inl hit ↦ absurd ground (arith, hit)
    | inr miss ↦ elim (Bool-cases (same_natural_key row r)) [
      | inl same ↦ rw (same, miss) (merge-none r rows id (rw miss at h))
      | inr other ↦ rw (other, miss) (merge-none r rows id (rw miss at h))
    ]
  ]

  merge-IsDistinct : (r : Row T) (rows : List (Row T)) → IsDistinct rows → IsDistinct (merge r rows)
  merge-IsDistinct r [] d = tt
  merge-IsDistinct r (row ∷ rows) (fresh, d) = elim (Bool-cases (same_natural_key row r)) [
    | inl same ↦ rw same (merge-none r rows row.id fresh, merge-IsDistinct r rows d)
    | inr other ↦ rw other (merge-none r rows row.id fresh, merge-IsDistinct r rows d)
  ]

  pub Among-IsCanonical :
      (row : Row T) (rows : List (Row T))
      → Among row rows
      → All (IsCanonical id_of) rows
      → IsCanonical id_of row
  Among-IsCanonical row [] h cs = absurd h
  Among-IsCanonical row (r ∷ rows) (inl e) cs = subst (IsCanonical id_of) e cs.0
  Among-IsCanonical row (r ∷ rows) (inr later) cs = Among-IsCanonical row rows later cs.1

  -- The two rows have the same id and the same natural key.
  pub record IsSame (row r : Row T) : Type 0 where
    pub same_id : r.id ≡ row.id
    pub same_manifest : r.source_manifest_id ≡ row.source_manifest_id
    pub same_key : r.provider_event_key ≡ row.provider_event_key

  IsSame-IsCanonical : (row r : Row T) → IsSame row r → IsCanonical id_of row → IsCanonical id_of r
  IsSame-IsCanonical row r s c =
      s.same_id
      ∙ c
      ∙ ap (λ m. id_of m row.provider_event_key) (sym s.same_manifest)
      ∙ ap (id_of r.source_manifest_id) (sym s.same_key)

  IsSame-same_natural_key : (row r : Row T) → IsSame row r → same_natural_key row r ≡ true
  IsSame-same_natural_key row r s =
      ap
        (λ m.
          same_text row.source_manifest_id m
          && string_eq.beq row.provider_event_key r.provider_event_key)
        s.same_manifest
      ∙ ap
          (λ k.
            same_text row.source_manifest_id row.source_manifest_id
            && string_eq.beq row.provider_event_key k)
          s.same_key
      ∙ same_natural_key_refl row

  -- What is found after a row is written over.
  pub row_of_id-rewritten :
      (row r : Row T) (rows : List (Row T)) (id : String)
      → IsTable id_of rows
      → Among row rows
      → IsSame row r
      → row_of_id id (upsert r rows) ≡ (if string_eq.beq r.id id then some r else row_of_id id rows)
  row_of_id-rewritten row r rows id t h s =
      row_of_id-upsert id_of r rows row id t
        (IsSame-IsCanonical row r s (Among-IsCanonical row rows h t.canonical))
        (subst (λ i. row_of_id i rows ≡ some row) (sym s.same_id)
          (Among-row_of_id rows row t.distinct h))
        (IsSame-same_natural_key row r s)

  rewritten-IsTable :
      (row r : Row T) (rows : List (Row T))
      → IsTable id_of rows
      → Among row rows
      → IsSame row r
      → IsTable id_of (upsert r rows)
  unfolding upsert
  rewritten-IsTable row r rows t h s =
      rw (any-found id_of r rows row h (IsSame-same_natural_key row r s)) (record {
        canonical =
            merge-IsCanonical r rows
              (IsSame-IsCanonical row r s (Among-IsCanonical row rows h t.canonical)) t.canonical;
        distinct = merge-IsDistinct r rows t.distinct;
      })

  -- A row that is written over in a state where it may go keeps the table.
  pub rewritten-Keeps :
      (row r : Row T) (rows : List (Row T))
      → IsTable id_of rows
      → Among row rows
      → IsSame row r
      → Leads (state_of row) (state_of r)
      → Keeps rows (upsert r rows)
  rewritten-Keeps row r rows t h s leads = record {
    is_table = rewritten-IsTable row r rows t h s;
    follows = λ id x found. elim (Bool-cases (string_eq.beq r.id id)) [
      | inl hit ↦
          let e = (string_eq.beq_iff r.id id).0 hit in
          let same : x ≡ row = some-injective x row (
            sym found
            ∙ subst (λ i. row_of_id i rows ≡ some row) (sym s.same_id ∙ e)
                (Among-row_of_id rows row t.distinct h)) in
          (
            r,
            row_of_id-rewritten row r rows id t h s
                ∙ ap (λ b. if b then some r else row_of_id id rows) hit,
            subst (λ y. Leads (state_of y) (state_of r)) (sym same) leads,
          )
      | inr miss ↦ (
        x,
        row_of_id-rewritten row r rows id t h s
            ∙ ap (λ b. if b then some r else row_of_id id rows) miss
            ∙ found,
        stays (state_of x),
      )
    ];
  }
