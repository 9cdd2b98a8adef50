-- ===== src/ManifestWatermarks/Project.antt =====
-- What `advance_available_manifest_watermarks` promises.
use idea2strategy_data_pipel.Prelude.{
  ℕ, String, ◌≡◌, sym, ◌∙◌, false, none, some, List, [], ◌∷◌, ◌++◌, arith, inl, inr,
}
use mathlib.Core.Bool.{false≢true}
use idea2strategy_data_pipel.Prelude.Eq.{string_eq, contains}
use idea2strategy_data_pipel.Prelude.Sort.{text_lt, sorted, contains-sorted}
use idea2strategy_data_pipel.Prelude.Dict.{Dict, keys}
use idea2strategy_data_pipel.Prelude.Result.{ok, Result-cases}
use idea2strategy_data_pipel.Watermarks.Position.{aware}
use idea2strategy_data_pipel.Watermarks.Repository.{WatermarkRepository}
use idea2strategy_data_pipel.Watermarks.Ledger.{stored_position}
use idea2strategy_data_pipel.Watermarks.Heads.{AtLeast, AtLeast-trans}
use idea2strategy_data_pipel.ManifestWatermarks.{
  Catalog, ManifestRow, Candidate, Projected, Projection, candidate_position, active_feed_ids,
  latest_from, advance_feeds, advance_available_manifest_watermarks,
}
use idea2strategy_data_pipel.ManifestWatermarks.Latest.{
  IsEligible, latest_from-Reaches, latest_from-AllActive, contains-keys,
}
use idea2strategy_data_pipel.ManifestWatermarks.Advance.{
  advance_feeds-never_regresses, advance_feeds-reaches, advance_feeds-settled, advance_feeds-others,
  advance_feeds-again,
}

module _ {R : Type 0} (repo : WatermarkRepository R) where
  open repo use {load}

  -- The parts of a projection that went through.
  record Parts (c : Catalog) (observed : ℕ) (r : R) (p : Projection) (r' : R) : Type 0 where
    latest : Dict String Candidate
    rows : List Projected
    collected : latest_from (active_feed_ids c) [] c.manifests ≡ ok latest
    advanced :
        advance_feeds repo observed latest (sorted text_lt (keys latest)) r
        ≡ ok (p.advanced_feed_count, rows, r')

  parts :
      (c : Catalog) (observed : ℕ) (r : R) (p : Projection) (r' : R)
      → advance_available_manifest_watermarks repo c observed r ≡ ok (p, r')
      → Parts c observed r p r'
  unfolding advance_available_manifest_watermarks
  parts c observed r p r' h = elim (Result-cases (latest_from (active_feed_ids c) [] c.manifests)) [
    | inr (e, refused) ↦ absurd (ground arith)
    | inl (latest, collected) ↦
        elim (Result-cases (advance_feeds repo observed latest (sorted text_lt (keys latest)) r)) [
          | inr (e, refused) ↦ absurd (ground arith)
          | inl ((n, rows, last), advanced) ↦ record {
            latest = latest;
            rows = rows;
            collected = collected;
            advanced = ground arith;
          }
        ]
  ]

  -- After a projection the watermark of every active feed has reached the period end of each of its
  -- AVAILABLE manifests, and no feed's watermark has moved backwards.
  pub projection-reaches_manifests :
      (c : Catalog) (observed : ℕ) (r : R) (p : Projection) (r' : R) (before : List ManifestRow)
      (m : ManifestRow) (after : List ManifestRow) (t : ℕ)
      → advance_available_manifest_watermarks repo c observed r ≡ ok (p, r')
      → c.manifests ≡ before ++ m ∷ after
      → IsEligible (active_feed_ids c) m
      → m.period_end ≡ some (aware t)
      → AtLeast
          (stored_position repo r' m.feed_id)
          (some (record { source_event_at = t; sequence = none }))
        × ((g : String) → AtLeast (stored_position repo r' g) (stored_position repo r g))
  projection-reaches_manifests c observed r p r' before m after t h split eligible ends =
      let ps = parts c observed r p r' h in
      let (candidate, found, late) =
        latest_from-Reaches (active_feed_ids c) [] before m after ps.latest t
          (rw (← split) ps.collected) eligible ends in
      (
        AtLeast-trans (stored_position repo r' m.feed_id) (some (candidate_position candidate))
            (some (record { source_event_at = t; sequence = none }))
            (advance_feeds-reaches repo observed ps.latest (sorted text_lt (keys ps.latest)) r
              m.feed_id candidate ps.advanced
              (rw (
                contains-sorted text_lt (keys ps.latest) m.feed_id,
                contains-keys ps.latest m.feed_id,
                found,
              ))
              found)
            (ground arith),
        λ g.
            advance_feeds-never_regresses repo observed ps.latest (sorted text_lt (keys ps.latest))
              r g ps.advanced,
      )

  -- A feed that is not active keeps its watermark as it is.
  pub projection-leaves_inactive :
      (c : Catalog) (observed : ℕ) (r : R) (p : Projection) (r' : R) (g : String)
      → advance_available_manifest_watermarks repo c observed r ≡ ok (p, r')
      → contains (active_feed_ids c) g ≡ false
      → load r' g ≡ load r g
  projection-leaves_inactive c observed r p r' g h inactive =
      let ps = parts c observed r p r' h in
      advance_feeds-others repo observed ps.latest (sorted text_lt (keys ps.latest)) r g ps.advanced
        (λ in_keys. false≢true (
          sym inactive
          ∙ latest_from-AllActive (active_feed_ids c) [] c.manifests ps.latest ps.collected
              (λ f e. cc) g
              (sym (contains-keys ps.latest g)
                ∙ sym (contains-sorted text_lt (keys ps.latest) g)
                ∙ in_keys)))

  -- Running the projection again on the same catalog goes through, advances no feed and changes no
  -- watermark, whenever it is run.
  pub projection-idempotent :
      (c : Catalog) (observed again : ℕ) (r : R) (p : Projection) (r' : R)
      → advance_available_manifest_watermarks repo c observed r ≡ ok (p, r')
      → (p' : Projection) × (r'' : R) × (advance_available_manifest_watermarks repo c again r'
          ≡ ok (p', r''))
        × (p'.advanced_feed_count ≡ 0)
        × ((g : String) → load r'' g ≡ load r' g)
  unfolding advance_available_manifest_watermarks
  projection-idempotent c observed again r p r' h =
      let ps = parts c observed r p r' h in
      let fs = sorted text_lt (keys ps.latest) in
      let (n, rows, r'', went) =
        advance_feeds-again repo observed again ps.latest fs r r' ps.advanced in
      let (none_advanced, same) =
        advance_feeds-settled repo again ps.latest fs r' went (λ g candidate in_fs found.
          advance_feeds-reaches repo observed ps.latest fs r g candidate ps.advanced in_fs found) in
      (
        record {
          active_feed_count = p.active_feed_count;
          advanced_feed_count = n;
          watermarks = rows;
        },
        r'',
        ground (arith, ps.collected, went),
        none_advanced,
        same,
      )
