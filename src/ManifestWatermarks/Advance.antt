-- ===== src/ManifestWatermarks/Advance.antt =====
-- The loop of `advance_available_manifest_watermarks` over the feeds.
use idea2strategy_data_pipel.Prelude.{
  ℕ, suc, String, ◌≡◌, refl, sym, subst, ◌∙◌, ap, inl, inr, true, false, some, List, [], ◌∷◌, arith,
  if◌then◌else◌, Bool-cases, Option-cases,
}
use mathlib.Core.Path.{subst₂}
use idea2strategy_data_pipel.Prelude.Eq.{string_eq, contains, beq_refl}
use idea2strategy_data_pipel.Prelude.Dict.{Dict, lookup}
use idea2strategy_data_pipel.Prelude.Result.{ok, Result-cases}
use idea2strategy_data_pipel.Watermarks.Position.{aware, StreamPosition, le, not_lt_of_le, le_refl}
use idea2strategy_data_pipel.Watermarks.Row.{StreamWatermark, stream_watermark}
use idea2strategy_data_pipel.Watermarks.Repository.{WatermarkRepository}
use idea2strategy_data_pipel.Watermarks.Ledger.{stored_position, position_of}
use idea2strategy_data_pipel.Watermarks.Heads.{AtLeast, AtLeast-refl, AtLeast-trans}
use idea2strategy_data_pipel.Watermarks.Monotone.{advance-never_regresses}
use idea2strategy_data_pipel.ManifestWatermarks.{
  Candidate, Projected, candidate_position, has_advanced, advance_feeds,
}

made_watermark :
    (f : String) (p : StreamPosition) (i u : ℕ) (w : StreamWatermark)
    → stream_watermark f p (aware i) (some (aware u)) ≡ ok w
    → (w.feed_id ≡ f) × (w.position ≡ p)
unfolding stream_watermark
made_watermark f p i u w h = ground arith

module _ {R : Type 0} (repo : WatermarkRepository R) (observed : ℕ)
    (latest : Dict String Candidate) where
  open repo use {load, advance, advance_returns, load-advance, load-advance_ne}

  -- One round of the loop that went through.
  record Round (f : String) (rest : List String) (r : R) (n : ℕ) (last : R) : Type 0 where
    candidate : Candidate
    w : StreamWatermark
    later : ℕ
    later_rows : List Projected
    found : lookup f latest ≡ some candidate
    made :
        stream_watermark f
          (candidate_position candidate)
          (aware candidate.available_at)
          (some (aware observed))
        ≡ ok w
    feed : w.feed_id ≡ f
    position : w.position ≡ candidate_position candidate
    goes_on : advance_feeds repo observed latest rest (advance r w).1 ≡ ok (later, later_rows, last)
    counted : n ≡ (if has_advanced (load r f) (advance r w).0 then suc later else later)

  round :
      (f : String) (rest : List String) (r : R) {n : ℕ} {rows : List Projected} {last : R}
      → advance_feeds repo observed latest (f ∷ rest) r ≡ ok (n, rows, last)
      → Round f rest r n last
  unfolding advance_feeds
  round f rest r h = elim (Option-cases (lookup f latest)) [
    | inl missing ↦ absurd (ground arith)
    | inr (c, found) ↦
        elim (Result-cases (
          stream_watermark f (candidate_position c) (aware c.available_at)
            (some (aware observed)))) [
              | inr (e, refused) ↦ absurd (ground arith)
              | inl (w, made) ↦
                  elim (Result-cases (advance_feeds repo observed latest rest (advance r w).1)) [
                    | inr (e, raised) ↦ absurd (ground arith)
                    | inl ((m, rows', end), went_on) ↦ record {
                      candidate = c;
                      w = w;
                      later = m;
                      later_rows = rows';
                      found = found;
                      made = made;
                      feed =
                          (made_watermark f (candidate_position c) c.available_at observed w
                            made).0;
                      position =
                          (made_watermark f (candidate_position c) c.available_at observed w
                            made).1;
                      goes_on = ground arith;
                      counted = ground arith;
                    }
                  ]
            ]
  ]

  -- The loop moves no stored position backwards.
  pub advance_feeds-never_regresses :
      (fs : List String) (r : R) {n : ℕ} {rows : List Projected} {last : R} (g : String)
      → advance_feeds repo observed latest fs r ≡ ok (n, rows, last)
      → AtLeast (stored_position repo last g) (stored_position repo r g)
  unfolding advance_feeds
  advance_feeds-never_regresses [] r {last = last} g h =
      subst (λ s. AtLeast (stored_position repo s g) (stored_position repo r g)) (ground arith)
        (AtLeast-refl (stored_position repo r g))
  advance_feeds-never_regresses (f ∷ rest) r {last = last} g h =
      let once = round f rest r h in
      AtLeast-trans (stored_position repo last g) (stored_position repo (advance r once.w).1 g)
        (stored_position repo r g)
        (advance_feeds-never_regresses rest (advance r once.w).1 g once.goes_on)
        (advance-never_regresses repo r once.w g).0

  -- A feed of the loop ends at its candidate's position or a newer one.
  pub advance_feeds-reaches :
      (fs : List String) (r : R) {n : ℕ} {rows : List Projected} {last : R} (g : String)
      (c : Candidate)
      → advance_feeds repo observed latest fs r ≡ ok (n, rows, last)
      → contains fs g ≡ true
      → lookup g latest ≡ some c
      → AtLeast (stored_position repo last g) (some (candidate_position c))
  advance_feeds-reaches [] r g c h in_fs found = cc
  advance_feeds-reaches (f ∷ rest) r {last = last} g c h in_fs found =
      let once = round f rest r h in
      elim (Bool-cases (string_eq.beq f g)) [
        | inr other ↦
            advance_feeds-reaches rest (advance r once.w).1 g c once.goes_on (ground arith) found
        | inl same ↦
            let f_is_g : f ≡ g = (string_eq.beq_iff f g).0 same in
            let candidate_is_c : once.candidate ≡ c = cc (once.found, f_is_g) in
            AtLeast-trans (stored_position repo last g)
              (stored_position repo (advance r once.w).1 g) (some (candidate_position c))
              (advance_feeds-never_regresses rest (advance r once.w).1 g once.goes_on)
              (subst₂ (λ k p. AtLeast (stored_position repo (advance r once.w).1 k) (some p))
                (once.feed ∙ f_is_g) (once.position ∙ ap candidate_position candidate_is_c)
                (advance-never_regresses repo r once.w g).1)
      ]

  -- A write that is not newer than what is stored changes nothing that can be loaded, and the loop
  -- does not count it.
  not_newer :
      (r : R) (w : StreamWatermark)
      → AtLeast (stored_position repo r w.feed_id) (some w.position)
      → (has_advanced (load r w.feed_id) (advance r w).0 ≡ false)
        × ((g : String) → load (advance r w).1 g ≡ load r g)
  not_newer r w h = elim (Option-cases (load r w.feed_id)) [
    | inl never ↦ absurd (subst (λ o. AtLeast (position_of o) (some w.position)) never h)
    | inr (s, e) ↦
        let newer : le w.position s.position ≡ true =
          subst (λ o. AtLeast (position_of o) (some w.position)) e h in
        let kept : (advance r w).0 ≡ s = ground (arith, advance_returns r w) in
        (
          rw (e, kept) (not_lt_of_le s.position s.position (le_refl s.position)),
          λ g. elim (Bool-cases (string_eq.beq w.feed_id g)) [
            | inl same ↦
                rw (← (string_eq.beq_iff w.feed_id g).0 same)
                  (load-advance r w ∙ ap some kept ∙ sym e)
            | inr other ↦
                load-advance_ne r w g (λ same. cc (other, (string_eq.beq_iff w.feed_id g).1 same))
          ],
        )
  ]

  -- Where every feed of the loop is stored at its candidate's position or a newer one, the loop
  -- counts no feed and changes nothing that can be loaded.
  pub advance_feeds-settled :
      (fs : List String) (r : R) {n : ℕ} {rows : List Projected} {last : R}
      → advance_feeds repo observed latest fs r ≡ ok (n, rows, last)
      → ((g : String) (c : Candidate)
          → contains fs g ≡ true
          → lookup g latest ≡ some c
          → AtLeast (stored_position repo r g) (some (candidate_position c)))
      → (n ≡ 0) × ((g : String) → load last g ≡ load r g)
  unfolding advance_feeds
  advance_feeds-settled [] r h settled =
      (ground arith, λ g. ap (λ (s : R). load s g) (ground arith))
  advance_feeds-settled (f ∷ rest) r {last = last} h settled =
      let once = round f rest r h in
      let r' = (advance r once.w).1 in
      let (uncounted, same) = not_newer r once.w (
        subst₂ (λ k p. AtLeast (stored_position repo r k) (some p)) (sym once.feed)
          (sym once.position) (settled f once.candidate (ground (arith, beq_refl f)) once.found)) in
      let (none_later, same_later) =
        advance_feeds-settled rest r' once.goes_on (λ g c in_rest found.
          subst (λ o. AtLeast (position_of o) (some (candidate_position c))) (sym (same g))
            (settled g c (ground arith) found)) in
      let quiet : has_advanced (load r f) (advance r once.w).0 ≡ false =
        subst (λ k. has_advanced (load r k) (advance r once.w).0 ≡ false) once.feed uncounted in
      (once.counted ∙ rw quiet none_later, λ g. same_later g ∙ same g)

  -- A feed that the loop does not name keeps its watermark.
  pub advance_feeds-others :
      (fs : List String) (r : R) {n : ℕ} {rows : List Projected} {last : R} (g : String)
      → advance_feeds repo observed latest fs r ≡ ok (n, rows, last)
      → ¬ (contains fs g ≡ true)
      → load last g ≡ load r g
  unfolding advance_feeds
  advance_feeds-others [] r g h out = ap (λ (s : R). load s g) (ground arith)
  advance_feeds-others (f ∷ rest) r g h out =
      let once = round f rest r h in
      advance_feeds-others rest (advance r once.w).1 g once.goes_on (λ e. out (ground arith))
      ∙ load-advance_ne r once.w g (λ same. out (ground (arith, once.feed, beq_refl f)))

module _ {R : Type 0} (repo : WatermarkRepository R) (observed again : ℕ)
    (latest : Dict String Candidate) where
  open repo use {load, advance}

  restamped :
      (f : String) (p : StreamPosition) (i : ℕ) (w : StreamWatermark)
      → stream_watermark f p (aware i) (some (aware observed)) ≡ ok w
      → stream_watermark f p (aware i) (some (aware again))
        ≡ ok (record w { updated_at = some again })
  unfolding stream_watermark
  restamped f p i w h = ground arith

  -- Whether the loop goes through does not depend on what is stored, nor on the time.
  pub advance_feeds-again :
      (fs : List String) (r s : R) {n : ℕ} {rows : List Projected} {last : R}
      → advance_feeds repo observed latest fs r ≡ ok (n, rows, last)
      → (n' : ℕ) × (rows' : List Projected) × (last' : R) × (advance_feeds repo again latest fs s
          ≡ ok (n', rows', last'))
  unfolding advance_feeds
  advance_feeds-again [] r s h = (0, [], s, refl)
  advance_feeds-again (f ∷ rest) r s h =
      let once = round repo observed latest f rest r h in
      let w = record once.w { updated_at = some again } in
      let (stored, s') = advance s w in
      let (n', rows', last', went) =
        advance_feeds-again rest (advance r once.w).1 s' once.goes_on in
      (
        if has_advanced (load s f) stored then suc n' else n',
        record {
          feed_id = f;
          last_source_event_at = stored.position;
          last_ingested_at = stored.ingested_at;
        }
            ∷ rows',
        last',
        rw
            (
              once.found,
              restamped f (candidate_position once.candidate) once.candidate.available_at once.w
                  once.made,
              went,
            )
            refl,
      )
