-- ===== src/Watermarks/Monotone.antt =====
-- What the contract of the repository port of market_pipeline_lib/watermarks.py gives for the stored positions.
use idea2strategy_data_pipel.Prelude.{
  String, inl, inr, Option, none, some, arith, Bool-cases, subst, sym, ◌∙◌,
}
use mathlib.Core.Bool.{false≢true}
use idea2strategy_data_pipel.Prelude.Eq.{string_eq}
use idea2strategy_data_pipel.Watermarks.Position.{le, le_refl}
use idea2strategy_data_pipel.Watermarks.Row.{StreamWatermark}
use idea2strategy_data_pipel.Watermarks.Repository.{WatermarkRepository, keep_newer}
use idea2strategy_data_pipel.Watermarks.Ledger.{position_of, stored_position}
use idea2strategy_data_pipel.Watermarks.Heads.{AtLeast, AtLeast-refl}

module _ {R : Type 0} (repo : WatermarkRepository R) where
  open repo use {load, advance, advance_returns, load-advance, load-advance_ne}

  advance-keeps :
      (r : R) (w : StreamWatermark)
      → AtLeast (stored_position repo (advance r w).1 w.feed_id) (stored_position repo r w.feed_id)
  advance-keeps r w = rw (load-advance r w, advance_returns r w) (go (load r w.feed_id))
    where
      go : (o : Option StreamWatermark) → AtLeast (some (keep_newer o w).position) (position_of o)
      go none = tt
      go (some s) = elim (Bool-cases (le w.position s.position)) [
        | inl older ↦ ground (arith, le_refl s.position)
        | inr newer ↦ ground arith
      ]

  advance-reaches :
      (r : R) (w : StreamWatermark)
      → AtLeast (stored_position repo (advance r w).1 w.feed_id) (some w.position)
  advance-reaches r w = rw (load-advance r w, advance_returns r w) (go (load r w.feed_id))
    where
      go : (o : Option StreamWatermark) → AtLeast (some (keep_newer o w).position) (some w.position)
      go none = le_refl w.position
      go (some s) = ground (arith, le_refl w.position)

  -- A write never moves the stored position of any feed backwards, and the feed that was written
  -- ends at the written position or a newer one.
  pub advance-never_regresses :
      (r : R) (w : StreamWatermark) (f : String)
      → AtLeast (stored_position repo (advance r w).1 f) (stored_position repo r f)
        × AtLeast (stored_position repo (advance r w).1 w.feed_id) (some w.position)
  advance-never_regresses r w f = (
    elim (Bool-cases (string_eq.beq w.feed_id f)) [
      | inl same ↦
          subst (λ g. AtLeast (stored_position repo (advance r w).1 g) (stored_position repo r g))
            ((string_eq.beq_iff w.feed_id f).0 same) (advance-keeps r w)
      | inr other ↦
          rw
            (load-advance_ne r w f
              (λ e. false≢true (sym other ∙ (string_eq.beq_iff w.feed_id f).1 e)))
            (AtLeast-refl (stored_position repo r f))
    ],
    advance-reaches r w,
  )
