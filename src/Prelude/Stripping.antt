-- ===== src/Prelude/Stripping.antt =====
-- `str.strip` leaves no white space at the ends of a text.
use Prim.Native.Char.{code}
use Prim.Native.String.{String}
use mathlib.Core.Path.{◌≡◌, refl, ◌∙◌, ap}
use mathlib.Core.Bool.{Bool, true, not, ◌&&◌}
use mathlib.Core.Logic.{inl, inr}
use native.Mathlib.Omega.{arith}
use idea2strategy_data_pipel.Prelude.Tests.{Bool-cases}
use idea2strategy_data_pipel.Prelude.Text.{is_space, is_blank, strip_left, strip_right, strip}

-- No white space at the start of a text.
abbrev starts_bare : String → Bool
starts_bare String.[] = true
starts_bare (String.◌∷◌ c s) = not (is_space (code c))

strip_left-starts_bare : (s : String) → starts_bare (strip_left s) ≡ true
unfolding strip_left
strip_left-starts_bare String.[] = refl
strip_left-starts_bare (String.◌∷◌ c s) = ground (arith, strip_left-starts_bare s)

strip_left-bare : (s : String) → starts_bare s ≡ true → strip_left s ≡ s
unfolding strip_left
strip_left-bare String.[] h = refl
strip_left-bare (String.◌∷◌ c s) h = ground arith

strip_right-starts_bare : (s : String) → starts_bare s ≡ true → starts_bare (strip_right s) ≡ true
unfolding strip_right
strip_right-starts_bare String.[] h = refl
strip_right-starts_bare (String.◌∷◌ c s) h =
    elim (Bool-cases (is_blank (strip_right s) && is_space (code c))) [
      | inl dropped ↦ rw dropped refl
      | inr kept ↦ rw kept h
    ]

strip_right-again : (s : String) → strip_right (strip_right s) ≡ strip_right s
unfolding strip_right
strip_right-again String.[] = refl
strip_right-again (String.◌∷◌ c s) =
    elim (Bool-cases (is_blank (strip_right s) && is_space (code c))) [
      | inl dropped ↦ rw dropped refl
      | inr kept ↦ rw kept rw (strip_right, strip_right-again s, kept) refl
    ]

pub strip-again : (s : String) → strip (strip s) ≡ strip s
unfolding strip
strip-again s =
    ap strip_right (
      strip_left-bare (strip_right (strip_left s))
        (strip_right-starts_bare (strip_left s) (strip_left-starts_bare s)))
    ∙ strip_right-again (strip_left s)
