-- ===== src/Prelude/Among.antt =====
-- Membership in a list.
use mathlib.Core.Path.{◌≡◌, ap}
use mathlib.Core.Logic.{◌⊎◌, inl, inr}
use mathlib.Core.Bool.{Bool, true}
use mathlib.Core.List.{List, [], ◌∷◌}
use native.Mathlib.Omega.{arith}
use idea2strategy_data_pipel.Prelude.Tests.{Bool-cases}
use idea2strategy_data_pipel.Prelude.Lists.{filter}

-- The element stands in the list.
abbrev pub Among : {A : Type 0} → A → List A → Type 0
Among a [] = ⊥
Among a (x ∷ xs) = (x ≡ a) ⊎ Among a xs

module _ {A : Type 0} (p : A → Bool) where
  pub filter-Among : (a : A) (xs : List A) → Among a (filter p xs) → Among a xs × (p a ≡ true)
  filter-Among a [] h = absurd h
  filter-Among a (x ∷ xs) h = elim (Bool-cases (p x)) [
    | inr drops ↦ let (there, passes) = filter-Among a xs (rw drops at h) in (inr there, passes)
    | inl keeps ↦ elim (rw keeps at h) [
      | inl same ↦ (inl same, rw (← same) keeps)
      | inr later ↦ let (there, passes) = filter-Among a xs later in (inr there, passes)
    ]
  ]

  pub Among-filter : (a : A) (xs : List A) → Among a xs → p a ≡ true → Among a (filter p xs)
  Among-filter a [] h ok_a = absurd h
  Among-filter a (x ∷ xs) h ok_a = elim (Bool-cases (p x)) [
    | inl keeps ↦ elim h [
      | inl same ↦ rw keeps (inl same)
      | inr later ↦ rw keeps (inr (Among-filter a xs later ok_a))
    ]
    | inr drops ↦ elim h [
      | inl same ↦ absurd (ground (arith, ap p same))
      | inr later ↦ rw drops (Among-filter a xs later ok_a)
    ]
  ]
