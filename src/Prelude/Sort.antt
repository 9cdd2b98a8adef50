-- ===== src/Prelude/Sort.antt =====
-- Python's `sorted`: stable, by a `<` on the elements or on their keys.
use Prim.Native.String.{String, compare}
use text.Mathlib.Text.{is_lt}
use mathlib.Core.Path.{◌≡◌, refl}
use mathlib.Core.Bool.{Bool, ◌||◌}
use mathlib.Core.List.{List, [], ◌∷◌}
use native.Mathlib.Omega.{arith}
use Prim.Native.Nat.{suc}
use idea2strategy_data_pipel.Prelude.Tests.{if◌then◌else◌}
use idea2strategy_data_pipel.Prelude.Lists.{length}
use idea2strategy_data_pipel.Prelude.Eq.{Eq, contains}

-- The order of texts is by code point, which is that of the UTF-8 bytes.
abbrev pub text_lt : String → String → Bool
text_lt s t = is_lt (compare s t)

module _ {ℓ} {A : Type ℓ} (lt : A → A → Bool) where
  unfoldable pub insert_sorted : A → List A → List A
  insert_sorted x [] = x ∷ []
  insert_sorted x (y ∷ ys) = if lt y x then y ∷ insert_sorted x ys else x ∷ y ∷ ys

  unfoldable pub sorted : List A → List A
  unfolding insert_sorted
  sorted [] = []
  sorted (x ∷ xs) = insert_sorted x (sorted xs)

  length-insert_sorted : (x : A) (ys : List A) → length (insert_sorted x ys) ≡ suc (length ys)
  unfolding insert_sorted
  length-insert_sorted x [] = refl
  length-insert_sorted x (y ∷ ys) = ground (arith, length-insert_sorted x ys)

  pub length-sorted : (xs : List A) → length (sorted xs) ≡ length xs
  unfolding sorted
  length-sorted [] = refl
  length-sorted (x ∷ xs) = ground (arith, length-insert_sorted x (sorted xs), length-sorted xs)

module _ {ℓ} {A : Type ℓ} ⦃e : Eq A⦄ (lt : A → A → Bool) where
  contains-insert_sorted :
      (x : A) (ys : List A) (a : A)
      → contains (insert_sorted lt x ys) a ≡ (e.beq x a || contains ys a)
  unfolding insert_sorted
  contains-insert_sorted x [] a = refl
  contains-insert_sorted x (y ∷ ys) a = ground (arith, contains-insert_sorted x ys a)

  pub contains-sorted : (xs : List A) (a : A) → contains (sorted lt xs) a ≡ contains xs a
  unfolding sorted
  contains-sorted [] a = refl
  contains-sorted (x ∷ xs) a =
      ground (arith, contains-insert_sorted x (sorted lt xs) a, contains-sorted xs a)
