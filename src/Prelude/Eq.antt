-- ===== src/Prelude/Eq.antt =====
-- Python's `==` on the values that serve as keys.
use Prim.Native.Nat.{ℕ}
use Prim.Native.String.{String}
use text.Mathlib.Text.{◌==◌ as str_eq}
use text.Mathlib.TextEquality.{eq_iff}
use mathlib.Core.Path.{◌≡◌, refl, ap}
use mathlib.Core.Logic.{◌↔◌, ◌≢◌}
use mathlib.Core.Bool.{Bool, true, false, ◌&&◌, ◌||◌}
use mathlib.Core.List.{List, [], ◌∷◌}
use native.Mathlib.Omega.{arith}
use idea2strategy_data_pipel.Prelude.Tests.{if◌then◌else◌, ◌==◌ as nat_beq, ==_iff, &&-true}

pub record Eq {ℓ} (A : Type ℓ) : Type ℓ where
  pub beq : A → A → Bool
  pub beq_iff : (x y : A) → (beq x y ≡ true) ↔ (x ≡ y)

instance abbrev pub string_eq : Eq String
string_eq = record { beq_iff = eq_iff; beq = str_eq }

module _ {ℓ κ} {A : Type ℓ} {B : Type κ} ⦃a : Eq A⦄ ⦃b : Eq B⦄ where
  pub pair_beq_iff : (x y : A × B) → ((a.beq x.0 y.0 && b.beq x.1 y.1) ≡ true) ↔ (x ≡ y)
  pair_beq_iff x y = (
    λ h.
        let (p, q) = &&-true (a.beq x.0 y.0) (b.beq x.1 y.1) h in
        λ i. ((a.beq_iff x.0 y.0).0 p i, (b.beq_iff x.1 y.1).0 q i),
    λ e. rw (
      (a.beq_iff x.0 y.0).1 (ap (λ (t : A × B). t.0) e),
      (b.beq_iff x.1 y.1).1 (ap (λ (t : A × B). t.1) e),
    ),
  )

  instance abbrev pub pair_eq : Eq (A × B)
  pair_eq = record { beq = λ x y. a.beq x.0 y.0 && b.beq x.1 y.1; beq_iff = pair_beq_iff }

instance abbrev pub nat_eq : Eq ℕ
nat_eq = record { beq_iff = ==_iff; beq = nat_beq }

infix 50 ◌==◌
abbrev pub ◌==◌ {ℓ} : {K : Type ℓ} ⦃eq : Eq K⦄ → K → K → Bool
◌==◌ ⦃eq⦄ = eq.beq

module _ {ℓ} {A : Type ℓ} ⦃e : Eq A⦄ where
  pub beq_refl : (a : A) → e.beq a a ≡ true
  beq_refl a = (e.beq_iff a a).1 refl

  pub beq_ne : (a b : A) → a ≢ b → e.beq a b ≡ false
  beq_ne a b h = ground (arith, e.beq_iff a b)

  -- `a in xs`
  abbrev pub contains : List A → A → Bool
  contains [] a = false
  contains (x ∷ xs) a = e.beq x a || contains xs a

  -- `set(xs)`, in the order of first occurrence from the right.
  abbrev pub distinct : List A → List A
  distinct [] = []
  distinct (x ∷ xs) = let rest = distinct xs in if contains rest x then rest else x ∷ rest
