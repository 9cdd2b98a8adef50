-- ===== src/Prelude/Decimal.antt =====
-- Decimal numerals can be read back.
use Prim.Native.Nat.{ℕ, zero, suc, ◌+◌, ◌*◌, ◌-◌, ◌/◌, ◌%◌, ◌<◌}
use Prim.Native.Char.{code}
use Prim.Native.String.{String}
use mathlib.Core.Path.{◌≡◌, refl, sym, ◌∙◌, ap}
use mathlib.Core.Logic.{inl, inr}
use native.Mathlib.Omega.{arith}
use idea2strategy_data_pipel.Prelude.Tests.{◌==◌, Bool-cases}
use idea2strategy_data_pipel.Prelude.Text.{digit, digits_from, decimal}

-- The number that a numeral stands for, behind the digits already read.
abbrev number : ℕ → String → ℕ
number read String.[] = read
number read (String.◌∷◌ c s) = number (read * 10 + (code c - 48)) s

digit-code : (n : ℕ) → n < 10 → code (digit n) - 48 ≡ n
digit-code zero small = refl
digit-code (suc zero) small = refl
digit-code (suc (suc zero)) small = refl
digit-code (suc (suc (suc zero))) small = refl
digit-code (suc (suc (suc (suc zero)))) small = refl
digit-code (suc (suc (suc (suc (suc zero))))) small = refl
digit-code (suc (suc (suc (suc (suc (suc zero)))))) small = refl
digit-code (suc (suc (suc (suc (suc (suc (suc zero))))))) small = refl
digit-code (suc (suc (suc (suc (suc (suc (suc (suc zero)))))))) small = refl
digit-code (suc (suc (suc (suc (suc (suc (suc (suc (suc zero))))))))) small = refl
digit-code (suc (suc (suc (suc (suc (suc (suc (suc (suc (suc n)))))))))) small =
    absurd omega (arith, small)

number-digits_from :
    (fuel n : ℕ) (acc : String) → n < fuel → number 0 (digits_from fuel n acc) ≡ number n acc
unfolding digits_from
number-digits_from zero n acc enough = absurd omega (arith, enough)
number-digits_from (suc fuel) n acc enough = elim (Bool-cases (n / 10 == 0)) [
  | inl last ↦ rw last ground (arith, digit-code (n % 10))
  | inr more ↦
      let back : number (n / 10) (String.◌∷◌ (digit (n % 10)) acc) ≡ number n acc =
        ap (λ x. number x acc) (ground (arith, digit-code (n % 10))) in
      let rest =
        number-digits_from fuel (n / 10) (String.◌∷◌ (digit (n % 10)) acc) (ground (arith, more)) in
      rw (digits_from, more) (rest ∙ back)
]

number-decimal : (n : ℕ) → number 0 (decimal n) ≡ n
unfolding decimal
number-decimal n = number-digits_from (suc n) n String.[] (omega arith)

pub decimal-injective : (m n : ℕ) → decimal m ≡ decimal n → m ≡ n
decimal-injective m n h = sym (number-decimal m) ∙ ap (number 0) h ∙ number-decimal n
