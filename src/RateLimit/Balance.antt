-- ===== src/RateLimit/Balance.antt =====
-- Integers under addition and subtraction of natural numbers, by the difference of two numbers.
use idea2strategy_data_pipel.Prelude.{
  ℕ, ◌+◌, ◌-◌, ◌≡◌, refl, arith, leb, if◌then◌else◌, inl, inr, ◌⊎◌,
}
use idea2strategy_data_pipel.Prelude.Int.{ℤ, pos, negsuc, pos_part, neg_part, leb_ℤ}

-- `a - b`.
unfoldable pub diff : ℕ → ℕ → ℤ
diff a b = if leb b a then pos (a - b) else negsuc (b - a - 1)

abbrev pub plus : ℤ → ℕ → ℤ
plus z n = diff (pos_part z + n) (neg_part z)

abbrev pub minus : ℤ → ℕ → ℤ
minus z n = diff (pos_part z) (neg_part z + n)

abbrev pub min_ℤ : ℤ → ℤ → ℤ
min_ℤ a b = if leb_ℤ a b then a else b

pub diff-value : (a b : ℕ) → pos_part (diff a b) + b ≡ a + neg_part (diff a b)
unfolding diff
diff-value a b = ground arith

-- One of the two parts is 0.
pub one_part : (z : ℤ) → (pos_part z ≡ 0) ⊎ (neg_part z ≡ 0)
one_part (pos n) = inr refl
one_part (negsuc n) = inl refl
