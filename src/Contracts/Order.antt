-- ===== src/Contracts/Order.antt =====
-- The order of dates: fields first, and by ordinal.
use idea2strategy_data_pipel.Prelude.{ℕ, zero, suc, ◌+◌, ◌-◌, ◌≤◌, ◌<◌, ◌≡◌, refl, arith}
use native.Mathlib.Decide.{dec_lt}
use idea2strategy_data_pipel.Contracts.Calendar.{
  Date, days_before_month, days_before_year, ordinal, IsDate, days_before_year-suc,
  days_before_month-suc, year_length,
}

days_before_year_mono : (y z : ℕ) → 1 ≤ y → y ≤ z → days_before_year y ≤ days_before_year z
unfolding days_before_year
days_before_year_mono y z h k = omega arith

days_before_month_mono :
    (y m k n : ℕ) → 1 ≤ m → n ≡ m + k → days_before_month y m ≤ days_before_month y n
days_before_month_mono y m zero n h e = ground arith
days_before_month_mono y m (suc k) n h e =
    ground (arith, days_before_month_mono y m k (m + k) h refl, days_before_month-suc y (m + k))

-- A later month of the same year begins after every day of the month.
pub month_end-le :
    (d : Date) (m : ℕ)
    → IsDate d
    → d.month < m
    → ordinal d < days_before_year d.year + days_before_month d.year m + 1
unfolding ordinal
month_end-le d m v h = omega (
  arith,
  days_before_month-suc d.year d.month v.month_from,
  days_before_month_mono d.year (d.month + 1) (m - (d.month + 1)) m (omega arith) (omega arith),
)

-- So does a later year.
pub year_end-le : (d : Date) (y : ℕ) → IsDate d → d.year < y → ordinal d < days_before_year y + 1
unfolding ordinal
year_end-le d y v h = omega (
  arith,
  days_before_month-suc d.year d.month v.month_from,
  days_before_month-suc d.year 12 (omega arith),
  days_before_month_mono d.year (d.month + 1) (13 - (d.month + 1)) 13 (omega arith) (omega arith),
  year_length d.year,
  days_before_year-suc d.year v.year_from,
  days_before_year_mono (d.year + 1) y (omega arith) (omega arith),
)

-- The part of an ordinal within the year is positive.
below_in_month : (d : Date) → IsDate d → days_before_year d.year + 1 ≤ ordinal d
unfolding ordinal
below_in_month d v = omega arith

same_year : (d e : Date) → IsDate d → IsDate e → d.year ≡ e.year → ordinal d ≡ ordinal e → d ≡ e
unfolding ordinal
same_year d e v w y same = elim (dec_lt d.month e.month) [
  | yes before ↦ absurd (ground (arith, month_end-le d e.month v before))
  | no not_before ↦ elim (dec_lt e.month d.month) [
    | yes after ↦ absurd (ground (arith, month_end-le e d.month w after))
    | no not_after ↦ let m : d.month ≡ e.month = omega arith in ground arith
  ]
]

-- Two dates with one ordinal are one date.
pub ordinal_injective : (d e : Date) → IsDate d → IsDate e → ordinal d ≡ ordinal e → d ≡ e
unfolding ordinal
ordinal_injective d e v w same = elim (dec_lt d.year e.year) [
  | yes before ↦ absurd (omega (arith, year_end-le d e.year v before, below_in_month e w))
  | no not_before ↦ elim (dec_lt e.year d.year) [
    | yes after ↦ absurd (omega (arith, year_end-le e d.year w after, below_in_month d v))
    | no not_after ↦ same_year d e v w (omega arith) same
  ]
]

-- A date of a year or a later one is not before the first of January.
pub from_year :
    (d : Date) (y : ℕ) → IsDate d → 1 ≤ y → y ≤ d.year → days_before_year y + 1 ≤ ordinal d
from_year d y v h k = omega (arith, days_before_year_mono y d.year h k, below_in_month d v)

pub from_month :
    (d : Date) (m : ℕ)
    → IsDate d
    → 1 ≤ m
    → m ≤ d.month
    → days_before_year d.year + days_before_month d.year m + 1 ≤ ordinal d
unfolding ordinal
from_month d m v h k =
    omega (arith, days_before_month_mono d.year m (d.month - m) d.month h (omega arith), v.day_from)
