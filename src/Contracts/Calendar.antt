-- ===== src/Contracts/Calendar.antt =====
-- Python's `datetime.date`: the proleptic Gregorian calendar, its ordinals and its day arithmetic.
use idea2strategy_data_pipel.Prelude.{
  ℕ, zero, suc, ◌+◌, ◌-◌, ◌*◌, ◌/◌, ◌%◌, ◌≤◌, ◌<◌, ◌≡◌, refl, Bool, true, not, ◌&&◌, ◌||◌, arith,
  ltb, ◌==◌, if◌then◌else◌, ◌↔◌,
}
use idea2strategy_data_pipel.Prelude.Eq.{Eq}

pub record Date : Type 0 where
  pub year : ℕ
  pub month : ℕ
  pub day : ℕ

abbrev pub is_leap : ℕ → Bool
is_leap y = (y % 4 == 0) && (not (y % 100 == 0) || (y % 400 == 0))

unfoldable pub days_in_month : ℕ → ℕ → ℕ
days_in_month y m =
    if m == 2
    then (if is_leap y then 29 else 28)
    else if (m == 11) || (m == 9) || (m == 6) || (m == 4)
    then 30
    else 31

-- The days of the year before the first of a month.
unfoldable pub days_before_month : ℕ → ℕ → ℕ
unfolding days_in_month
days_before_month y zero = 0
days_before_month y (suc zero) = 0
days_before_month y (suc (suc m)) = days_before_month y (suc m) + days_in_month y (suc m)

unfoldable pub days_before_year : ℕ → ℕ
days_before_year y = (y - 1) * 365 + (y - 1) / 4 - (y - 1) / 100 + (y - 1) / 400

-- `date.toordinal()`.
unfoldable pub ordinal : Date → ℕ
ordinal d = days_before_year d.year + days_before_month d.year d.month + d.day

pub record IsDate (d : Date) : Type 0 where
  pub year_from : 1 ≤ d.year
  pub month_from : 1 ≤ d.month
  pub month_to : d.month ≤ 12
  pub day_from : 1 ≤ d.day
  pub day_to : d.day ≤ days_in_month d.year d.month

-- `date + timedelta(days=1)` and `date - timedelta(days=1)`.
unfoldable pub next_day : Date → Date
next_day d =
    if ltb d.day (days_in_month d.year d.month)
    then record d { day = d.day + 1 }
    else if d.month == 12
    then record { year = d.year + 1; month = 1; day = 1 }
    else record d { month = d.month + 1; day = 1 }

unfoldable pub previous_day : Date → Date
previous_day d =
    if ltb 1 d.day
    then record d { day = d.day - 1 }
    else if d.month == 1
    then record { year = d.year - 1; month = 12; day = 31 }
    else record d { month = d.month - 1; day = days_in_month d.year (d.month - 1) }

unfoldable pub add_days : ℕ → Date → Date
add_days zero d = d
add_days (suc n) d = next_day (add_days n d)

unfoldable pub subtract_days : ℕ → Date → Date
subtract_days zero d = d
subtract_days (suc n) d = previous_day (subtract_days n d)

-- `date.weekday()`: Monday is 0.
unfoldable pub weekday : Date → ℕ
weekday d = (ordinal d + 6) % 7

pub days_before_year-suc :
    (y : ℕ)
    → 1 ≤ y
    → days_before_year (y + 1) ≡ days_before_year y + (if is_leap y then 366 else 365)
unfolding days_before_year
days_before_year-suc y h = ground arith

pub days_before_month-suc :
    (y m : ℕ) → 1 ≤ m → days_before_month y (m + 1) ≡ days_before_month y m + days_in_month y m
unfolding days_before_month
days_before_month-suc y zero h = absurd (omega arith)
days_before_month-suc y (suc m) h = ground arith

pub year_length :
    (y : ℕ) → days_before_month y 12 + days_in_month y 12 ≡ (if is_leap y then 366 else 365)
unfolding days_before_month
year_length y = ground arith

first_year : days_before_year 1 ≡ 0
unfolding days_before_year
first_year = refl

pub days_in_month-pos : (y m : ℕ) → 28 ≤ days_in_month y m
unfolding days_in_month
days_in_month-pos y m = ground arith

pub days_before_month-one : (y : ℕ) → days_before_month y 1 ≡ 0
unfolding days_before_month
days_before_month-one y = refl

december : (y : ℕ) → days_in_month y 12 ≡ 31
unfolding days_in_month
december y = refl

-- The next day is a date, and its ordinal is one more.
pub next_day_lem :
    (d : Date) → IsDate d → IsDate (next_day d) × (ordinal (next_day d) ≡ ordinal d + 1)
unfolding next_day ordinal
next_day_lem d v = ground (
  arith,
  days_before_year-suc d.year,
  days_before_month-suc d.year d.month,
  year_length d.year,
  days_in_month-pos d.year (d.month + 1),
  days_in_month-pos (d.year + 1) 1,
  days_before_month-one (d.year + 1),
)

-- The previous day of any but the first of January of year 1 is a date, one ordinal down.
pub previous_day_lem :
    (d : Date)
    → IsDate d
    → 1 < ordinal d
    → IsDate (previous_day d) × (ordinal (previous_day d) + 1 ≡ ordinal d)
unfolding previous_day ordinal
previous_day_lem d v h = ground (
  arith,
  days_before_year-suc (d.year - 1),
  days_before_month-suc d.year (d.month - 1),
  year_length (d.year - 1),
  december (d.year - 1),
  days_in_month-pos d.year (d.month - 1),
  days_before_month-one d.year,
  first_year,
)

pub add_days_lem :
    (n : ℕ) (d : Date) → IsDate d → IsDate (add_days n d) × (ordinal (add_days n d) ≡ ordinal d + n)
unfolding add_days
add_days_lem zero d v = (v, omega arith)
add_days_lem (suc n) d v =
    let (valid, e) = add_days_lem n d v in
    let (valid', e') = next_day_lem (add_days n d) valid in (valid', omega (arith, e, e'))

pub subtract_days_lem :
    (n : ℕ) (d : Date)
    → IsDate d
    → n < ordinal d
    → IsDate (subtract_days n d) × (ordinal (subtract_days n d) + n ≡ ordinal d)
unfolding subtract_days
subtract_days_lem zero d v h = (v, omega arith)
subtract_days_lem (suc n) d v h =
    let (valid, e) = subtract_days_lem n d v (omega arith) in
    let (valid', e') = previous_day_lem (subtract_days n d) valid (omega arith) in
    (valid', omega (arith, e, e'))

-- Python's order on dates.
abbrev pub date_lt : Date → Date → Bool
date_lt d e =
    ltb d.year e.year
    || ((d.year == e.year) && (ltb d.month e.month || ((d.month == e.month) && ltb d.day e.day)))

pub date_beq_iff :
    (d e : Date)
    → (((d.year == e.year) && (d.month == e.month) && (d.day == e.day)) ≡ true) ↔ (d ≡ e)
date_beq_iff d e = ground arith

instance abbrev pub date_eq : Eq Date
date_eq = record {
  beq = λ d e. (d.year == e.year) && (d.month == e.month) && (d.day == e.day);
  beq_iff = date_beq_iff;
}
