-- ===== src/Contracts/Partition.antt =====
-- `partition_bounds` of market_pipeline_lib/contracts.py. A date argument; the model has no year 9999
-- limit, where Python's `date` overflows.
use idea2strategy_data_pipel.Prelude.{◌+◌, ◌≤◌, ◌<◌, ◌≡◌, refl, ◌==◌, if◌then◌else◌}
use idea2strategy_data_pipel.Contracts.Calendar.{
  Date, ordinal, add_days, subtract_days, weekday, days_before_month, days_before_year,
}

-- `Granularity`.
pub data Granularity : Type 0 where
  day week month year : Granularity

unfoldable pub partition_bounds : Date → Granularity → Date × Date
partition_bounds current day = (current, add_days 1 current)
partition_bounds current week =
    let start = subtract_days (weekday current) current in (start, add_days 7 start)
partition_bounds current month =
    let start = record current { day = 1 } in
    (
      start,
      if start.month == 12
          then record { year = start.year + 1; month = 1; day = 1 }
          else record { year = start.year; month = start.month + 1; day = 1 },
    )
partition_bounds current year = (
  record { year = current.year; month = 1; day = 1 },
  record { year = current.year + 1; month = 1; day = 1 },
)

abbrev pub Within : Date → Date × Date → Type 0
Within d (start, end) = (ordinal start ≤ ordinal d) × (ordinal d < ordinal end)

first_of_month :
    (d : Date)
    → ordinal (record d { day = 1 })
      ≡ days_before_year d.year + days_before_month d.year d.month + 1
unfolding ordinal
first_of_month d = refl
