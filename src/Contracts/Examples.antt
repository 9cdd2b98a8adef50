-- ===== src/Contracts/Examples.antt =====
-- Concrete partitions and shards of market_pipeline_lib/contracts.py.
use idea2strategy_data_pipel.Prelude.{◌≡◌, refl}
use idea2strategy_data_pipel.Contracts.Calendar.{
  Date, ordinal, days_in_month, days_before_month, days_before_year, next_day, previous_day,
  add_days, subtract_days, weekday,
}
use idea2strategy_data_pipel.Contracts.Partition.{week, partition_bounds}

abbrev new_year : Date
new_year = record { year = 2025; month = 1; day = 1 }

abbrev year_end : Date
year_end = record { year = 2024; month = 12; day = 31 }

-- The ISO week of the turn of the year starts on Monday, 30 December.
week_test :
    partition_bounds new_year week
    ≡ (record { year = 2024; month = 12; day = 30 }, record { year = 2025; month = 1; day = 6 })
unfolding partition_bounds weekday ordinal days_in_month days_before_month days_before_year next_day
    previous_day add_days subtract_days
week_test = refl
