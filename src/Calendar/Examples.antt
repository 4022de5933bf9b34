-- ===== src/Calendar/Examples.antt =====
-- A date in December.
use scrapeflow.Base.{◌≡◌, refl}
use scrapeflow.Calendar.{Datetime, first_of_next_month}

abbrev new_years_eve : Datetime
new_years_eve = record {
  year = 2026;
  month = 12;
  day = 31;
  hour = 23;
  minute = 59;
  second = 1;
  microsecond = 7;
}

next_year : (first_of_next_month new_years_eve).year ≡ 2027
unfolding first_of_next_month
next_year = refl
