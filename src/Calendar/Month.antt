-- ===== src/Calendar/Month.antt =====
-- The month in which a meter counts.
use scrapeflow.Base.{◌≤◌, ◌≡◌, true, false, arith}
use scrapeflow.Calendar.{Datetime, before, first_of_month, first_of_next_month}

-- A date as `datetime` admits it.
pub record IsDate (t : Datetime) : Type 0 where
  pub month_pos : 1 ≤ t.month
  pub month_le : t.month ≤ 12
  pub day_pos : 1 ≤ t.day

-- For every valid date, it lies in the month that runs from first_of_month (included) to
-- first_of_next_month (excluded), in December too.
pub first_of_month_bounds :
    (now : Datetime)
    → IsDate now
    → (before now (first_of_month now) ≡ false) × (before now (first_of_next_month now) ≡ true)
unfolding before first_of_month first_of_next_month
first_of_month_bounds now v = (ground arith, ground arith)
