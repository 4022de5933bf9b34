-- ===== src/Calendar.antt =====
-- The timestamps of api/app/core/quota.py: a UTC datetime by its fields, ordered field by field.
pub mod Month
mod Examples
use scrapeflow.Base.{ℕ, ◌+◌, ◌≡◌, Bool, true, false, List, [], ◌∷◌, ltb, ◌==◌, if◌then◌else◌}

pub record Datetime : Type 0 where
  pub year : ℕ
  pub month : ℕ
  pub day : ℕ
  pub hour : ℕ
  pub minute : ℕ
  pub second : ℕ
  pub microsecond : ℕ

abbrev fields : Datetime → List ℕ
fields t = t.year ∷ t.month ∷ t.day ∷ t.hour ∷ t.minute ∷ t.second ∷ t.microsecond ∷ []

-- Python compares datetimes of one zone by their fields, the year first.
abbrev lt_fields : List ℕ → List ℕ → Bool
lt_fields [] ys = false
lt_fields (x ∷ xs) [] = false
lt_fields (x ∷ xs) (y ∷ ys) =
    let later = lt_fields xs ys in if ltb x y then true else if x == y then later else false

unfoldable pub before : Datetime → Datetime → Bool
before s t = lt_fields (fields s) (fields t)

-- now.replace(day=1, hour=0, minute=0, second=0, microsecond=0)
unfoldable pub first_of_month : Datetime → Datetime
first_of_month now = record now { day = 1; hour = 0; minute = 0; second = 0; microsecond = 0 }

unfoldable pub first_of_next_month : Datetime → Datetime
unfolding first_of_month
first_of_next_month now =
    if now.month == 12
    then record (first_of_month now) { year = now.year + 1; month = 1 }
    else record (first_of_month now) { month = now.month + 1 }
