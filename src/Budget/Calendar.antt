-- ===== src/Budget/Calendar.antt =====
-- observability/budget.py: `current_period`, over a date and a time of day in UTC as `datetime` keeps them.
-- Years past 9999, where `datetime` raises, are not cut off.
pub mod Period
use agentforgev.Common.{
  ℕ, zero, suc, ◌+◌, ◌-◌, ◌*◌, ◌%◌, Bool, true, false, not, ◌&&◌, ◌||◌, ltb, ◌==◌, number_keys,
  if◌then◌else◌,
}

pub record Moment : Type 0 where
  pub year : ℕ
  pub month : ℕ
  pub day : ℕ
  pub micros : ℕ

abbrev pub is_leap : ℕ → Bool
is_leap y = (y % 4 == 0) && (not (y % 100 == 0) || (y % 400 == 0))

-- April, June, September and November
abbrev pub has_30_days : ℕ → Bool
has_30_days m = (m == 4) || (m == 9) || (m == 6) || (m == 11)

unfoldable pub days_in_month : ℕ → ℕ → ℕ
days_in_month y m =
    if (m == 2) && is_leap y then 29 else if m == 2 then 28 else if has_30_days m then 30 else 31

-- The days of the months before the month `m + 1`.
abbrev pub days_before_month : ℕ → ℕ → ℕ
days_before_month y zero = 0
days_before_month y (suc m) = days_before_month y m + days_in_month y (m + 1)

abbrev pub days_in_year : ℕ → ℕ
days_in_year y = days_before_month y 12

-- The days before January 1st of a year, counted from the year 0.
unfoldable pub days_before_year : ℕ → ℕ
days_before_year zero = 0
days_before_year (suc y) = days_before_year y + days_in_year y

abbrev pub micros_per_day : ℕ
micros_per_day = 86400000000

abbrev pub day_number : Moment → ℕ
day_number t = days_before_year t.year + days_before_month t.year (t.month - 1) + (t.day - 1)

-- Microseconds since the start of the year 0.
unfoldable pub instant : Moment → ℕ
instant t = day_number t * micros_per_day + t.micros

-- t + timedelta(days=1)
unfoldable pub next_day : Moment → Moment
next_day t =
    if ltb t.day (days_in_month t.year t.month)
    then record t { day = t.day + 1 }
    else if ltb t.month 12
    then record t { month = t.month + 1; day = 1 }
    else record t { year = t.year + 1; month = 1; day = 1 }

-- t + timedelta(days=n)
unfoldable pub add_days : ℕ → Moment → Moment
add_days zero t = t
add_days (suc n) t = add_days n (next_day t)

abbrev pub first_of_month : Moment → Moment
first_of_month t = record { year = t.year; month = t.month; day = 1; micros = 0 }

unfoldable pub current_period : Moment → Moment × Moment
current_period now =
    let start = first_of_month now in (start, record (add_days 31 start) { day = 1 })
