-- ===== src/Cron/Moment.antt =====
-- Minutes of a calendar, as time.Time gives them in a location of a fixed offset: what the search of
-- backend/framework/scheduler_cron.go uses of package time.
use bridra.Common.{
  ℕ, ◌+◌, ◌-◌, ◌*◌, ◌%◌, ◌≤◌, Bool, not, ◌&&◌, ◌||◌, ltb, ◌==◌, if◌then◌else◌, arith,
}

-- A minute: its date, its day of the week with 0 for Sunday, its hour and minute.
pub record Moment : Type 0 where
  pub year : ℕ
  pub month : ℕ
  pub day : ℕ
  pub weekday : ℕ
  pub hour : ℕ
  pub minute : ℕ

unfoldable pub is_leap : ℕ → Bool
is_leap year = ((year % 4 == 0) && not (year % 100 == 0)) || (year % 400 == 0)

unfoldable pub days_in_month : ℕ → ℕ → ℕ
days_in_month year month =
    if month == 2
    then (if is_leap year then 29 else 28)
    else if (month == 4) || (month == 6) || (month == 9) || (month == 11)
    then 30
    else 31

-- The first of the next month.
abbrev pub month_after : ℕ → ℕ → ℕ → Moment
month_after year month weekday =
    if ltb month 12
    then record { year = year; month = month + 1; day = 1; weekday = weekday; hour = 0; minute = 0 }
    else record { year = year + 1; month = 1; day = 1; weekday = weekday; hour = 0; minute = 0 }

-- time.Date(c.Year(), c.Month()+1, 1, 0, 0, 0, 0, location)
unfoldable pub next_month : Moment → Moment
next_month c =
    month_after c.year c.month ((c.weekday + (days_in_month c.year c.month + 1 - c.day)) % 7)

-- time.Date(c.Year(), c.Month(), c.Day()+1, 0, 0, 0, 0, location)
unfoldable pub next_day : Moment → Moment
next_day c =
    if ltb c.day (days_in_month c.year c.month)
    then record c { day = c.day + 1; weekday = (c.weekday + 1) % 7; hour = 0; minute = 0 }
    else month_after c.year c.month ((c.weekday + 1) % 7)

-- c.Add((60 - c.Minute()) * time.Minute)
unfoldable pub next_hour : Moment → Moment
next_hour c = if ltb c.hour 23 then record c { hour = c.hour + 1; minute = 0 } else next_day c

-- c.Add(time.Minute)
unfoldable pub next_minute : Moment → Moment
next_minute c = if ltb c.minute 59 then record c { minute = c.minute + 1 } else next_hour c

-- A number that is greater for a later minute.
unfoldable pub stamp : Moment → ℕ
stamp c = (((c.year * 13 + c.month) * 32 + c.day) * 24 + c.hour) * 60 + c.minute

-- c.After(limit)
abbrev pub is_after : Moment → Moment → Bool
is_after c limit = ltb (stamp limit) (stamp c)

-- c.AddDate(years, 0, 0): where the month is too short, the day runs over into the next.
unfoldable pub add_years : ℕ → Moment → ℕ → Moment
add_years years c weekday =
    if ltb (days_in_month (c.year + years) c.month) c.day
    then record c {
      year = c.year + years;
      month = c.month + 1;
      day = c.day - days_in_month (c.year + years) c.month;
      weekday = weekday;
    }
    else record c { year = c.year + years; weekday = weekday }

-- A minute of the calendar.
pub record IsMoment (c : Moment) : Type 0 where
  pub month_first : 1 ≤ c.month
  pub month_last : c.month ≤ 12
  pub day_first : 1 ≤ c.day
  pub day_last : c.day ≤ days_in_month c.year c.month
  pub weekday_last : c.weekday ≤ 6
  pub hour_last : c.hour ≤ 23
  pub minute_last : c.minute ≤ 59

pub days_in_month-le : (year month : ℕ) → days_in_month year month ≤ 31
unfolding days_in_month
days_in_month-le year month = ground (arith, is_leap year)

pub days_in_month_positive : (year month : ℕ) → 28 ≤ days_in_month year month
unfolding days_in_month
days_in_month_positive year month = ground (arith, is_leap year)
