-- ===== src/Cron/Expression.antt =====
-- Cron expressions and the search for the next minute, backend/framework/scheduler_cron.go.
use bridra.Common.{
  ℕ, zero, suc, ◌+◌, Bool, false, not, ◌||◌, Option, none, some, List, get_elem?, if◌then◌else◌,
}
use bridra.Cron.Moment.{
  Moment, next_month, next_day, next_hour, next_minute, stamp, is_after, add_years,
}

-- cronField: what is allowed at each index
abbrev pub CronField : Type 0
CronField = List Bool

-- field.allowed[value], where parseCronField made the field for values up to that
abbrev pub or_false : Option Bool → Bool
or_false none = false
or_false (some b) = b

unfoldable pub allows : CronField → ℕ → Bool
allows field value = or_false (get_elem? field value)

-- cronExpression
pub record CronExpression : Type 0 where
  pub minutes : CronField
  pub hours : CronField
  pub days_of_month : CronField
  pub months : CronField
  pub weekdays : CronField
  pub day_wildcard : Bool
  pub weekday_wildcard : Bool

-- matchesDay
unfoldable pub matches_day : CronExpression → ℕ → ℕ → Bool
matches_day e day weekday =
    if e.day_wildcard
    then allows e.weekdays weekday
    else if e.weekday_wildcard
    then allows e.days_of_month day
    else allows e.days_of_month day || allows e.weekdays weekday

-- The candidate after one that does not match, and none where it does: the loop of next
unfoldable pub skip : CronExpression → Moment → Option Moment
skip e c =
    if not (allows e.months c.month)
    then some (next_month c)
    else if not (matches_day e c.day c.weekday)
    then some (next_day c)
    else if not (allows e.hours c.hour)
    then some (next_hour c)
    else if not (allows e.minutes c.minute)
    then some (next_minute c)
    else none

unfoldable pub search : CronExpression → Moment → ℕ → Moment → Option Moment
search e limit zero c = none
search e limit (suc fuel) c =
    let found : Option Moment = elim (skip e c) [
      | none ↦ some c
      | some d ↦ search e limit fuel d
    ] in
    if is_after c limit then none else found

-- cronSearchYears
abbrev pub cron_search_years : ℕ
cron_search_years = 8

-- The limit of the search; its day of the week is not read.
abbrev pub limit_of : Moment → Moment
limit_of c = add_years cron_search_years c 0

-- next, from the minute in which `after` lies
unfoldable pub next : CronExpression → Moment → Option Moment
next e after =
    let first = next_minute after in search e (limit_of first) (stamp (limit_of first) + 2) first
