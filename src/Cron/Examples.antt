-- ===== src/Cron/Examples.antt =====
-- Expressions of backend/framework/scheduler_cron.go.
use bridra.Common.{◌≤◌, ◌≡◌, ◌↔◌, refl, true, false, some, [], ◌∷◌, ok, err, arith, All}
use bridra.Common.Texts.{codes, is_space, same_text}
use bridra.SemanticVersion.Version.{split}
use bridra.Cron.Moment.{
  Moment, IsMoment, next_month, next_day, next_hour, next_minute, stamp, is_leap, days_in_month,
  add_years,
}
use bridra.Cron.Expression.{
  CronExpression, CronField, allows, matches_day, skip, search, next, limit_of,
}
use bridra.Cron.Next.{Answers, next-Answers}
use bridra.Cron.Parsing.{
  upper, fields_from, magnitude, atoi, named, parse_cron_value, parse_cron_step, parse_item,
  cron_weekday_names, index_out_of_range, expected_five_fields,
}
use bridra.Cron.Fields.{
  all_false, set_at, fill, fill_item, parse_items, parse_cron_field, allows_every, fold_sunday,
  parse_five, parse_cron_expression,
}
use bridra.Cron.Listed.{IsListed, parse_cron_field-IsListed}

abbrev every_day : CronField
every_day =
    true ∷ true ∷ true ∷ true ∷ true ∷ true ∷ true ∷ true ∷ true ∷ true ∷ true ∷ true ∷ true ∷ true
    ∷ true ∷ true ∷ true ∷ true ∷ true ∷ true ∷ true ∷ true ∷ true ∷ true ∷ true ∷ true ∷ true
    ∷ true ∷ true ∷ true ∷ true ∷ []

-- Half past nine on the days from Monday to Friday in January and February.
abbrev workdays : CronExpression
unfolding all_false set_at
workdays = record {
  minutes = set_at 30 (all_false 60);
  hours = set_at 9 (all_false 24);
  days_of_month = false ∷ every_day;
  months = set_at 1 (set_at 2 (all_false 13));
  weekdays = false ∷ true ∷ true ∷ true ∷ true ∷ true ∷ false ∷ [];
  day_wildcard = true;
  weekday_wildcard = false;
}

abbrev friday : Moment
friday = record { year = 2026; month = 1; day = 2; weekday = 5; hour = 9; minute = 30 }

friday-IsMoment : IsMoment friday
unfolding days_in_month
friday-IsMoment = record {
  month_first = omega arith;
  month_last = omega arith;
  day_first = omega arith;
  day_last = omega arith;
  weekday_last = omega arith;
  hour_last = omega arith;
  minute_last = omega arith;
}

next_on_monday : next workdays friday ≡ some (record friday { day = 5; weekday = 1 })
unfolding next search skip allows matches_day next_month next_day next_hour next_minute stamp
    days_in_month is_leap add_years workdays all_false set_at
next_on_monday = refl

next-Answers_example :
    Answers workdays (next_minute friday) (limit_of (next_minute friday)) (next workdays friday)
next-Answers_example = next-Answers workdays friday friday-IsMoment

abbrev every_other : CronField
every_other = false ∷ true ∷ false ∷ true ∷ false ∷ true ∷ false ∷ false ∷ []

small_names : All (λ e. e.1 ≤ 7) cron_weekday_names
small_names = ground arith

every_other_parsed : parse_cron_field 0 7 cron_weekday_names (codes "mon-fri/2") ≡ ok every_other
unfolding parse_cron_field split upper parse_items parse_item parse_cron_step parse_cron_value named
    atoi magnitude fill_item fill set_at all_false same_text
every_other_parsed = refl

parse_cron_field-IsListed_example :
    (allows every_other 3 ≡ true)
    ↔ IsListed 0 7 cron_weekday_names 3 (split 44 (upper (codes "mon-fri/2")))
parse_cron_field-IsListed_example =
    parse_cron_field-IsListed 0 7 cron_weekday_names (codes "mon-fri/2") every_other 3 small_names
      every_other_parsed

-- A step of math.MaxInt64 in a field that begins at 1.
wrapped_step : parse_cron_field 1 31 [] (codes "*/9223372036854775807") ≡ err index_out_of_range
unfolding parse_cron_field split upper parse_items parse_item parse_cron_step parse_cron_value named
    atoi magnitude fill_item fill set_at all_false same_text
wrapped_step = refl

-- Whole expressions.
parsed : parse_cron_expression (codes "30 9 * jan-feb  mon-fri") ≡ ok workdays
unfolding parse_cron_expression fields_from is_space parse_five parse_cron_field split upper
    parse_items parse_item parse_cron_step parse_cron_value named atoi magnitude fill_item fill
    set_at all_false same_text allows allows_every fold_sunday workdays
parsed = refl

four_fields : parse_cron_expression (codes "30 9 * JAN-FEB ") ≡ err expected_five_fields
unfolding parse_cron_expression fields_from is_space
four_fields = refl
