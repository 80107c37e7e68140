-- ===== src/Cron/Fields.antt =====
-- parseCronField and parseCronExpression, backend/framework/scheduler_cron.go.
use bridra.Common.{
  ℕ, zero, suc, ◌+◌, ◌-◌, ◌^◌, Bool, true, false, ◌&&◌, ◌||◌, Option, none, some, List, [], ◌∷◌,
  ltb, leb, if◌then◌else◌, Result, ok, err,
}
use bridra.Common.Texts.{Text}
use bridra.SemanticVersion.Version.{split}
use bridra.Cron.Expression.{CronField, CronExpression, allows}
use bridra.Cron.Parsing.{
  CronError, expected_five_fields, index_out_of_range, upper, fields, CronItem, Names,
  cron_month_names, cron_weekday_names, parse_item,
}

-- make([]bool, n)
unfoldable pub all_false : ℕ → CronField
all_false zero = []
all_false (suc n) = false ∷ all_false n

-- field.allowed[value] = true
unfoldable pub set_at : ℕ → CronField → CronField
set_at n [] = []
set_at zero (b ∷ field) = true ∷ field
set_at (suc n) (b ∷ field) = b ∷ set_at n field

-- The loop over the values of an item. Their int wraps around at 2 ^ 63 to a negative number, which is
-- an index out of range.
unfoldable pub fill : ℕ → ℕ → ℕ → ℕ → CronField → Option CronField
fill zero current end_value step field = some field
fill (suc fuel) current end_value step field =
    let rest = fill fuel (current + step) end_value step (set_at current field) in
    if ltb end_value current
    then some field
    else if leb (2 ^ 63) (current + step)
    then none
    else rest

unfoldable pub fill_item : CronItem → CronField → Option CronField
fill_item item field =
    fill (item.end_value + 2 - item.start) item.start item.end_value item.step field

module _ (least most : ℕ) (names : Names) where
  -- The loop of parseCronField
  unfoldable pub parse_items : List Text → CronField → Result CronError CronField
  parse_items [] field = ok field
  parse_items (text ∷ texts) field = elim (parse_item least most names text) [
    | err e ↦ err e
    | ok item ↦ elim (fill_item item field) [
      | none ↦ err index_out_of_range
      | some filled ↦ parse_items texts filled
    ]
  ]

  -- parseCronField
  unfoldable pub parse_cron_field : Text → Result CronError CronField
  parse_cron_field value = parse_items (split 44 (upper value)) (all_false (most + 1))

-- allowsEvery, from a value on for a number of values
unfoldable pub allows_every : CronField → ℕ → ℕ → Bool
allows_every field value zero = true
allows_every field value (suc n) =
    let rest = allows_every field (value + 1) n in allows field value && rest

abbrev pub first_seven : CronField → CronField
first_seven (b0 ∷ b1 ∷ b2 ∷ b3 ∷ b4 ∷ b5 ∷ b6 ∷ rest) = b0 ∷ b1 ∷ b2 ∷ b3 ∷ b4 ∷ b5 ∷ b6 ∷ []
first_seven field = field

-- Sunday is 0 and 7.
unfoldable pub fold_sunday : CronField → CronField
fold_sunday field = first_seven (if allows field 0 || allows field 7 then set_at 0 field else field)

abbrev pub expression_of :
    CronField → CronField → CronField → CronField → CronField → CronExpression
expression_of minutes hours days months weekdays = record {
  minutes = minutes;
  hours = hours;
  days_of_month = days;
  months = months;
  weekdays = weekdays;
  day_wildcard = allows_every days 1 31;
  weekday_wildcard = allows_every weekdays 0 7;
}

unfoldable pub parse_five : Text → Text → Text → Text → Text → Result CronError CronExpression
parse_five minute hour day month weekday = elim (parse_cron_field 0 59 [] minute) [
  | err e ↦ err e
  | ok minutes ↦ elim (parse_cron_field 0 23 [] hour) [
    | err e ↦ err e
    | ok hours ↦ elim (parse_cron_field 1 31 [] day) [
      | err e ↦ err e
      | ok days ↦ elim (parse_cron_field 1 12 cron_month_names month) [
        | err e ↦ err e
        | ok months ↦ elim (parse_cron_field 0 7 cron_weekday_names weekday) [
          | err e ↦ err e
          | ok weekdays ↦ ok (expression_of minutes hours days months (fold_sunday weekdays))
        ]
      ]
    ]
  ]
]

abbrev pub parse_fields : List Text → Result CronError CronExpression
parse_fields (minute ∷ hour ∷ day ∷ month ∷ weekday ∷ []) = parse_five minute hour day month weekday
parse_fields _ = err expected_five_fields

-- parseCronExpression
unfoldable pub parse_cron_expression : Text → Result CronError CronExpression
parse_cron_expression value = parse_fields (fields value)
