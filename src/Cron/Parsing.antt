-- ===== src/Cron/Parsing.antt =====
-- The parser of cron expressions, backend/framework/scheduler_cron.go. A text is ASCII where its case
-- matters.
use bridra.Common.{
  ℕ, zero, suc, ◌-◌, ◌^◌, Bool, true, false, not, ◌&&◌, ◌||◌, Option, none, some, List, [], ◌∷◌,
  ◌++◌, ltb, leb, ◌==◌, if◌then◌else◌, Result, ok, err, ℤ, pos, negsuc, all,
}
use bridra.Common.Texts.{Text, is_space, same_text, codes}
use bridra.Common.Decimal.{is_digit, digits_value}
use bridra.SemanticVersion.Version.{split}

-- The errors of the parser; `index_out_of_range` is a panic of the Go runtime.
pub data CronError : Type 0 where
  expected_five_fields empty_list_item : CronError
  invalid_step invalid_range reversed_range outside_range : Text → CronError
  index_out_of_range : CronError

-- strings.ToUpper of an ASCII text
unfoldable pub upper : Text → Text
upper [] = []
upper (c ∷ cs) = (if leb 97 c && leb c 122 then c - 32 else c) ∷ upper cs

abbrev pub with_word : Text → List Text → List Text
with_word [] words = words
with_word (c ∷ cs) words = (c ∷ cs) ∷ words

-- strings.Fields, from the codes of the word that has begun
unfoldable pub fields_from : Text → Text → List Text
fields_from word [] = with_word word []
fields_from word (c ∷ cs) =
    let closed = with_word word (fields_from [] cs) in
    let longer = fields_from (word ++ c ∷ []) cs in if is_space c then closed else longer

abbrev pub fields : Text → List Text
fields value = fields_from [] value

abbrev pub is_filled : Text → Bool
is_filled [] = false
is_filled (c ∷ cs) = true

-- The digits of strconv.Atoi, and the number that they make with a sign.
unfoldable pub magnitude : Text → Option ℕ
magnitude digits =
    if is_filled digits && all is_digit digits && ltb (digits_value 0 digits) (2 ^ 63)
    then some (digits_value 0 digits)
    else none

abbrev pub negated : Option ℕ → Option ℤ
negated none = none
negated (some zero) = some (pos zero)
negated (some (suc n)) = some (negsuc n)

abbrev pub positive : Option ℕ → Option ℤ
positive none = none
positive (some n) = some (pos n)

-- strconv.Atoi, but for the least int
unfoldable pub atoi : Text → Option ℤ
atoi [] = none
atoi (c ∷ cs) =
    if c == 43
    then positive (magnitude cs)
    else if c == 45
    then negated (magnitude cs)
    else positive (magnitude (c ∷ cs))

abbrev pub Names : Type 0
Names = List (Text × ℕ)

-- cronMonthNames and cronWeekdayNames
abbrev pub cron_month_names : Names
cron_month_names =
    (codes "JAN", 1)
    ∷ (codes "FEB", 2)
    ∷ (codes "MAR", 3)
    ∷ (codes "APR", 4)
    ∷ (codes "MAY", 5)
    ∷ (codes "JUN", 6)
    ∷ (codes "JUL", 7)
    ∷ (codes "AUG", 8)
    ∷ (codes "SEP", 9)
    ∷ (codes "OCT", 10)
    ∷ (codes "NOV", 11)
    ∷ (codes "DEC", 12)
    ∷ []

abbrev pub cron_weekday_names : Names
cron_weekday_names =
    (codes "SUN", 0)
    ∷ (codes "MON", 1)
    ∷ (codes "TUE", 2)
    ∷ (codes "WED", 3)
    ∷ (codes "THU", 4)
    ∷ (codes "FRI", 5)
    ∷ (codes "SAT", 6)
    ∷ []

unfoldable pub named : Text → Names → Option ℕ
named value [] = none
named value (entry ∷ names) =
    let later = named value names in if same_text entry.0 value then some entry.1 else later

abbrev pub within : Text → ℕ → ℕ → Option ℤ → Result CronError ℕ
within value least most (some (pos n)) =
    if ltb n least || ltb most n then err (outside_range value) else ok n
within value least most _ = err (outside_range value)

-- parseCronValue
unfoldable pub parse_cron_value : Text → ℕ → ℕ → Names → Result CronError ℕ
parse_cron_value value least most names = elim (named value names) [
  | some n ↦ ok n
  | none ↦ within value least most (atoi value)
]

-- What parseCronStep returns
pub record CronStep : Type 0 where
  pub base : Text
  pub step : ℕ
  pub has_step : Bool

abbrev pub step_of : Text → Text → Option ℤ → Result CronError CronStep
step_of base digits (some (pos (suc n))) =
    ok (record { base = base; step = suc n; has_step = true })
step_of base digits _ = err (invalid_step digits)

abbrev pub parse_parts : Text → List Text → Result CronError CronStep
parse_parts value ([] ∷ parts) = err (invalid_step value)
parse_parts value (base ∷ []) = ok (record { base = base; step = 1; has_step = false })
parse_parts value (base ∷ digits ∷ []) = step_of base digits (atoi digits)
parse_parts value _ = err (invalid_step value)

-- parseCronStep
unfoldable pub parse_cron_step : Text → Result CronError CronStep
parse_cron_step value = parse_parts value (split 47 value)

-- The values from which and to which an item goes, and its step
pub record CronItem : Type 0 where
  pub start : ℕ
  pub end_value : ℕ
  pub step : ℕ

module _ (least most : ℕ) (names : Names) where
  abbrev pub checked_range : Text → ℕ → ℕ → ℕ → Result CronError CronItem
  checked_range base step start end_value =
      if ltb end_value start
      then err (reversed_range base)
      else ok (record { start = start; end_value = end_value; step = step })

  abbrev pub parse_range : Text → ℕ → List Text → Result CronError CronItem
  parse_range base step ((c ∷ low) ∷ (d ∷ high) ∷ []) =
      elim (parse_cron_value (c ∷ low) least most names) [
        | err e ↦ err e
        | ok start ↦ elim (parse_cron_value (d ∷ high) least most names) [
          | err e ↦ err e
          | ok end_value ↦ checked_range base step start end_value
        ]
      ]
  parse_range base step _ = err (invalid_range base)

  abbrev pub parse_single : CronStep → Result CronError CronItem
  parse_single s = elim (parse_cron_value s.base least most names) [
    | err e ↦ err e
    | ok start ↦
        ok (record { start = start; end_value = if s.has_step then most else start; step = s.step })
  ]

  abbrev pub has_dash : Text → Bool
  has_dash base = not (all (λ c. not (c == 45)) base)

  abbrev pub parse_base : CronStep → Result CronError CronItem
  parse_base s =
      if same_text s.base (codes "*")
      then ok (record { start = least; end_value = most; step = s.step })
      else if has_dash s.base
      then parse_range s.base s.step (split 45 s.base)
      else parse_single s

  -- One item of the list, in the loop of parseCronField
  unfoldable pub parse_item : Text → Result CronError CronItem
  parse_item [] = err empty_list_item
  parse_item (c ∷ cs) = elim (parse_cron_step (c ∷ cs)) [ err e ↦ err e | ok s ↦ parse_base s ]
