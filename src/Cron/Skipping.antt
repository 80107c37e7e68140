-- ===== src/Cron/Skipping.antt =====
-- No matching minute is skipped, backend/framework/scheduler_cron.go.
use bridra.Common.{
  ℕ, zero, suc, ◌+◌, ◌-◌, ◌%◌, ◌≤◌, ◌<◌, ◌≡◌, refl, sym, ap, subst, Bool, true, false, ◌&&◌, Option,
  none, some, ltb, arith, inl, inr, Bool-cases,
}
use bridra.Cron.Moment.{
  Moment, next_month, next_day, next_hour, next_minute, month_after, days_in_month, IsMoment,
}
use bridra.Cron.Expression.{CronExpression, allows, matches_day, skip}

ltb-false : (a b : ℕ) → b ≤ a → ltb a b ≡ false
ltb-false a b h = ground (arith, h)

ltb-true : (a b : ℕ) → a < b → ltb a b ≡ true
ltb-true a b h = ground (arith, h)

some-injective : (c d : Moment) → ◌≡◌ {A = Option Moment} (some c) (some d) → c ≡ d
some-injective c d h = cc

next_minute_last : (c : Moment) → c.minute ≡ 59 → next_minute c ≡ next_hour c
unfolding next_minute
next_minute_last c h = rw (ltb-false c.minute 59 (omega (arith, h)), next_minute) refl

next_minute_within :
    (c : Moment) → c.minute < 59 → next_minute c ≡ record c { minute = c.minute + 1 }
unfolding next_minute
next_minute_within c h = rw (ltb-true c.minute 59 h, next_minute) refl

next_day-time : (c : Moment) (h m : ℕ) → next_day (record c { hour = h; minute = m }) ≡ next_day c
unfolding next_day
next_day-time c h m = refl

next_hour-minute : (c : Moment) (m : ℕ) → next_hour (record c { minute = m }) ≡ next_hour c
unfolding next_hour next_day
next_hour-minute c m = refl

next_hour_last : (c : Moment) → c.hour ≡ 23 → next_hour c ≡ next_day c
unfolding next_hour
next_hour_last c h = rw (ltb-false c.hour 23 (omega (arith, h)), next_hour) refl

next_hour_within :
    (c : Moment) → c.hour < 23 → next_hour c ≡ record c { hour = c.hour + 1; minute = 0 }
unfolding next_hour
next_hour_within c h = rw (ltb-true c.hour 23 h, next_hour) refl

next_day_last : (c : Moment) → c.day ≡ days_in_month c.year c.month → next_day c ≡ next_month c
unfolding next_day next_month
next_day_last c h =
    let one_day : days_in_month c.year c.month + 1 - c.day ≡ 1 = omega (arith, h) in
    rw (ltb-false c.day (days_in_month c.year c.month) (omega (arith, h)), one_day, next_day) refl

next_day_within :
    (c : Moment)
    → c.day < days_in_month c.year c.month
    → next_day c ≡ record c { day = c.day + 1; weekday = (c.weekday + 1) % 7; hour = 0; minute = 0 }
unfolding next_day
next_day_within c h = rw (ltb-true c.day (days_in_month c.year c.month) h, next_day) refl

next_month_later :
    (c : Moment)
    → c.day < days_in_month c.year c.month
    → next_month (record c { day = c.day + 1; weekday = (c.weekday + 1) % 7; hour = 0; minute = 0 })
      ≡ next_month c
unfolding next_month
next_month_later c h = ap (month_after c.year c.month) (omega (arith, h))

-- A minute that the expression matches: its month, its day, its hour and its minute.
unfoldable pub matches : CronExpression → Moment → Bool
matches e c =
    allows e.months c.month
    && matches_day e c.day c.weekday
    && allows e.hours c.hour
    && allows e.minutes c.minute

module _ (e : CronExpression) where
  -- From a minute to a later one, where it and those between them do not match.
  pub data Skips : Moment → Moment → Type 0 where
    last : (c d : Moment) → matches e c ≡ false → next_minute c ≡ d → Skips c d
    then_more : (c d : Moment) → matches e c ≡ false → Skips (next_minute c) d → Skips c d

  pub Skips-trans : (c d f : Moment) → Skips c d → Skips d f → Skips c f
  Skips-trans c d f (last _ _ h next) more =
      then_more c f h (subst (λ x. Skips x f) (sym next) more)
  Skips-trans c d f (then_more _ _ h rest) more =
      then_more c f h (Skips-trans (next_minute c) d f rest more)

  -- The rest of an hour, of a day and of a month, where none of its minutes matches.
  hour-Skips :
      (j : ℕ) (c : Moment)
      → c.minute + j ≡ 59
      → ((m : ℕ) → matches e (record c { minute = m }) ≡ false)
      → Skips c (next_hour c)
  hour-Skips zero c h miss =
      last c (next_hour c) (miss c.minute) (next_minute_last c (omega (arith, h)))
  hour-Skips (suc j) c h miss =
      let later = record c { minute = c.minute + 1 } in
      then_more c (next_hour c) (miss c.minute) (
        subst (λ x. Skips x (next_hour c)) (sym (next_minute_within c (omega (arith, h))))
          (subst (Skips later) (next_hour-minute c (c.minute + 1))
            (hour-Skips j later (omega (arith, h)) miss)))

  day-Skips :
      (j : ℕ) (c : Moment)
      → c.hour + j ≡ 23
      → c.minute ≤ 59
      → ((h m : ℕ) → matches e (record c { hour = h; minute = m }) ≡ false)
      → Skips c (next_day c)
  day-Skips zero c h k miss =
      subst (Skips c) (next_hour_last c (omega (arith, h)))
        (hour-Skips (59 - c.minute) c (omega (arith, k)) (miss c.hour))
  day-Skips (suc j) c h k miss =
      let later = record c { hour = c.hour + 1; minute = 0 } in
      Skips-trans c later (next_day c)
        (subst (Skips c) (next_hour_within c (omega (arith, h)))
          (hour-Skips (59 - c.minute) c (omega (arith, k)) (miss c.hour)))
        (subst (Skips later) (next_day-time c (c.hour + 1) 0)
          (day-Skips j later (omega (arith, h)) (omega arith) miss))

  month-Skips :
      (j : ℕ) (c : Moment)
      → c.day + j ≡ days_in_month c.year c.month
      → c.hour ≤ 23
      → c.minute ≤ 59
      → ((d w h m : ℕ)
          → matches e (record c { day = d; weekday = w; hour = h; minute = m }) ≡ false)
      → Skips c (next_month c)
  month-Skips zero c h k l miss =
      subst (Skips c) (next_day_last c (omega (arith, h)))
        (day-Skips (23 - c.hour) c (omega (arith, k)) l (miss c.day c.weekday))
  month-Skips (suc j) c h k l miss =
      let later = record c {
        day = c.day + 1;
        weekday = (c.weekday + 1) % 7;
        hour = 0;
        minute = 0;
      } in
      Skips-trans c later (next_month c)
        (subst (Skips c) (next_day_within c (omega (arith, h)))
          (day-Skips (23 - c.hour) c (omega (arith, k)) l (miss c.day c.weekday)))
        (subst (Skips later) (next_month_later c (omega (arith, h)))
          (month-Skips j later (omega (arith, h)) (omega arith) (omega arith) miss))

-- The expression does not match a minute whose month, day, hour or minute it does not allow.
module _ (e : CronExpression) (c : Moment) where
  month_misses :
      allows e.months c.month ≡ false
      → (d w h m : ℕ) → matches e (record c { day = d; weekday = w; hour = h; minute = m }) ≡ false
  unfolding matches
  month_misses shut d w h m = rw (shut, matches) refl

  day_misses :
      matches_day e c.day c.weekday ≡ false
      → (h m : ℕ) → matches e (record c { hour = h; minute = m }) ≡ false
  unfolding matches
  day_misses shut h m = ground (arith, shut, allows e.months c.month)

  hour_misses :
      allows e.hours c.hour ≡ false → (m : ℕ) → matches e (record c { minute = m }) ≡ false
  unfolding matches
  hour_misses shut m = ground (arith, shut, allows e.months c.month, matches_day e c.day c.weekday)

  minute_misses : allows e.minutes c.minute ≡ false → matches e c ≡ false
  unfolding matches
  minute_misses shut =
      ground
        (arith, shut, allows e.months c.month, matches_day e c.day c.weekday, allows e.hours c.hour)

  -- What the loop passes over does not match, and where it stops the expression matches.
  pub skip-Skips : IsMoment c → (d : Moment) → skip e c ≡ some d → Skips e c d
  unfolding skip
  skip-Skips valid d h = elim (Bool-cases (allows e.months c.month)) [
    | inr shut ↦ subst (Skips e c) (some-injective _ d (rw (shut, skip) at h)) (
        month-Skips e (days_in_month c.year c.month - c.day) c (omega (arith, valid.day_last))
          valid.hour_last valid.minute_last (month_misses shut))
    | inl month ↦ elim (Bool-cases (matches_day e c.day c.weekday)) [
      | inr shut ↦ subst (Skips e c) (some-injective _ d (rw (month, shut, skip) at h)) (
          day-Skips e (23 - c.hour) c (omega (arith, valid.hour_last)) valid.minute_last
            (day_misses shut))
      | inl day ↦ elim (Bool-cases (allows e.hours c.hour)) [
        | inr shut ↦
            subst (Skips e c) (some-injective _ d (rw (month, day, shut, skip) at h))
              (hour-Skips e (59 - c.minute) c (omega (arith, valid.minute_last)) (hour_misses shut))
        | inl hour ↦ elim (Bool-cases (allows e.minutes c.minute)) [
          | inr shut ↦
              last c d (minute_misses shut)
                (some-injective _ d (rw (month, day, hour, shut, skip) at h))
          | inl minute ↦ absurd (ground (arith, rw (month, day, hour, minute, skip) at h))
        ]
      ]
    ]
  ]

  pub skip-matches : skip e c ≡ none → matches e c ≡ true
  unfolding skip matches
  skip-matches h = ground (
    arith,
    h,
    allows e.months c.month,
    matches_day e c.day c.weekday,
    allows e.hours c.hour,
    allows e.minutes c.minute,
  )
