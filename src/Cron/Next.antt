-- ===== src/Cron/Next.antt =====
-- The next minute that an expression matches, backend/framework/scheduler_cron.go.
use bridra.Common.{
  ℕ, zero, suc, ◌+◌, ◌%◌, ◌≤◌, ◌<◌, ◌≡◌, refl, subst, true, false, ◌⊎◌, Option, none, some, ltb,
  arith, inl, inr, Bool-cases, Option-cases,
}
use bridra.Cron.Moment.{
  Moment, next_day, next_hour, next_minute, month_after, stamp, is_after, days_in_month, IsMoment,
  days_in_month-le, days_in_month_positive,
}
use bridra.Cron.Expression.{CronExpression, skip, search, next, limit_of}
use bridra.Cron.Skipping.{matches, Skips, last, then_more, Skips-trans, skip-Skips, skip-matches}

month_after-IsMoment :
    (year month weekday : ℕ)
    → 1 ≤ month
    → month ≤ 12
    → weekday ≤ 6
    → IsMoment (month_after year month weekday)
month_after-IsMoment year month weekday first most w = elim (Bool-cases (ltb month 12)) [
  | inl e ↦ rw e (record {
    month_first = omega arith;
    month_last = ground (arith, e);
    day_first = omega arith;
    day_last = omega (arith, days_in_month_positive year (month + 1));
    weekday_last = w;
    hour_last = omega arith;
    minute_last = omega arith;
  })
  | inr e ↦ rw e (record {
    month_first = omega arith;
    month_last = omega arith;
    day_first = omega arith;
    day_last = omega (arith, days_in_month_positive (year + 1) 1);
    weekday_last = w;
    hour_last = omega arith;
    minute_last = omega arith;
  })
]

month_after_later :
    (c : Moment) (weekday : ℕ) → IsMoment c → stamp c < stamp (month_after c.year c.month weekday)
unfolding stamp
month_after_later c weekday valid =
    let days = days_in_month-le c.year c.month in
    elim (Bool-cases (ltb c.month 12)) [
      | inl e ↦ rw e (omega (arith, days, valid.day_last, valid.hour_last, valid.minute_last))
      | inr e ↦ rw e (
          omega (arith, days, valid.month_last, valid.day_last, valid.hour_last, valid.minute_last))
    ]

-- A step to a later minute of the calendar.
pub record Later (c d : Moment) : Type 0 where
  pub valid : IsMoment d
  pub later : stamp c < stamp d

next_day-Later : (c : Moment) → IsMoment c → Later c (next_day c)
unfolding next_day stamp
next_day-Later c valid = elim (Bool-cases (ltb c.day (days_in_month c.year c.month))) [
  | inr e ↦
      rw (e, next_day)
        (record {
          valid =
              month_after-IsMoment c.year c.month ((c.weekday + 1) % 7) valid.month_first
                valid.month_last (omega arith);
          later = month_after_later c ((c.weekday + 1) % 7) valid;
        })
  | inl e ↦
      rw (e, next_day)
        (record {
          valid = record {
            month_first = valid.month_first;
            month_last = valid.month_last;
            day_first = omega arith;
            day_last = ground (arith, e);
            weekday_last = omega arith;
            hour_last = omega arith;
            minute_last = omega arith;
          };
          later = omega (arith, valid.hour_last, valid.minute_last);
        })
]

next_hour-Later : (c : Moment) → IsMoment c → Later c (next_hour c)
unfolding next_hour stamp
next_hour-Later c valid = elim (Bool-cases (ltb c.hour 23)) [
  | inr e ↦ rw (e, next_hour) (next_day-Later c valid)
  | inl e ↦
      rw (e, next_hour)
        (record {
          valid = record {
            month_first = valid.month_first;
            month_last = valid.month_last;
            day_first = valid.day_first;
            day_last = valid.day_last;
            weekday_last = valid.weekday_last;
            hour_last = ground (arith, e);
            minute_last = omega arith;
          };
          later = omega (arith, valid.minute_last);
        })
]

next_minute-Later : (c : Moment) → IsMoment c → Later c (next_minute c)
unfolding next_minute stamp
next_minute-Later c valid = elim (Bool-cases (ltb c.minute 59)) [
  | inr e ↦ rw (e, next_minute) (next_hour-Later c valid)
  | inl e ↦
      rw (e, next_minute)
        (record {
          valid = record {
            month_first = valid.month_first;
            month_last = valid.month_last;
            day_first = valid.day_first;
            day_last = valid.day_last;
            weekday_last = valid.weekday_last;
            hour_last = valid.hour_last;
            minute_last = ground (arith, e);
          };
          later = omega arith;
        })
]

module _ (e : CronExpression) where
  Skips-Later : (c d : Moment) → IsMoment c → Skips e c d → Later c d
  Skips-Later c d valid (last _ _ h next) = subst (Later c) next (next_minute-Later c valid)
  Skips-Later c d valid (then_more _ _ h rest) =
      let one = next_minute-Later c valid in
      let more = Skips-Later (next_minute c) d one.valid rest in
      record { valid = more.valid; later = omega (arith, one.later, more.later) }

  -- From a minute on: no minute before `d` matches.
  abbrev pub FirstFrom : Moment → Moment → Type 0
  FirstFrom c d = (c ≡ d) ⊎ Skips e c d

  -- What a search from `c` to a limit answers: the first minute that matches, not after the limit, or
  -- nothing, where every minute up to one after the limit does not match.
  pub data Answers (c limit : Moment) : Option Moment → Type 0 where
    found :
        (d : Moment)
        → FirstFrom c d
        → matches e d ≡ true
        → is_after d limit ≡ false
        → Answers c limit (some d)
    missed : (d : Moment) → FirstFrom c d → is_after d limit ≡ true → Answers c limit none

  FirstFrom-trans : (c d f : Moment) → Skips e c d → FirstFrom d f → FirstFrom c f
  FirstFrom-trans c d f h (inl same) = inr (subst (Skips e c) same h)
  FirstFrom-trans c d f h (inr more) = inr (Skips-trans e c d f h more)

  Answers-from :
      (c d limit : Moment) (answer : Option Moment)
      → Skips e c d
      → Answers d limit answer
      → Answers c limit answer
  Answers-from c d limit _ h (found f first match within) =
      found f (FirstFrom-trans c d f h first) match within
  Answers-from c d limit _ h (missed f first past_it) =
      missed f (FirstFrom-trans c d f h first) past_it

  search-Answers :
      (limit : Moment) (fuel : ℕ) (c : Moment)
      → IsMoment c
      → stamp limit < stamp c + fuel
      → Answers c limit (search e limit fuel c)
  unfolding search
  search-Answers limit zero c valid enough = missed c (inl refl) (ground (arith, enough))
  search-Answers limit (suc fuel) c valid enough = elim (Bool-cases (is_after c limit)) [
    | inl h ↦ rw (h, search) (missed c (inl refl) h)
    | inr h ↦ elim (Option-cases (skip e c)) [
      | inl k ↦ rw (h, k, search) (found c (inl refl) (skip-matches e c k) h)
      | inr (d, k) ↦
          let skips = skip-Skips e c valid d k in
          let step = Skips-Later c d valid skips in
          rw (h, k, search)
            (Answers-from c d limit (search e limit fuel d) skips
              (search-Answers limit fuel d step.valid (omega (arith, enough, step.later))))
    ]
  ]

  -- The next minute of an expression, counted from the minute after the given one, is the first that
  -- the expression matches, and no more than eight years later; none is answered only where no minute
  -- of these eight years matches.
  pub next-Answers :
      (after : Moment)
      → IsMoment after
      → Answers (next_minute after) (limit_of (next_minute after)) (next e after)
  unfolding next
  next-Answers after valid =
      let first = next_minute-Later after valid in
      search-Answers (limit_of (next_minute after)) (stamp (limit_of (next_minute after)) + 2)
        (next_minute after) first.valid (omega arith)
