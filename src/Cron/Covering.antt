-- ===== src/Cron/Covering.antt =====
-- What a parsed field allows, backend/framework/scheduler_cron.go.
use native.Mathlib.Nat.{zero-mul, suc-mul}
use bridra.Common.{
  ℕ, zero, suc, ◌+◌, ◌*◌, ◌^◌, ◌≤◌, ◌<◌, ◌≡◌, refl, sym, ap, ◌∙◌, subst, ◌⊎◌, inl, inr, true,
  Option, some, [], ◌∷◌, ltb, leb, Bool-cases, length, arith,
}
use bridra.Cron.Expression.{CronField, allows}
use bridra.Cron.Fields.{set_at, fill}

-- A value that a loop reaches: no greater than its end, and a number of steps after its start.
pub record IsReached (start end_value step v : ℕ) : Type 0 where
  pub times : ℕ
  pub after : v ≡ start + times * step
  pub below : v ≤ end_value

length-set_at : (n : ℕ) (field : CronField) → length (set_at n field) ≡ length field
unfolding set_at
length-set_at n [] = refl
length-set_at zero (b ∷ field) = refl
length-set_at (suc n) (b ∷ field) = ap suc (length-set_at n field)

allows-set_at_self :
    (n : ℕ) (field : CronField) → n < length field → allows (set_at n field) n ≡ true
unfolding allows set_at
allows-set_at_self n [] h = absurd (omega (arith, h))
allows-set_at_self zero (b ∷ field) h = refl
allows-set_at_self (suc n) (b ∷ field) h = allows-set_at_self n field (omega (arith, h))

allows-set_at_kept :
    (n v : ℕ) (field : CronField) → allows field v ≡ true → allows (set_at n field) v ≡ true
unfolding allows set_at
allows-set_at_kept n v [] h = h
allows-set_at_kept zero zero (b ∷ field) h = refl
allows-set_at_kept zero (suc v) (b ∷ field) h = h
allows-set_at_kept (suc n) zero (b ∷ field) h = h
allows-set_at_kept (suc n) (suc v) (b ∷ field) h = allows-set_at_kept n v field h

allows-set_at_only :
    (n v : ℕ) (field : CronField)
    → allows (set_at n field) v ≡ true
    → (allows field v ≡ true) ⊎ (v ≡ n)
unfolding allows set_at
allows-set_at_only n v [] h = inl h
allows-set_at_only zero zero (b ∷ field) h = inr refl
allows-set_at_only zero (suc v) (b ∷ field) h = inl h
allows-set_at_only (suc n) zero (b ∷ field) h = inl h
allows-set_at_only (suc n) (suc v) (b ∷ field) h = elim (allows-set_at_only n v field h) [
  | inl old ↦ inl old
  | inr same ↦ inr (ap suc same)
]

some-same : (f g : CronField) → ◌≡◌ {A = Option CronField} (some f) (some g) → f ≡ g
some-same f g h = cc

-- What the loop over an item leaves: what was allowed, and the values that it reaches.
pub record Filled (current end_value step : ℕ) (field filled : CronField) : Type 0 where
  pub same_length : length filled ≡ length field
  pub only :
      (v : ℕ)
      → allows filled v ≡ true
      → (allows field v ≡ true) ⊎ IsReached current end_value step v
  pub kept : (v : ℕ) → allows field v ≡ true → allows filled v ≡ true
  pub reached : (v : ℕ) → IsReached current end_value step v → allows filled v ≡ true

nothing-IsReached :
    (current end_value step v : ℕ) → end_value < current → ¬ IsReached current end_value step v
nothing-IsReached current end_value step v h r = omega (arith, h, r.after, r.below)

Filled-stop :
    (current end_value step : ℕ) (field : CronField)
    → end_value < current
    → Filled current end_value step field field
Filled-stop current end_value step field h = record {
  same_length = refl;
  only = λ v a. inl a;
  kept = λ v a. a;
  reached = λ v r. absurd (nothing-IsReached current end_value step v h r);
}

IsReached-first_or_later :
    (current end_value step v : ℕ)
    → IsReached current end_value step v
    → (v ≡ current) ⊎ IsReached (current + step) end_value step v
IsReached-first_or_later current end_value step v r = by_times r.times r.after
  where
    by_times :
        (times : ℕ)
        → v ≡ current + times * step
        → (v ≡ current) ⊎ IsReached (current + step) end_value step v
    by_times zero h = inl (omega (arith, h, zero-mul step))
    by_times (suc times) h =
        inr
          (record { times = times; after = omega (arith, h, suc-mul times step); below = r.below })

IsReached-later :
    (current end_value step v : ℕ)
    → IsReached (current + step) end_value step v
    → IsReached current end_value step v
IsReached-later current end_value step v r = record {
  times = suc r.times;
  after = omega (arith, r.after, suc-mul r.times step);
  below = r.below;
}

Filled-step :
    (current end_value step : ℕ) (field filled : CronField)
    → current ≤ end_value
    → end_value < length field
    → Filled (current + step) end_value step (set_at current field) filled
    → Filled current end_value step field filled
Filled-step current end_value step field filled within fits rest = record {
  same_length = rest.same_length ∙ length-set_at current field;
  only = λ v a. elim (rest.only v a) [
    | inr later ↦ inr (IsReached-later current end_value step v later)
    | inl set ↦ elim (allows-set_at_only current v field set) [
      | inl old ↦ inl old
      | inr same ↦ inr (record {
        times = 0;
        after = omega (arith, same, zero-mul step);
        below = omega (arith, same, within);
      })
    ]
  ];
  kept = λ v a. rest.kept v (allows-set_at_kept current v field a);
  reached = λ v r. elim (IsReached-first_or_later current end_value step v r) [
    | inr later ↦ rest.reached v later
    | inl same ↦ rest.kept v (
        subst (λ n. allows (set_at current field) n ≡ true) (sym same)
          (allows-set_at_self current field (omega (arith, within, fits))))
  ];
}

pub fill-Filled :
    (fuel current end_value step : ℕ) (field filled : CronField)
    → 1 ≤ step
    → end_value < length field
    → end_value < current + fuel
    → fill fuel current end_value step field ≡ some filled
    → Filled current end_value step field filled
unfolding fill
fill-Filled zero current end_value step field filled positive fits enough h = ground arith
fill-Filled (suc fuel) current end_value step field filled positive fits enough h =
    elim (Bool-cases (ltb end_value current)) [
      | inl past_end ↦
          subst (Filled current end_value step field)
            (some-same _ filled (rw (past_end, fill) at h))
            (Filled-stop current end_value step field (ground (arith, past_end)))
      | inr within ↦ elim (Bool-cases (leb (2 ^ 63) (current + step))) [
        | inl wrapped ↦ absurd (ground (arith, rw (within, wrapped, fill) at h))
        | inr small ↦
            Filled-step current end_value step field filled (ground (arith, within)) fits (
              fill-Filled fuel (current + step) end_value step (set_at current field) filled
                positive (omega (arith, fits, length-set_at current field))
                (omega (arith, enough, positive)) (rw (within, small, fill) at h))
      ]
    ]
