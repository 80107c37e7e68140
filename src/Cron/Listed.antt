-- ===== src/Cron/Listed.antt =====
-- A parsed field allows what its list says, backend/framework/scheduler_cron.go.
use bridra.Common.{
  ℕ, zero, suc, ◌+◌, ◌-◌, ◌≤◌, ◌≡◌, refl, sym, ap, ◌∙◌, subst, ◌⊎◌, ◌↔◌, inl, inr, true, false,
  Option, none, some, List, [], ◌∷◌, ltb, if◌then◌else◌, Result, ok, Result-cases, ok-injective,
  Option-cases, Bool-cases, length, arith, All, pos, negsuc, ℤ, past,
}
use bridra.Common.Texts.{Text, same_text, codes}
use bridra.SemanticVersion.Version.{split}
use bridra.Cron.Expression.{CronField, allows}
use bridra.Cron.Parsing.{
  CronError, upper, CronItem, CronStep, Names, named, within, parse_cron_value, atoi, step_of,
  parse_parts, parse_cron_step, parse_range, parse_single, has_dash, parse_base, parse_item,
}
use bridra.Cron.Fields.{all_false, fill_item, parse_items, parse_cron_field}
use bridra.Cron.Covering.{IsReached, Filled, fill-Filled}

allows-all_false : (n v : ℕ) → allows (all_false n) v ≡ false
unfolding allows all_false
allows-all_false zero v = refl
allows-all_false (suc n) zero = refl
allows-all_false (suc n) (suc v) = allows-all_false n v

length-all_false : (n : ℕ) → length (all_false n) ≡ n
unfolding all_false
length-all_false zero = refl
length-all_false (suc n) = ap suc (length-all_false n)

module _ (least most : ℕ) (names : Names) where
  -- A value that the item of a text reaches.
  pub record IsReachedBy (v : ℕ) (text : Text) : Type 0 where
    pub item : CronItem
    pub parsed : parse_item least most names text ≡ ok item
    pub reached : IsReached item.start item.end_value item.step v

  -- A value that an item of the list reaches.
  abbrev pub IsListed : ℕ → List Text → Type 0
  IsListed v [] = ⊥
  IsListed v (text ∷ texts) = IsReachedBy v text ⊎ IsListed v texts

  named-le :
      (value : Text) (n : ℕ) (entries : Names)
      → All (λ e. e.1 ≤ most) entries
      → named value entries ≡ some n
      → n ≤ most
  unfolding named
  named-le value n [] h e = absurd (ground (arith, e))
  named-le value n (entry ∷ entries) h e = elim (Bool-cases (same_text entry.0 value)) [
    | inl hit ↦ subst (λ k. k ≤ most) (ground (arith, hit, e)) h.0
    | inr miss ↦ named-le value n entries h.1 (ground (arith, miss, e))
  ]

  within-le :
      (value : Text) (parsed : Option ℤ) (n : ℕ) → within value least most parsed ≡ ok n → n ≤ most
  within-le value none n h = absurd (ground (arith, h))
  within-le value (some (negsuc k)) n h = absurd (ground (arith, h))
  within-le value (some (pos k)) n h = ground arith

  parse_cron_value-le :
      (value : Text) (n : ℕ)
      → All (λ e. e.1 ≤ most) names
      → parse_cron_value value least most names ≡ ok n
      → n ≤ most
  unfolding parse_cron_value
  parse_cron_value-le value n small h = elim (Option-cases (named value names)) [
    | inl e ↦ within-le value (atoi value) n (rw (e, parse_cron_value) at h)
    | inr (k, e) ↦
        subst (λ j. j ≤ most) (ok-injective k n (rw (e, parse_cron_value) at h))
          (named-le value k names small e)
  ]

  -- An item goes up by its step and stays in the field.
  record IsItem (item : CronItem) : Type 0 where
    rises : 1 ≤ item.step
    fits : item.end_value ≤ most

  ok-IsItem :
      (made item : CronItem)
      → IsItem made
      → ◌≡◌ {A = Result CronError CronItem} (ok made) (ok item)
      → IsItem item
  ok-IsItem made item h e = subst IsItem (ok-injective made item e) h

  parse_range-IsItem :
      (base : Text) (step : ℕ) (bounds : List Text) (item : CronItem)
      → All (λ e. e.1 ≤ most) names
      → 1 ≤ step
      → parse_range least most names base step bounds ≡ ok item
      → IsItem item
  parse_range-IsItem base step ((c ∷ low) ∷ (d ∷ high) ∷ []) item small rises h =
      elim (Result-cases (parse_cron_value (c ∷ low) least most names)) [
        | inr (e, f) ↦ absurd (ground (arith, rw (f, parse_range) at h))
        | inl (start, f) ↦ elim (Result-cases (parse_cron_value (d ∷ high) least most names)) [
          | inr (e, g) ↦ absurd (ground (arith, rw (f, g, parse_range) at h))
          | inl (end_value, g) ↦
              let made : CronItem = record { start = start; end_value = end_value; step = step } in
              ok-IsItem made item
                (record { rises = rises; fits = parse_cron_value-le (d ∷ high) end_value small g })
                (past (ltb end_value start) _ (ok made) item (rw (f, g, parse_range) at h)).1
        ]
      ]
  parse_range-IsItem base step _ item small rises h = absurd (ground (arith, h))

  parse_single-IsItem :
      (s : CronStep) (item : CronItem)
      → All (λ e. e.1 ≤ most) names
      → 1 ≤ s.step
      → parse_single least most names s ≡ ok item
      → IsItem item
  parse_single-IsItem s item small rises h =
      elim (Result-cases (parse_cron_value s.base least most names)) [
        | inr (e, f) ↦ absurd (ground (arith, rw (f, parse_single) at h))
        | inl (start, f) ↦
            ok-IsItem
              (record {
                start = start;
                end_value = if s.has_step then most else start;
                step = s.step;
              })
              item
              (record {
                rises = rises;
                fits = ground (arith, s.has_step, parse_cron_value-le s.base start small f);
              })
              (rw (f, parse_single) at h)
      ]

  parse_base-IsItem :
      (s : CronStep) (item : CronItem)
      → All (λ e. e.1 ≤ most) names
      → 1 ≤ s.step
      → parse_base least most names s ≡ ok item
      → IsItem item
  parse_base-IsItem s item small rises h = elim (Bool-cases (same_text s.base (codes "*"))) [
    | inl star ↦
        ok-IsItem (record { start = least; end_value = most; step = s.step }) item
          (record { rises = rises; fits = omega arith }) (rw (star, parse_base) at h)
    | inr other ↦ elim (Bool-cases (has_dash least most names s.base)) [
      | inl dash ↦
          parse_range-IsItem s.base s.step (split 45 s.base) item small rises
            (rw (other, dash, parse_base) at h)
      | inr plain ↦ parse_single-IsItem s item small rises (rw (other, plain, parse_base) at h)
    ]
  ]

  step_of-rises :
      (base digits : Text) (parsed : Option ℤ) (s : CronStep)
      → step_of base digits parsed ≡ ok s
      → 1 ≤ s.step
  step_of-rises base digits (some (pos (suc n))) s h =
      subst (λ s. 1 ≤ s.step) (ok-injective _ s h) (omega arith)
  step_of-rises base digits _ s h = absurd (ground (arith, h))

  parse_parts-rises :
      (value : Text) (parts : List Text) (s : CronStep)
      → parse_parts value parts ≡ ok s
      → 1 ≤ s.step
  parse_parts-rises value ((c ∷ base) ∷ []) s h =
      subst (λ s. 1 ≤ s.step) (ok-injective _ s h) (omega arith)
  parse_parts-rises value ((c ∷ base) ∷ digits ∷ []) s h =
      step_of-rises (c ∷ base) digits (atoi digits) s h
  parse_parts-rises value _ s h = absurd (ground (arith, h))

  parse_item-IsItem :
      (text : Text) (item : CronItem)
      → All (λ e. e.1 ≤ most) names
      → parse_item least most names text ≡ ok item
      → IsItem item
  unfolding parse_item parse_cron_step
  parse_item-IsItem [] item small h = absurd (ground (arith, h))
  parse_item-IsItem (c ∷ cs) item small h = elim (Result-cases (parse_cron_step (c ∷ cs))) [
    | inr (e, f) ↦ absurd (ground (arith, rw (f, parse_item) at h))
    | inl (s, f) ↦
        parse_base-IsItem s item small (parse_parts-rises (c ∷ cs) _ s f) (rw (f, parse_item) at h)
  ]

  fill_item-Filled :
      (item : CronItem) (field filled : CronField)
      → IsItem item
      → length field ≡ most + 1
      → fill_item item field ≡ some filled
      → Filled item.start item.end_value item.step field filled
  unfolding fill_item
  fill_item-Filled item field filled valid size h =
      fill-Filled (item.end_value + 2 - item.start) item.start item.end_value item.step field filled
        valid.rises (omega (arith, valid.fits, size)) (omega arith) h

  -- What the list adds to what was allowed.
  record Adds (texts : List Text) (field filled : CronField) (v : ℕ) : Type 0 where
    only : allows filled v ≡ true → (allows field v ≡ true) ⊎ IsListed v texts
    kept : allows field v ≡ true → allows filled v ≡ true
    listed : IsListed v texts → allows filled v ≡ true

  Adds-item :
      (text : Text) (texts : List Text) (field one_more filled : CronField) (v : ℕ)
      (item : CronItem)
      → parse_item least most names text ≡ ok item
      → Filled item.start item.end_value item.step field one_more
      → Adds texts one_more filled v
      → Adds (text ∷ texts) field filled v
  Adds-item text texts field one_more filled v item f one rest = record {
    only = λ a. elim (rest.only a) [
      | inr later ↦ inr (inr later)
      | inl set ↦ elim (one.only v set) [
        | inl old ↦ inl old
        | inr r ↦ inr (inl (record { item = item; parsed = f; reached = r }))
      ]
    ];
    kept = λ a. rest.kept (one.kept v a);
    listed = λ l. elim l [
      | inr later ↦ rest.listed later
      | inl r ↦ rest.kept (
          one.reached v (
            subst (λ i. IsReached i.start i.end_value i.step v)
              (ok-injective r.item item (sym r.parsed ∙ f)) r.reached))
    ];
  }

  parse_items-Adds :
      (texts : List Text) (field filled : CronField) (v : ℕ)
      → All (λ e. e.1 ≤ most) names
      → length field ≡ most + 1
      → parse_items least most names texts field ≡ ok filled
      → Adds texts field filled v
  unfolding parse_items
  parse_items-Adds [] field filled v small size h = ground arith
  parse_items-Adds (text ∷ texts) field filled v small size h =
      elim (Result-cases (parse_item least most names text)) [
        | inr (e, f) ↦ absurd (ground (arith, rw (f, parse_items) at h))
        | inl (item, f) ↦ elim (Option-cases (fill_item item field)) [
          | inl g ↦ absurd (ground (arith, rw (f, g, parse_items) at h))
          | inr (one_more, g) ↦
              let one =
                fill_item-Filled item field one_more (parse_item-IsItem text item small f) size g in
              Adds-item text texts field one_more filled v item f one (
                parse_items-Adds texts one_more filled v small (one.same_length ∙ size)
                  (rw (f, g, parse_items) at h))
        ]
      ]

  -- A value is allowed by a parsed field where an item of its list reaches it, and only there: from
  -- its start to its end in steps.
  pub parse_cron_field-IsListed :
      (value : Text) (field : CronField) (v : ℕ)
      → All (λ e. e.1 ≤ most) names
      → parse_cron_field least most names value ≡ ok field
      → (allows field v ≡ true) ↔ IsListed v (split 44 (upper value))
  unfolding parse_cron_field
  parse_cron_field-IsListed value field v small h =
      let adds =
        parse_items-Adds (split 44 (upper value)) (all_false (most + 1)) field v small
          (length-all_false (most + 1)) h in
      (
        λ a. elim (adds.only a) [
          | inr listed ↦ listed
          | inl old ↦ absurd (ground (arith, old, allows-all_false (most + 1) v))
        ],
        adds.listed,
      )
