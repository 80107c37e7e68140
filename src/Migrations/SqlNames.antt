-- ===== src/Migrations/SqlNames.antt =====
-- Which table names and placeholders a store of backend/framework/migration_store.go has, and which
-- rows it reads.
use bridra.Common.{
  subst, ℕ, ◌≤◌, ◌≡◌, ◌⊎◌, ◌↔◌, inl, inr, refl, ap, sym, ◌∙◌, true, not, ◌||◌, Option, none, some,
  [], ◌∷◌, All, arith, Bool-cases, if◌then◌else◌,
}
use bridra.Common.Texts.{Text, codes}
use bridra.Migrations.Migration.{is_empty}
use bridra.Migrations.SqlStore.{
  PlaceholderStyle, no_style, question_mark, dollar, other_style, SqlMigrationStore,
  are_identifier_codes, valid_sql_identifier, new_sql_migration_store, style_or_default,
  is_known_style,
}

abbrev pub IsLetter : ℕ → Type 0
IsLetter c = ((97 ≤ c) × (c ≤ 122)) ⊎ (((65 ≤ c) × (c ≤ 90)) ⊎ (c ≡ 95))

abbrev pub IsDigit : ℕ → Type 0
IsDigit c = (48 ≤ c) × (c ≤ 57)

-- A letter or an underscore, and then letters, underscores and digits.
abbrev pub IsIdentifier : Text → Type 0
IsIdentifier t =
    (c : ℕ) × (cs : Text) × (t ≡ c ∷ cs) × IsLetter c × All (λ d. IsLetter d ⊎ IsDigit d) cs

are_identifier_codes-All :
    (cs : Text) → are_identifier_codes true cs ≡ true → All (λ d. IsLetter d ⊎ IsDigit d) cs
unfolding are_identifier_codes
are_identifier_codes-All [] h = tt
are_identifier_codes-All (c ∷ cs) h =
    (ground (arith, h), are_identifier_codes-All cs (ground (arith, h)))

All-are_identifier_codes :
    (cs : Text) → All (λ d. IsLetter d ⊎ IsDigit d) cs → are_identifier_codes true cs ≡ true
unfolding are_identifier_codes
All-are_identifier_codes [] h = refl
All-are_identifier_codes (c ∷ cs) (first, rest) =
    ground (arith, All-are_identifier_codes cs rest, first)

valid_sql_identifier-IsIdentifier : (t : Text) → valid_sql_identifier t ≡ true → IsIdentifier t
unfolding valid_sql_identifier are_identifier_codes
valid_sql_identifier-IsIdentifier [] h = absurd (ground (arith, h))
valid_sql_identifier-IsIdentifier (c ∷ cs) h =
    (c, cs, refl, ground (arith, h), are_identifier_codes-All cs (ground (arith, h)))

IsIdentifier-valid_sql_identifier : (t : Text) → IsIdentifier t → valid_sql_identifier t ≡ true
unfolding valid_sql_identifier are_identifier_codes
IsIdentifier-valid_sql_identifier t (c, cs, e, first, rest) =
    rw e (ground (arith, All-are_identifier_codes cs rest, first))

abbrev pub IsKnown : PlaceholderStyle → Type 0
IsKnown style = (style ≡ question_mark) ⊎ (style ≡ dollar)

is_known_style-IsKnown : (style : PlaceholderStyle) → is_known_style style ≡ true → IsKnown style
is_known_style-IsKnown no_style h = absurd (ground (arith, h))
is_known_style-IsKnown question_mark h = inl refl
is_known_style-IsKnown dollar h = inr refl
is_known_style-IsKnown (other_style name) h = absurd (ground (arith, h))

IsKnown-is_known_style : (style : PlaceholderStyle) → IsKnown style → is_known_style style ≡ true
IsKnown-is_known_style style (inl e) = ap is_known_style e
IsKnown-is_known_style style (inr e) = ap is_known_style e

-- The store has the table and the style of the options, or the defaults where these are empty.
pub record Accepts (options s : SqlMigrationStore) : Type 0 where
  pub table_given :
      (options.table ≡ s.table) ⊎ ((options.table ≡ []) × (s.table ≡ codes "bridra_migrations"))
  pub style_given :
      (options.placeholder_style ≡ s.placeholder_style)
      ⊎ ((options.placeholder_style ≡ no_style) × (s.placeholder_style ≡ question_mark))
  pub identifier : IsIdentifier s.table
  pub known : IsKnown s.placeholder_style

abbrev made_from : Text → PlaceholderStyle → Option SqlMigrationStore
made_from table style =
    if not (valid_sql_identifier table) || not (is_known_style style)
    then none
    else some (record { table = table; placeholder_style = style })

some-injective :
    (a b : SqlMigrationStore) → ◌≡◌ {A = Option SqlMigrationStore} (some a) (some b) → a ≡ b
some-injective a b h = cc

made_from-some :
    (table : Text) (style : PlaceholderStyle) (s : SqlMigrationStore)
    → made_from table style ≡ some s
    → (table ≡ s.table)
      × (style ≡ s.placeholder_style)
      × (valid_sql_identifier table ≡ true)
      × (is_known_style style ≡ true)
made_from-some table style s h = elim (Bool-cases (valid_sql_identifier table)) [
  | inr invalid ↦ absurd (ground (arith, rw invalid at h))
  | inl valid ↦ elim (Bool-cases (is_known_style style)) [
    | inr unknown ↦ absurd (ground (arith, rw (valid, unknown) at h))
    | inl known ↦
        let same = some-injective _ _ (rw (valid, known) at h) in
        (ap (λ x. x.table) same, ap (λ x. x.placeholder_style) same, valid, known)
  ]
]

some-made_from :
    (s : SqlMigrationStore)
    → IsIdentifier s.table
    → IsKnown s.placeholder_style
    → made_from s.table s.placeholder_style ≡ some s
some-made_from s identifier known =
    rw
      (
        IsIdentifier-valid_sql_identifier s.table identifier,
        IsKnown-is_known_style s.placeholder_style known,
      )
      refl

abbrev table_or_default : Text → Text
table_or_default table = if is_empty table then codes "bridra_migrations" else table

table_or_default-cases :
    (table : Text)
    → (table ≡ table_or_default table)
      ⊎ ((table ≡ []) × (table_or_default table ≡ codes "bridra_migrations"))
table_or_default-cases [] = inr (refl, refl)
table_or_default-cases (c ∷ cs) = inl refl

style_or_default-cases :
    (style : PlaceholderStyle)
    → (style ≡ style_or_default style)
      ⊎ ((style ≡ no_style) × (style_or_default style ≡ question_mark))
style_or_default-cases no_style = inr (refl, refl)
style_or_default-cases question_mark = inl refl
style_or_default-cases dollar = inl refl
style_or_default-cases (other_style name) = inl refl

table_or_default-given :
    (given table : Text)
    → IsIdentifier table
    → (given ≡ table) ⊎ ((given ≡ []) × (table ≡ codes "bridra_migrations"))
    → table_or_default given ≡ table
table_or_default-given given table (c, cs, e, first, rest) (inl same) =
    ap table_or_default (same ∙ e) ∙ sym e
table_or_default-given given table identifier (inr (empty, standard)) =
    ap table_or_default empty ∙ sym standard

style_or_default-given :
    (given style : PlaceholderStyle)
    → IsKnown style
    → (given ≡ style) ⊎ ((given ≡ no_style) × (style ≡ question_mark))
    → style_or_default given ≡ style
style_or_default-given given style (inl e) (inl same) = ap style_or_default (same ∙ e) ∙ sym e
style_or_default-given given style (inr e) (inl same) = ap style_or_default (same ∙ e) ∙ sym e
style_or_default-given given style known (inr (empty, standard)) =
    ap style_or_default empty ∙ sym standard

new-made_from :
    (options : SqlMigrationStore)
    → new_sql_migration_store options
      ≡ made_from (table_or_default options.table) (style_or_default options.placeholder_style)
unfolding new_sql_migration_store
new-made_from options = refl

-- NewSQLMigrationStore makes a store exactly where it has the table and the placeholder style of the
-- options, or the default where one of them is empty, the table's name is a letter or an underscore
-- followed by letters, underscores and digits, and the style is one of the two that are known.
pub new_sql_migration_store_iff :
    (options s : SqlMigrationStore) → (new_sql_migration_store options ≡ some s) ↔ Accepts options s
new_sql_migration_store_iff options s = (
  λ h.
      let (table, style, valid, known) = made_from-some _ _ s (sym (new-made_from options) ∙ h) in
      record {
        table_given =
            subst
              (λ t. (options.table ≡ t) ⊎ ((options.table ≡ []) × (t ≡ codes "bridra_migrations")))
              table (table_or_default-cases options.table);
        style_given =
            subst
              (λ t.
                (options.placeholder_style ≡ t)
                ⊎ ((options.placeholder_style ≡ no_style) × (t ≡ question_mark)))
              style (style_or_default-cases options.placeholder_style);
        identifier = subst IsIdentifier table (valid_sql_identifier-IsIdentifier _ valid);
        known = subst IsKnown style (is_known_style-IsKnown _ known);
      },
  λ a.
      new-made_from options
      ∙ ap (λ t. made_from t (style_or_default options.placeholder_style))
          (table_or_default-given options.table s.table a.identifier a.table_given)
      ∙ ap (made_from s.table) (
          style_or_default-given options.placeholder_style s.placeholder_style a.known
            a.style_given)
      ∙ some-made_from s a.identifier a.known,
)
