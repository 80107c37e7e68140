-- ===== src/Migrations/Table.antt =====
-- A database with a table of applied migrations and a number of other tables, as an instance of what
-- the runner of backend/framework/migrations.go stands on.
use bridra.Common.{
  ℕ, ◌≡◌, refl, sym, ap, ◌∙◌, ◌⊎◌, inl, inr, Bool, not, Option, none, some, List, ◌∷◌,
  if◌then◌else◌, ok, ok-injective, arith, keep_if,
}
use bridra.Common.Texts.{Text, same_text, same_text→eq}
use bridra.Common.Ordering.{find_by, Distinct, same_text_sym}
use bridra.Migrations.Migration.{AppliedMigration, record_version}
use bridra.Migrations.Engine.{MigrationStore, Transactions, IsTransactional, IsHistory}
use bridra.Migrations.History.{row_at}
use bridra.Migrations.Pending.{keep_if-Distinct, find_by-keep_if}

-- The version is the primary key.
abbrev pub Table : Type 0
Table = (list : List AppliedMigration) × Distinct record_version list

abbrev pub Database : Type 0
Database = Table × ℕ

abbrev pub rows_of : Database → List AppliedMigration
rows_of d = d.0.0

abbrev row_cases :
    (o : Option AppliedMigration) → (o ≡ none) ⊎ ((a : AppliedMigration) × (o ≡ some a))
row_cases none = inl refl
row_cases (some a) = inr (a, refl)

abbrev add_row :
    (row : AppliedMigration) (d : Database)
    → (row_at row.version (rows_of d) ≡ none)
      ⊎ ((a : AppliedMigration) × (row_at row.version (rows_of d) ≡ some a))
    → Database × Option ℕ
add_row row d (inl e) = (((row ∷ rows_of d, (e, d.0.1)), d.1), none)
add_row row d (inr found) = (d, some 23505)

abbrev other_than : Text → AppliedMigration → Bool
other_than version r = not (same_text r.version version)

abbrev drop_row : Text → Database → Database × Option ℕ
drop_row version d = (
  (
    (
      keep_if (other_than version) (rows_of d),
      keep_if-Distinct record_version (other_than version) (rows_of d) d.0.1,
    ),
    d.1,
  ),
  none,
)

abbrev pub table_store : MigrationStore Database ℕ
table_store = record {
  ensure = λ d. (d, none);
  applied = λ d. ok (rows_of d);
  record_row = λ row d. add_row row d (row_cases (row_at row.version (rows_of d)));
  remove_row = drop_row;
}

abbrev pub snapshots : Transactions Database ℕ
snapshots = record {
  begin = λ d. none;
  commit = λ d inside. (inside, none);
  rollback = λ d inside. (d, none);
}

pub snapshots-IsTransactional : IsTransactional snapshots
snapshots-IsTransactional = record {
  committed = λ d inside d' h. sym (ap (λ s. s.0) h);
  not_committed = λ d inside d' cause h. absurd (ground (arith, h));
  rolled_back = λ d inside. refl;
}

add_row-recorded :
    (row : AppliedMigration) (d d' : Database) (v : Text)
    (found : (row_at row.version (rows_of d) ≡ none)
      ⊎ ((a : AppliedMigration) × (row_at row.version (rows_of d) ≡ some a)))
    → add_row row d found ≡ (d', none)
    → row_at v (rows_of d') ≡ (if same_text row.version v then some row else row_at v (rows_of d))
unfolding find_by
add_row-recorded row d d' v (inl e) h = ap (λ s. row_at v (rows_of s.0)) (sym h)
add_row-recorded row d d' v (inr f) h = absurd (ground (arith, ap (λ s. s.1) h))

add_row_failed :
    (row : AppliedMigration) (d d' : Database) (cause : ℕ)
    (found : (row_at row.version (rows_of d) ≡ none)
      ⊎ ((a : AppliedMigration) × (row_at row.version (rows_of d) ≡ some a)))
    → add_row row d found ≡ (d', some cause)
    → rows_of d' ≡ rows_of d
add_row_failed row d d' cause (inl e) h = absurd (ground (arith, ap (λ s. s.1) h))
add_row_failed row d d' cause (inr f) h = ap (λ s. rows_of s.0) (sym h)

drop_row-removed :
    (version v : Text) (d : Database)
    → row_at v (keep_if (other_than version) (rows_of d))
      ≡ (if same_text version v then none else row_at v (rows_of d))
drop_row-removed version v d =
    find_by-keep_if record_version (other_than version) v (not (same_text version v)) (rows_of d)
      (λ x h.
        ap not
          (ap (λ t. same_text t version) (same_text→eq x.version v h) ∙ same_text_sym v version))
    ∙ ground arith

pub table_store-IsHistory : IsHistory table_store rows_of
table_store-IsHistory = record {
  keyed = λ d. d.0.1;
  ensured = λ d. refl;
  listed = λ d list h. sym (ok-injective (rows_of d) list h);
  recorded =
      λ d d' row v h. add_row-recorded row d d' v (row_cases (row_at row.version (rows_of d))) h;
  not_recorded = λ d d' row cause h.
      add_row_failed row d d' cause (row_cases (row_at row.version (rows_of d))) h;
  removed =
      λ d d' version v h. ap (λ s. row_at v (rows_of s.0)) (sym h) ∙ drop_row-removed version v d;
  not_removed = λ d d' version cause h. absurd (ground (arith, ap (λ s. s.1) h));
}
