-- ===== src/Migrations/SqlRead.antt =====
-- Which rows Applied of backend/framework/migration_store.go returns.
use bridra.Common.{
  ◌≡◌, ◌↔◌, inl, inr, refl, ap, sym, ◌∙◌, none, List, [], ◌∷◌, ◌++◌, Result, ok, err, map,
  Option-cases, Result-cases, ok-injective, arith,
}
use bridra.Common.Texts.{codes}
use bridra.Migrations.Migration.{AppliedMigration}
use bridra.Migrations.SqlStore.{
  SqlMigrationStore, SqlRows, SqlExecutor, scan_rows, read_applied, sql_store, applied_statement,
  concat,
}

module _ {Cause : Type 0} where
  -- A query whose rows were all scanned, to the list's elements in order, with no error of Err and
  -- none of Close.
  pub record ReadWhole (answer : Result Cause (SqlRows Cause)) (list : List AppliedMigration)
      : Type 0 where
    pub rows : SqlRows Cause
    pub answered : answer ≡ ok rows
    pub scanned : rows.scans ≡ map (λ row. ok row) list
    pub iterated : rows.iteration_error ≡ none
    pub closed : rows.close_error ≡ none

  scan_rows-map :
      (list : List AppliedMigration)
      → scan_rows {Cause = Cause} (map (λ row. ok row) list) ≡ ok list
  unfolding scan_rows
  scan_rows-map [] = refl
  scan_rows-map (row ∷ list) = rw (scan_rows-map list) refl

  scan_rows-ok :
      (scans : List (Result Cause AppliedMigration)) (list : List AppliedMigration)
      → scan_rows scans ≡ ok list
      → scans ≡ map (λ row. ok row) list
  unfolding scan_rows
  scan_rows-ok [] list h = rw (sym (ok-injective _ _ h)) refl
  scan_rows-ok (err e ∷ rest) list h = absurd (ground (arith, h))
  scan_rows-ok (ok row ∷ rest) list h = elim (Result-cases (scan_rows rest)) [
    | inl (tail, e) ↦
        let same : row ∷ tail ≡ list = ok-injective _ _ (rw e at h) in
        ap (λ l. ok row ∷ l) (scan_rows-ok rest tail e) ∙ ap (map (λ row. ok row)) same
    | inr (cause, e) ↦ absurd (ground (arith, rw e at h))
  ]

  read_applied-ReadWhole :
      (answer : Result Cause (SqlRows Cause)) (list : List AppliedMigration)
      → read_applied answer ≡ ok list
      → ReadWhole answer list
  unfolding read_applied
  read_applied-ReadWhole (err e) list h = absurd (ground (arith, h))
  read_applied-ReadWhole (ok rows) list h = elim (Result-cases (scan_rows rows.scans)) [
    | inr (cause, e) ↦ absurd (ground (arith, rw (e, read_applied) at h))
    | inl (scanned, e) ↦ elim (Option-cases rows.iteration_error) [
      | inr (cause, f) ↦ absurd (ground (arith, rw (e, f, read_applied) at h))
      | inl f ↦ elim (Option-cases rows.close_error) [
        | inr (cause, g) ↦ absurd (ground (arith, rw (e, f, g, read_applied) at h))
        | inl g ↦ record {
          rows = rows;
          answered = refl;
          scanned =
              scan_rows-ok rows.scans list
                (e ∙ ap (λ l. ok l) (ok-injective _ _ (rw (e, f, g, read_applied) at h)));
          iterated = f;
          closed = g;
        }
      ]
    ]
  ]

  ReadWhole-read_applied :
      (answer : Result Cause (SqlRows Cause)) (list : List AppliedMigration)
      → ReadWhole answer list
      → read_applied answer ≡ ok list
  unfolding read_applied
  ReadWhole-read_applied answer list w =
      rw (w.answered, read_applied, w.scanned, scan_rows-map list, w.iterated, w.closed) refl

  -- Applied returns a list exactly where the database answers the query for the version, the name and
  -- the batch of the store's table, ordered by version, with rows that are all scanned, to the
  -- elements of the list in order, and neither the iteration nor Close has an error.
  pub sql_store-applied_iff :
      {D : Type 0} (s : SqlMigrationStore) (executor : SqlExecutor D Cause) (d : D)
      (list : List AppliedMigration)
      → ((sql_store s executor).applied d ≡ ok list)
        ↔ ReadWhole
            (executor.query
              (codes "SELECT version, name, batch FROM "
                ++ (s.table ++ codes " ORDER BY version ASC"))
              d)
            list
  unfolding sql_store applied_statement concat
  sql_store-applied_iff s executor d list =
      (λ h. read_applied-ReadWhole _ list h, λ w. ReadWhole-read_applied _ list w)
