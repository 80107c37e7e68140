-- ===== src/Migrations/Loading.antt =====
-- What Migrate and Rollback find in the history before they run anything,
-- backend/framework/migrations.go.
use bridra.Common.{
  ◌≡◌, refl, sym, ap, ◌∙◌, subst, inl, inr, Bool, true, false, Option, none, some, List, [], ◌∷◌,
  if◌then◌else◌, arith, Option-cases, Result-cases, ok, All, ok-injective,
}
use bridra.Common.Ordering.{find_by, sort_by, Distinct, same_text_sym}
use bridra.Migrations.Migration.{
  Migration, AppliedMigration, Error, Runner, version_of, record_version, is_set,
  migration_snapshot, malformed_history,
}
use bridra.Migrations.Engine.{MigrationStore, IsHistory}
use bridra.Migrations.Results.{Context, Outcome, is_malformed, validate_context}
use bridra.Migrations.Runner.{
  check_definition, check_history, check_applied, load_applied, with_history, refused,
}

module _ {D Cause : Type 0} (definitions : List (Migration D Cause)) where
  -- A row that loadApplied lets pass by itself.
  pub record IsKnown (r : AppliedMigration) : Type 0 where
    pub formed : is_malformed r ≡ false
    pub defined : check_definition r (find_by version_of r.version definitions) ≡ none

  past_option :
      (b : Bool) (e : Error Cause) (o : Option (Error Cause))
      → (if b then some e else o) ≡ none
      → (b ≡ false) × (o ≡ none)
  past_option true e o h = absurd (ground (arith, h))
  past_option false e o h = (refl, h)

  past_check :
      (o rest : Option (Error Cause))
      → (elim o [ some e ↦ some e | none ↦ rest ]) ≡ none
      → (o ≡ none) × (rest ≡ none)
  past_check none rest h = (refl, h)
  past_check (some e) rest h = absurd (ground (arith, h))

  pub check_history-IsKnown :
      (seen rows : List AppliedMigration)
      → check_history definitions seen rows ≡ none
      → All IsKnown rows
  unfolding check_history
  check_history-IsKnown seen [] h = tt
  check_history-IsKnown seen (r ∷ rows) h =
      let formed = past_option (is_malformed r) malformed_history _ h in
      let new = past_option (is_set (find_by record_version r.version seen)) _ _ formed.1 in
      let defined =
        past_check (check_definition r (find_by version_of r.version definitions)) _ new.1 in
      (
        record { formed = formed.0; defined = defined.0 },
        check_history-IsKnown (r ∷ seen) rows defined.1,
      )

  -- No version of the rows is among those seen.
  Apart : List AppliedMigration → List AppliedMigration → Type 0
  Apart seen rows = All (λ r. find_by record_version r.version seen ≡ none) rows

  Apart-seen :
      (r : AppliedMigration) (seen rows : List AppliedMigration)
      → find_by record_version r.version rows ≡ none
      → Apart seen rows
      → Apart (r ∷ seen) rows
  unfolding Apart find_by
  Apart-seen r seen [] h k = tt
  Apart-seen r seen (x ∷ rows) h k = (
    ground (arith, h, k.0, same_text_sym r.version x.version),
    Apart-seen r seen rows (ground (arith, h)) k.1,
  )

  check_history-passes :
      (seen rows : List AppliedMigration)
      → All IsKnown rows
      → Distinct record_version rows
      → Apart seen rows
      → check_history definitions seen rows ≡ none
  unfolding check_history Apart
  check_history-passes seen [] known distinct apart = refl
  check_history-passes seen (r ∷ rows) known distinct apart =
      rw (known.0.formed, apart.0, known.0.defined, check_history)
        (check_history-passes (r ∷ seen) rows known.1 distinct.1
          (Apart-seen r seen rows distinct.0 apart.1))

  Apart-nil : (rows : List AppliedMigration) → Apart [] rows
  unfolding Apart find_by
  Apart-nil [] = tt
  Apart-nil (r ∷ rows) = (refl, Apart-nil rows)

  -- Rows with distinct versions that are each known pass.
  pub check_history-none :
      (rows : List AppliedMigration)
      → All IsKnown rows
      → Distinct record_version rows
      → check_history definitions [] rows ≡ none
  check_history-none rows known distinct =
      check_history-passes [] rows known distinct (Apart-nil rows)

module _ {D Cause : Type 0} (store : MigrationStore D Cause) (rows : D → List AppliedMigration)
    (laws : IsHistory store rows) where
  load_applied-rows :
      (ms : List (Migration D Cause)) (d : D) → rows (load_applied store ms d).0 ≡ rows d
  unfolding load_applied
  load_applied-rows ms d = elim (Option-cases (store.ensure d).1) [
    | inl e ↦ rw (e, load_applied) (laws.ensured d)
    | inr (cause, e) ↦ rw (e, load_applied) (laws.ensured d)
  ]

  -- The rows that passed, and that they are those of the table, sorted.
  pub record Loaded (ms : List (Migration D Cause)) (d : D) (list : List AppliedMigration)
      : Type 0 where
    pub passed : check_history ms [] (rows d) ≡ none
    pub sorted : list ≡ sort_by record_version (rows d)

  check_applied-Loaded :
      (ms : List (Migration D Cause)) (d d' : D) (list : List AppliedMigration)
      → rows d' ≡ rows d
      → check_applied ms (store.applied d') ≡ ok list
      → Loaded ms d list
  unfolding check_applied
  check_applied-Loaded ms d d' list same h = elim (Result-cases (store.applied d')) [
    | inr (cause, e) ↦ absurd (ground (arith, e, h))
    | inl (found, e) ↦
        let here : found ≡ rows d = laws.listed d' found e ∙ same in
        elim (Option-cases (check_history ms [] found)) [
          | inr (failure, f) ↦ absurd (ground (arith, e, f, h))
          | inl f ↦ record {
            passed = subst (λ x. check_history ms [] x ≡ none) here f;
            sorted =
                sym
                  (ok-injective (sort_by record_version found) list (rw (e, f, check_applied) at h))
                ∙ ap (sort_by record_version) here;
          }
        ]
  ]

  load_applied-Loaded :
      (ms : List (Migration D Cause)) (d : D) (list : List AppliedMigration)
      → (load_applied store ms d).1 ≡ ok list
      → Loaded ms d list
  unfolding load_applied
  load_applied-Loaded ms d list h = elim (Option-cases (store.ensure d).1) [
    | inr (cause, e) ↦ absurd (ground (arith, e, h))
    | inl e ↦
        check_applied-Loaded ms d (store.ensure d).0 list (laws.ensured d)
          (rw (e, load_applied) at h)
  ]

  module _ {ℓ} (P : Outcome D Cause → Type ℓ) where
    -- What holds of every refusal and of what follows a load holds of Migrate and of Rollback.
    pub with_history-rule :
        (context : Context Cause) (runner : Runner D Cause) (d : D)
        (continue : List (Migration D Cause) → List AppliedMigration → D → Outcome D Cause)
        → ((e : Error Cause) (d' : D) → rows d' ≡ rows d → P (refused e d'))
        → ((list : List AppliedMigration) (d' : D)
            → rows d' ≡ rows d
            → Loaded (migration_snapshot runner) d list
            → P (continue (migration_snapshot runner) list d'))
        → P (with_history store context runner d continue)
    unfolding with_history
    with_history-rule context runner d continue refusal goes =
        elim (Option-cases (validate_context context)) [
          | inr (e, h) ↦ rw (h, with_history) (refusal e d refl)
          | inl h ↦
              let load = load_applied store (migration_snapshot runner) d in
              let same = load_applied-rows (migration_snapshot runner) d in
              elim (Result-cases load.1) [
                | inr (e, k) ↦ rw (h, k, with_history) (refusal e load.0 same)
                | inl (list, k) ↦
                    rw (h, k, with_history)
                      (goes list load.0 same
                        (load_applied-Loaded (migration_snapshot runner) d list k))
              ]
        ]
