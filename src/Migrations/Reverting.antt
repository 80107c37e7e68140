-- ===== src/Migrations/Reverting.antt =====
-- Rollback after Migrate, and Migrate twice, backend/framework/migrations.go.
use mathlib.Core.List.{append_assoc, append-nil}
use bridra.Common.{
  ℕ, ℤ, pos, negsuc, ◌≡◌, refl, sym, ap, ◌∙◌, subst, inl, inr, Bool, true, false, not, ◌||◌, Option,
  none, some, List, [], ◌∷◌, ◌++◌, map, if◌then◌else◌, ◌==◌, arith, Bool-cases, Option-cases,
  Result-cases, ok, ok-injective, past, All, keep_if,
}
use bridra.Common.Texts.{Text, same_text}
use bridra.Common.Ordering.{
  find_by, sort_by, Distinct, find_by-sort_by, sort_by-All, sort_by-Distinct, find_by-All,
  find_by-keep_if_passes,
}
use bridra.Migrations.Migration.{
  Migration, AppliedMigration, Direction, Runner, version_of, record_version, is_set,
  migration_snapshot, down_unavailable,
}
use bridra.Migrations.Engine.{
  MigrationStore, Transactions, IsTransactional, IsHistory, LeavesRows, invoke_migration,
}
use bridra.Migrations.Results.{
  Context, reverse_onto, latest_batch, is_batch, is_malformed, is_positive,
}
use bridra.Migrations.Runner.{run_turns, down_turn, down_of, collect_batch, rollback_from, rollback}
use bridra.Migrations.History.{changes, drop, row_at, IsTurn, revert_one-Makes, run_turns-changes}
use bridra.Migrations.Pending.{latest_batch-sort_by}
use bridra.Migrations.Loading.{with_history-rule, IsKnown, check_history-IsKnown}
use bridra.Migrations.Applying.{IsRan, IsRan-all, is_done, turn_row, run_turns-IsRan}

-- Removing the rows of a list leaves those of the other versions.
drops :
    (list : List AppliedMigration) (v : Text) (base : Option AppliedMigration)
    → changes drop list v base ≡ (if is_set (row_at v list) then none else base)
unfolding changes find_by
drops [] v base = refl
drops (x ∷ xs) v base =
    drops xs v (drop x v base) ∙ ground (arith, is_set (row_at v xs), same_text x.version v)

module _ (p : AppliedMigration → Bool) where
  reverse_onto-keep_if :
      (done xs : List AppliedMigration)
      → keep_if p (reverse_onto done xs) ≡ reverse_onto (keep_if p done) (keep_if p xs)
  unfolding keep_if
  reverse_onto-keep_if done [] = refl
  reverse_onto-keep_if done (x ∷ xs) = elim (Bool-cases (p x)) [
    | inl e ↦ rw (e, keep_if) (reverse_onto-keep_if (x ∷ done) xs ∙ rw (e, keep_if) refl)
    | inr e ↦ rw (e, keep_if) (reverse_onto-keep_if (x ∷ done) xs ∙ rw (e, keep_if) refl)
  ]

has-reverse_onto :
    (v : Text) (done xs : List AppliedMigration)
    → is_set (row_at v (reverse_onto done xs)) ≡ (is_set (row_at v xs) || is_set (row_at v done))
unfolding find_by
has-reverse_onto v done [] = refl
has-reverse_onto v done (x ∷ xs) =
    has-reverse_onto v (x ∷ done) xs ∙ ground (arith, is_set (row_at v xs))

abbrev in_batch : ℕ → AppliedMigration → Bool
in_batch n r = is_batch n r.batch

-- Whether the row that is there belongs to a batch.
abbrev row_in_batch : ℕ → Option AppliedMigration → Bool
row_in_batch n none = false
row_in_batch n (some r) = in_batch n r

in_batch_zero : (r : AppliedMigration) → in_batch 0 r ≡ true → is_positive r.batch ≡ false
in_batch_zero r h = batch_zero r.batch h
  where
    batch_zero : (b : ℤ) → is_batch 0 b ≡ true → is_positive b ≡ false
    batch_zero (pos n) h = ground (arith, h)
    batch_zero (negsuc n) h = absurd (ground (arith, h))

-- The row of a version without those of a batch.
unfoldable pub without_batch : ℕ → Option AppliedMigration → Option AppliedMigration
without_batch n base = if row_in_batch n base then none else base

set_where :
    (n : ℕ) (o : Option AppliedMigration)
    → is_set (elim o [ none ↦ none | some x ↦ if in_batch n x then some x else none ])
      ≡ row_in_batch n o
set_where n none = refl
set_where n (some x) = ground (arith, in_batch n x)

-- The rows that Rollback collects have the versions whose row belongs to the batch.
has-batch :
    (n : ℕ) (v : Text) (rows : List AppliedMigration)
    → Distinct record_version rows
    → is_set (row_at v (keep_if (in_batch n) (reverse_onto [] (sort_by record_version rows))))
      ≡ row_in_batch n (row_at v rows)
unfolding keep_if find_by
has-batch n v rows distinct =
    let sorted = sort_by record_version rows in
    ap (λ l. is_set (row_at v l)) (reverse_onto-keep_if (in_batch n) [] sorted)
    ∙ has-reverse_onto v [] (keep_if (in_batch n) sorted)
    ∙ or_false (is_set (row_at v (keep_if (in_batch n) sorted)))
    ∙ ap is_set (
        find_by-keep_if_passes record_version (in_batch n) v sorted
          (sort_by-Distinct record_version rows distinct))
    ∙ set_where n (row_at v sorted)
    ∙ ap (row_in_batch n) (find_by-sort_by record_version v rows)
  where
    or_false : (b : Bool) → (b || false) ≡ b
    or_false b = ground arith

module _ {D Cause : Type 0} (definitions : List (Migration D Cause)) where
  formed-positive :
      (r : AppliedMigration) → is_malformed r ≡ false → row_in_batch 0 (some r) ≡ false
  formed-positive r h = elim (Bool-cases (in_batch 0 r)) [
    | inr e ↦ e
    | inl e ↦ absurd (ground (arith, in_batch_zero r e, h))
  ]

  known-positive :
      (list : List AppliedMigration) (v : Text)
      → All (IsKnown definitions) list
      → row_in_batch 0 (row_at v list) ≡ false
  known-positive list v h = elim (Option-cases (row_at v list)) [
    | inl e ↦ ap (row_in_batch 0) e
    | inr (r, e) ↦
        ap (row_in_batch 0) e
        ∙ formed-positive r (find_by-All record_version (IsKnown definitions) v r list h e).formed
  ]

module _ {D Cause : Type 0} (definitions : List (Migration D Cause)) (latest : ℕ) where
  collect_batch-rows :
      (collected rows batch : List AppliedMigration)
      → collect_batch definitions latest collected rows ≡ ok batch
      → batch ≡ collected ++ keep_if (in_batch latest) rows
  unfolding collect_batch keep_if
  collect_batch-rows collected [] batch h =
      sym (ok-injective collected batch h) ∙ sym (append-nil collected)
  collect_batch-rows collected (r ∷ rows) batch h = elim (Bool-cases (is_batch latest r.batch)) [
    | inr e ↦ rw (e, keep_if) (collect_batch-rows collected rows batch (rw (e, collect_batch) at h))
    | inl e ↦
        let found =
          past (not (is_set (down_of (find_by version_of r.version definitions))))
            (down_unavailable r.version) _ batch (rw (e, collect_batch) at h) in
        rw (e, keep_if)
          (collect_batch-rows (collected ++ r ∷ []) rows batch found.1
            ∙ append_assoc collected (r ∷ []) (keep_if (in_batch latest) rows))
  ]

  down_turns-rows :
      (store : MigrationStore D Cause) (list : List AppliedMigration)
      → map turn_row (map (down_turn store definitions) list) ≡ list
  unfolding down_turn
  down_turns-rows store [] = refl
  down_turns-rows store (r ∷ list) = ap (λ l. r ∷ l) (down_turns-rows store list)

module _ {D Cause : Type 0} (rows : D → List AppliedMigration) where
  down_of-LeavesRows :
      (ms : List (Migration D Cause)) (v : Text)
      → All (λ m. LeavesRows rows m.down) ms
      → LeavesRows rows (down_of (find_by version_of v ms))
  unfolding find_by invoke_migration
  down_of-LeavesRows [] v h = λ d. refl
  down_of-LeavesRows (m ∷ ms) v h = elim (Bool-cases (same_text m.version v)) [
    | inl e ↦ rw (e, find_by) h.0
    | inr e ↦ rw (e, find_by) (down_of-LeavesRows ms v h.1)
  ]

  module _ (sql : Transactions D Cause) (transactional : IsTransactional sql)
      (store : MigrationStore D Cause) (laws : IsHistory store rows) where
    down_turns-IsTurn :
        (ms : List (Migration D Cause)) (list : List AppliedMigration)
        → All (λ m. LeavesRows rows m.down) ms
        → All (IsTurn rows sql transactional drop) (map (down_turn store ms) list)
    unfolding down_turn
    down_turns-IsTurn ms [] h = tt
    down_turns-IsTurn ms (r ∷ list) h = (
      revert_one-Makes rows store laws (down_of (find_by version_of r.version ms)) r
          (down_of-LeavesRows ms r.version h),
      down_turns-IsTurn ms list h,
    )

    -- The loop of Rollback over a batch, where it returns no error.
    run_batch :
        (ms : List (Migration D Cause)) (latest : ℕ) (batch : List AppliedMigration) (d : D)
        (v : Text)
        → All (λ m. LeavesRows rows m.down) ms
        → (run_turns sql Direction.down (pos latest) (map (down_turn store ms) batch) d).error
          ≡ none
        → row_at v (
            rows
              (run_turns sql Direction.down
                (pos latest)
                (map (down_turn store ms) batch)
                d).database)
          ≡ (if is_set (row_at v batch) then none else row_at v (rows d))
    run_batch ms latest batch d v leaves h =
        let turns = map (down_turn store ms) batch in
        let out = run_turns sql Direction.down (pos latest) turns d in
        let all_ran = IsRan-all _ _ (
          subst (λ e. IsRan (is_done e) out.result.rows (map turn_row turns)) h
            (run_turns-IsRan sql Direction.down (pos latest) turns d)) in
        run_turns-changes rows sql transactional drop Direction.down (pos latest) turns d v
          (down_turns-IsTurn ms batch leaves)
        ∙ ap (λ l. changes drop l v (row_at v (rows d)))
            (all_ran ∙ down_turns-rows ms latest store batch)
        ∙ drops batch v (row_at v (rows d))

    rollback_from-removes :
        (ms : List (Migration D Cause)) (d : D) (v : Text)
        → All (λ m. LeavesRows rows m.down) ms
        → (latest_batch (rows d) ≡ 0 → row_in_batch 0 (row_at v (rows d)) ≡ false)
        → (rollback_from sql store ms (sort_by record_version (rows d)) d).error ≡ none
        → row_at v (rows (rollback_from sql store ms (sort_by record_version (rows d)) d).database)
          ≡ without_batch (latest_batch (rows d)) (row_at v (rows d))
    unfolding rollback_from without_batch
    rollback_from-removes ms d v leaves positive h =
        let sorted = sort_by record_version (rows d) in
        let base = row_at v (rows d) in
        let same = latest_batch-sort_by (rows d) in
        elim (Bool-cases (latest_batch sorted == 0)) [
          | inl e ↦
              let none_yet : latest_batch (rows d) ≡ 0 = sym same ∙ ground (arith, e) in
              rw (e, rollback_from)
                (sym (ap (λ n. without_batch n base) none_yet ∙ rw (positive none_yet) refl))
          | inr e ↦
              elim (Result-cases
                (collect_batch ms (latest_batch sorted) [] (reverse_onto [] sorted))) [
                  | inr (failure, f) ↦ absurd (ground (arith, rw (e, f, rollback_from) at h))
                  | inl (batch, f) ↦
                      rw (e, f, rollback_from)
                        (run_batch ms (latest_batch sorted) batch d v leaves
                            (rw (e, f, rollback_from) at h)
                          ∙ ap (λ l. if is_set (row_at v l) then none else base)
                              (collect_batch-rows ms (latest_batch sorted) []
                                (reverse_onto [] sorted) batch f)
                          ∙ ap (λ b. if b then none else base)
                              (has-batch (latest_batch sorted) v (rows d) (laws.keyed d))
                          ∙ ap (λ n. without_batch n base) same)
                ]
        ]

    -- Where Rollback returns no error, it has removed the rows of the latest batch and no others.
    pub rollback_complete :
        (context : Context Cause) (runner : Runner D Cause) (d : D) (v : Text)
        → All (λ m. LeavesRows rows m.down) runner.migrations
        → (rollback sql store context runner d).error ≡ none
        → row_at v (rows (rollback sql store context runner d).database)
          ≡ without_batch (latest_batch (rows d)) (row_at v (rows d))
    unfolding rollback migration_snapshot
    rollback_complete context runner d v leaves =
        with_history-rule store rows laws
          (λ out.
            out.error ≡ none
            → row_at v (rows out.database)
              ≡ without_batch (latest_batch (rows d)) (row_at v (rows d)))
          context runner d (rollback_from sql store) (λ e d' same h. absurd (ground (arith, h)))
          (λ list d' same loaded.
            let ms = migration_snapshot runner in
            subst
              (λ l.
                (rollback_from sql store ms l d').error ≡ none
                → row_at v (rows (rollback_from sql store ms l d').database)
                  ≡ without_batch (latest_batch (rows d)) (row_at v (rows d)))
              (sym (loaded.sorted ∙ ap (sort_by record_version) (sym same)))
              (λ h.
                rollback_from-removes ms d' v
                  (sort_by-All version_of (λ m. LeavesRows rows m.down) runner.migrations leaves)
                  (λ e.
                    ap (λ x. row_in_batch 0 (row_at v x)) same
                    ∙ known-positive ms (rows d) v
                        (check_history-IsKnown ms [] (rows d) loaded.passed))
                  h
                ∙ ap (λ x. without_batch (latest_batch x) (row_at v x)) same))
