-- ===== src/Migrations/History.antt =====
-- The table of the history under the turns of Migrate and Rollback, backend/framework/migrations.go.
use bridra.Common.{
  ◌≡◌, refl, ap, ◌∙◌, inl, inr, Bool, true, false, Option, none, some, List, [], ◌∷◌, if◌then◌else◌,
  arith, Option-cases, ℤ,
}
use bridra.Common.Texts.{Text, same_text}
use bridra.Common.Ordering.{find_by}
use bridra.Common.{All}
use bridra.Migrations.Migration.{
  AppliedMigration, Direction, Error, Callback, record_version, store_failed, record_applied,
  remove, commit_failed,
}
use bridra.Migrations.Engine.{
  MigrationStore, Transactions, Step, execute, apply_one, revert_one, and_then, wrap, roll_back,
  finish, within_transaction, invoke_migration, IsTransactional, IsHistory, LeavesRows,
}
use bridra.Migrations.Results.{Turn}
use bridra.Migrations.Runner.{run_turns}

-- What an operation does to the row of a version: `put` records one, `drop` removes it.
abbrev pub Change : Type 0
Change = AppliedMigration → Text → Option AppliedMigration → Option AppliedMigration

abbrev pub put : Change
put row v base = if same_text row.version v then some row else base

abbrev pub drop : Change
drop row v base = if same_text row.version v then none else base

-- The changes for the rows of a list, one after the other.
unfoldable pub changes :
    Change → List AppliedMigration → Text → Option AppliedMigration → Option AppliedMigration
changes change [] v base = base
changes change (r ∷ rs) v base = changes change rs v (change r v base)

abbrev pub row_at : Text → List AppliedMigration → Option AppliedMigration
row_at v rows = find_by record_version v rows

module _ {D Cause : Type 0} (rows : D → List AppliedMigration) where
  -- A step from `d` makes the change for a row, or fails and leaves the table as it is.
  abbrev pub Makes : Change → AppliedMigration → D → Step D Cause → Type 0
  Makes change row d (d', some e) = rows d' ≡ rows d
  Makes change row d (d', none) = (v : Text) → row_at v (rows d') ≡ change row v (row_at v (rows d))

  Makes-done :
      (change : Change) (row : AppliedMigration) (d : D) (step : Step D Cause) (v : Text)
      → step.1 ≡ none
      → Makes change row d step
      → row_at v (rows step.0) ≡ change row v (row_at v (rows d))
  Makes-done change row d (d', none) v e h = h v
  Makes-done change row d (d', some f) v e h = absurd (ground (arith, e))

  Makes-failed :
      (change : Change) (row : AppliedMigration) (d : D) (step : Step D Cause) (f : Error Cause)
      → step.1 ≡ some f
      → Makes change row d step
      → rows step.0 ≡ rows d
  Makes-failed change row d (d', some g) f e h = h
  Makes-failed change row d (d', none) f e h = absurd (ground (arith, e))

  Makes-from :
      (change : Change) (row : AppliedMigration) (d d' : D) (step : Step D Cause)
      → rows d' ≡ rows d
      → Makes change row d' step
      → Makes change row d step
  Makes-from change row d d' (e, some f) same h = h ∙ same
  Makes-from change row d d' (e, none) same h =
      λ v. h v ∙ ap (λ list. change row v (row_at v list)) same

  and_then-Makes :
      (change : Change) (row : AppliedMigration) (d : D) (step : Step D Cause)
      (next : D → Step D Cause)
      → rows step.0 ≡ rows d
      → ((d' : D) → Makes change row d' (next d'))
      → Makes change row d (and_then step next)
  unfolding and_then
  and_then-Makes change row d (d', some e) next same h = same
  and_then-Makes change row d (d', none) next same h =
      Makes-from change row d d' (next d') same (h d')

  wrap-Makes :
      (change : Change) (row : AppliedMigration) (d : D) (as_error : Cause → Error Cause)
      (step : D × Option Cause)
      → ((d' : D) (v : Text)
          → step ≡ (d', none)
          → row_at v (rows d') ≡ change row v (row_at v (rows d)))
      → ((d' : D) (cause : Cause) → step ≡ (d', some cause) → rows d' ≡ rows d)
      → Makes change row d (wrap as_error step)
  unfolding wrap
  wrap-Makes change row d as_error (d', none) done stayed = λ v. done d' v refl
  wrap-Makes change row d as_error (d', some cause) done stayed = stayed d' cause refl

  module _ (store : MigrationStore D Cause) (laws : IsHistory store rows) where
    pub apply_one-Makes :
        (callback : Option (Callback D Cause)) (row : AppliedMigration)
        → LeavesRows rows callback
        → (d : D) → Makes put row d (apply_one store callback row d)
    unfolding apply_one
    apply_one-Makes callback row leaves d =
        and_then-Makes put row d (invoke_migration callback d) _ (leaves d) (λ d'.
          wrap-Makes put row d' (store_failed record_applied) (store.record_row row d')
            (λ e v h. laws.recorded d' e row v h) (λ e cause h. laws.not_recorded d' e row cause h))

    pub revert_one-Makes :
        (callback : Option (Callback D Cause)) (row : AppliedMigration)
        → LeavesRows rows callback
        → (d : D) → Makes drop row d (revert_one store callback row d)
    unfolding revert_one
    revert_one-Makes callback row leaves d =
        and_then-Makes drop row d (invoke_migration callback d) _ (leaves d) (λ d'.
          wrap-Makes drop row d' (store_failed remove) (store.remove_row row.version d')
            (λ e v h. laws.removed d' e row.version v h)
            (λ e cause h. laws.not_removed d' e row.version cause h))

  module _ (sql : Transactions D Cause) (transactional : IsTransactional sql) where
    roll_back-Makes :
        (change : Change) (row : AppliedMigration) (d : D) (e : Error Cause)
        (step : D × Option Cause)
        → step.0 ≡ d
        → Makes change row d (roll_back e step)
    unfolding roll_back
    roll_back-Makes change row d e (d', none) h = ap rows h
    roll_back-Makes change row d e (d', some cause) h = ap rows h

    finish-Makes :
        (change : Change) (row : AppliedMigration) (d : D) (step : Step D Cause)
        → Makes change row d step
        → Makes change row d (finish sql d step)
    unfolding finish
    finish-Makes change row d (inside, some e) h =
        roll_back-Makes change row d e (sql.rollback d inside) (transactional.rolled_back d inside)
    finish-Makes change row d (inside, none) h =
        wrap-Makes change row d commit_failed (sql.commit d inside)
          (λ d' v done.
            ap (λ x. row_at v (rows x)) (transactional.committed d inside d' done) ∙ h v)
          (λ d' cause failed. ap rows (transactional.not_committed d inside d' cause failed))

    within_transaction-Makes :
        (change : Change) (row : AppliedMigration) (operation : D → Step D Cause) (d : D)
        → Makes change row d (operation d)
        → Makes change row d (within_transaction sql operation d)
    unfolding within_transaction
    within_transaction-Makes change row operation d h = elim (Option-cases (sql.begin d)) [
      | inl e ↦ rw (e, within_transaction) (finish-Makes change row d (operation d) h)
      | inr (cause, e) ↦ rw (e, within_transaction) refl
    ]

    pub execute-Makes :
        (change : Change) (row : AppliedMigration) (disable_transaction : Bool)
        (operation : D → Step D Cause) (d : D)
        → Makes change row d (operation d)
        → Makes change row d (execute sql disable_transaction operation d)
    unfolding execute
    execute-Makes change row true operation d h = h
    execute-Makes change row false operation d h = within_transaction-Makes change row operation d h

    -- A turn whose operation makes the change for its row.
    abbrev pub IsTurn : Change → Turn D Cause → Type 0
    IsTurn change turn = (d : D) → Makes change turn.row d (turn.operation d)

    module _ (change : Change) (direction : Direction) (batch : ℤ) where
      -- The turns that ran have made their changes, in order, and nothing else.
      pub run_turns-changes :
          (turns : List (Turn D Cause)) (d : D) (v : Text)
          → All (IsTurn change) turns
          → row_at v (rows (run_turns sql direction batch turns d).database)
            ≡ changes change
                (run_turns sql direction batch turns d).result.rows
                v
                (row_at v (rows d))
      unfolding run_turns changes
      run_turns-changes [] d v h = refl
      run_turns-changes (turn ∷ turns) d v h =
          let step = execute sql turn.disable_transaction turn.operation d in
          let made =
            execute-Makes change turn.row turn.disable_transaction turn.operation d (h.0 d) in
          elim (Option-cases step.1) [
            | inl e ↦
                rw (e, run_turns)
                  (run_turns-changes turns step.0 v h.1
                    ∙ ap (changes change (run_turns sql direction batch turns step.0).result.rows v)
                        (Makes-done change turn.row d step v e made))
            | inr (cause, e) ↦
                rw (e, run_turns) (ap (row_at v) (Makes-failed change turn.row d step cause e made))
          ]
