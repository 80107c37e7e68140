-- ===== src/Migrations/Pending.antt =====
-- Which migrations Migrate runs, and the rows that it records for them,
-- backend/framework/migrations.go.
use bridra.Common.{
  ℕ, ◌+◌, ◌≡◌, refl, sym, ap, ◌∙◌, inl, inr, Bool, true, false, not, Option, none, some, List, [],
  ◌∷◌, if◌then◌else◌, arith, Bool-cases, keep_if, map, pos, negsuc, ℤ,
}
use bridra.Common.Texts.{Text, before, same_text, same_text→eq}
use bridra.Common.Ordering.{find_by, Distinct, sort_by, insert_by, find_by-sort_by}
use bridra.Migrations.Migration.{
  Migration, AppliedMigration, Runner, version_of, record_version, is_set, migration_snapshot,
}
use bridra.Migrations.Results.{later_batch, latest_from, latest_batch}
use bridra.Migrations.Runner.{row_of, is_pending}
use bridra.Migrations.History.{changes, put, row_at}

module _ {ℓ} {A : Type ℓ} (key : A → Text) (p : A → Bool) where
  find_by-keep_if-none :
      (k : Text) (xs : List A) → find_by key k xs ≡ none → find_by key k (keep_if p xs) ≡ none
  unfolding find_by keep_if
  find_by-keep_if-none k [] h = refl
  find_by-keep_if-none k (x ∷ xs) h = elim (Bool-cases (p x)) [
    | inl e ↦ rw (e, keep_if) (ground (arith, h, find_by-keep_if-none k xs))
    | inr e ↦ rw (e, keep_if) (find_by-keep_if-none k xs (ground (arith, h)))
  ]

  pub keep_if-Distinct : (xs : List A) → Distinct key xs → Distinct key (keep_if p xs)
  unfolding keep_if
  keep_if-Distinct [] d = tt
  keep_if-Distinct (x ∷ xs) d = elim (Bool-cases (p x)) [
    | inl e ↦ rw (e, keep_if) (find_by-keep_if-none (key x) xs d.0, keep_if-Distinct xs d.1)
    | inr e ↦ rw (e, keep_if) (keep_if-Distinct xs d.1)
  ]

  -- Where the test is the same for every element with the key.
  pub find_by-keep_if :
      (k : Text) (b : Bool) (xs : List A)
      → ((x : A) → same_text (key x) k ≡ true → p x ≡ b)
      → find_by key k (keep_if p xs) ≡ (if b then find_by key k xs else none)
  unfolding find_by keep_if
  find_by-keep_if k true [] h = refl
  find_by-keep_if k false [] h = refl
  find_by-keep_if k b (x ∷ xs) h =
      let rest = find_by-keep_if k b xs h in
      elim (Bool-cases (p x)) [
        | inl e ↦ rw (e, keep_if) (ground (arith, rest, h x, e))
        | inr e ↦ rw (e, keep_if) (ground (arith, rest, h x, e))
      ]

put_self :
    (row : AppliedMigration) (v : Text) (base : Option AppliedMigration)
    → same_text row.version v ≡ true
    → put row v base ≡ some row
put_self row v base h = rw h refl

put_other :
    (row : AppliedMigration) (v : Text) (base : Option AppliedMigration)
    → same_text row.version v ≡ false
    → put row v base ≡ base
put_other row v base h = rw h refl

module _ {D Cause : Type 0} where
  -- The row that Migrate owes a version: the one that is there, or one for its migration.
  unfoldable pub owed :
      ℕ → Option (Migration D Cause) → Option AppliedMigration → Option AppliedMigration
  owed batch definition (some row) = some row
  owed batch none none = none
  owed batch (some m) none = some (row_of batch m)

  recorded : ℕ → Option (Migration D Cause) → Option AppliedMigration → Option AppliedMigration
  recorded batch none base = base
  recorded batch (some m) base = some (row_of batch m)

  -- Recording rows for migrations with distinct versions.
  put-rows :
      (batch : ℕ) (v : Text) (ms : List (Migration D Cause)) (base : Option AppliedMigration)
      → Distinct version_of ms
      → changes put (map (row_of batch) ms) v base ≡ recorded batch (find_by version_of v ms) base
  unfolding changes find_by recorded
  put-rows batch v [] base d = refl
  put-rows batch v (m ∷ ms) base d = elim (Bool-cases (same_text m.version v)) [
    | inr e ↦
        rw (e, find_by)
          (ap (changes put (map (row_of batch) ms) v) (put_other (row_of batch m) v base e)
            ∙ put-rows batch v ms base d.1)
    | inl e ↦
        let none_left : find_by version_of v ms ≡ none =
          ap (λ k. find_by version_of k ms) (sym (same_text→eq m.version v e)) ∙ d.0 in
        rw (e, find_by)
          (ap (changes put (map (row_of batch) ms) v) (put_self (row_of batch m) v base e)
            ∙ put-rows batch v ms (some (row_of batch m)) d.1
            ∙ ap (λ o. recorded batch o (some (row_of batch m))) none_left)
  ]

  -- Sorting the rows does not change which migrations are pending.
  pub pending_of-sort_by :
      (rows : List AppliedMigration) (ms : List (Migration D Cause))
      → keep_if (is_pending (sort_by record_version rows)) ms ≡ keep_if (is_pending rows) ms
  unfolding keep_if
  pending_of-sort_by rows [] = refl
  pending_of-sort_by rows (m ∷ ms) =
      let same : is_pending (sort_by record_version rows) m ≡ is_pending rows m =
        ap (λ o. not (is_set o)) (find_by-sort_by record_version m.version rows) in
      let rest = pending_of-sort_by rows ms in
      elim (Bool-cases (is_pending rows m)) [
        | inl e ↦ rw (same ∙ e, e, keep_if) (ap (λ l. m ∷ l) rest)
        | inr e ↦ rw (same ∙ e, e, keep_if) rest
      ]

  is_pending-version :
      (rows : List AppliedMigration) (v : Text) (m : Migration D Cause)
      → same_text m.version v ≡ true
      → is_pending rows m ≡ not (is_set (row_at v rows))
  is_pending-version rows v m h =
      ap (λ k. not (is_set (row_at k rows))) (same_text→eq m.version v h)

  recorded-owed :
      (batch : ℕ) (definition : Option (Migration D Cause)) (base : Option AppliedMigration)
      → recorded batch (if not (is_set base) then definition else none) base
        ≡ owed batch definition base
  unfolding recorded owed
  recorded-owed batch definition (some row) = refl
  recorded-owed batch none none = refl
  recorded-owed batch (some m) none = refl

  -- What the pending migrations' rows change is what is owed to each version.
  pub put-pending :
      (batch : ℕ) (v : Text) (rows : List AppliedMigration) (ms : List (Migration D Cause))
      → Distinct version_of ms
      → changes put (map (row_of batch) (keep_if (is_pending rows) ms)) v (row_at v rows)
        ≡ owed batch (find_by version_of v ms) (row_at v rows)
  put-pending batch v rows ms d =
      put-rows batch v (keep_if (is_pending rows) ms) (row_at v rows)
        (keep_if-Distinct version_of (is_pending rows) ms d)
      ∙ ap (λ o. recorded batch o (row_at v rows))
          (find_by-keep_if version_of (is_pending rows) v (not (is_set (row_at v rows))) ms
            (is_pending-version rows v))
      ∙ recorded-owed batch (find_by version_of v ms) (row_at v rows)

later_batch_comm :
    (a b : ℤ) (latest : ℕ)
    → later_batch a (later_batch b latest) ≡ later_batch b (later_batch a latest)
later_batch_comm (pos a) (pos b) latest = ground arith
later_batch_comm (pos a) (negsuc b) latest = refl
later_batch_comm (negsuc a) (pos b) latest = refl
later_batch_comm (negsuc a) (negsuc b) latest = refl

latest_from-insert_by :
    (latest : ℕ) (r : AppliedMigration) (rows : List AppliedMigration)
    → latest_from latest (insert_by record_version r rows) ≡ latest_from latest (r ∷ rows)
unfolding latest_from insert_by
latest_from-insert_by latest r [] = refl
latest_from-insert_by latest r (x ∷ rows) =
    elim (Bool-cases (before (record_version x) (record_version r))) [
      | inr e ↦ rw (e, insert_by) refl
      | inl e ↦
          rw (e, insert_by)
            (latest_from-insert_by (later_batch x.batch latest) r rows
              ∙ ap (λ n. latest_from n rows) (later_batch_comm r.batch x.batch latest))
    ]

latest_from-sort_by :
    (latest : ℕ) (rows : List AppliedMigration)
    → latest_from latest (sort_by record_version rows) ≡ latest_from latest rows
unfolding latest_from sort_by
latest_from-sort_by latest [] = refl
latest_from-sort_by latest (r ∷ rows) =
    latest_from-insert_by latest r (sort_by record_version rows)
    ∙ latest_from-sort_by (later_batch r.batch latest) rows

-- Sorting the rows does not change the latest batch.
pub latest_batch-sort_by :
    (rows : List AppliedMigration) → latest_batch (sort_by record_version rows) ≡ latest_batch rows
unfolding latest_batch
latest_batch-sort_by rows = latest_from-sort_by 0 rows

module _ {D Cause : Type 0} where
  -- The rows that Migrate is to record, in the order of their versions.
  unfoldable pub planned : Runner D Cause → List AppliedMigration → List AppliedMigration
  planned runner list =
      map (row_of (latest_batch list + 1)) (keep_if (is_pending list) (migration_snapshot runner))

  pub planned-sort_by :
      (runner : Runner D Cause) (list : List AppliedMigration)
      → planned runner (sort_by record_version list) ≡ planned runner list
  unfolding planned
  planned-sort_by runner list =
      ap
        (λ n.
          map (row_of (n + 1))
            (keep_if (is_pending (sort_by record_version list)) (migration_snapshot runner)))
        (latest_batch-sort_by list)
      ∙ ap (map (row_of (latest_batch list + 1)))
          (pending_of-sort_by list (migration_snapshot runner))
