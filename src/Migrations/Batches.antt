-- ===== src/Migrations/Batches.antt =====
-- Batches and the latest one, in backend/framework/migrations.go.
use bridra.Common.{
  ℕ, ◌+◌, ◌≤◌, ℤ, pos, negsuc, ◌≡◌, refl, subst, false, some, List, [], ◌∷◌, arith, All,
}
use bridra.Common.Texts.{Text}
use bridra.Common.Ordering.{Distinct, Distinct-All, find_by-All}
use bridra.Migrations.Migration.{AppliedMigration, record_version}
use bridra.Migrations.Results.{latest_batch, latest_from, later_batch, is_batch}
use bridra.Migrations.History.{row_at}

-- A batch that is no later than a number.
abbrev pub BatchAtMost : ℕ → ℤ → Type 0
BatchAtMost n (pos k) = k ≤ n
BatchAtMost n (negsuc k) = Unit

unfoldable pub AtMost : ℕ → AppliedMigration → Type 0
AtMost n r = BatchAtMost n r.batch

later_batch-le : (b : ℤ) (n : ℕ) → n ≤ later_batch b n
later_batch-le (pos k) n = ground arith
later_batch-le (negsuc k) n = omega arith

later_batch-AtMost : (b : ℤ) (n m : ℕ) → later_batch b n ≤ m → BatchAtMost m b
later_batch-AtMost (pos k) n m h = ground (arith, h)
later_batch-AtMost (negsuc k) n m h = tt

latest_from-le : (n : ℕ) (rows : List AppliedMigration) → n ≤ latest_from n rows
unfolding latest_from
latest_from-le n [] = omega arith
latest_from-le n (r ∷ rows) =
    let here = later_batch-le r.batch n in
    let there = latest_from-le (later_batch r.batch n) rows in omega (arith, here, there)

latest_from-AtMost : (n : ℕ) (rows : List AppliedMigration) → All (AtMost (latest_from n rows)) rows
unfolding latest_from AtMost
latest_from-AtMost n [] = tt
latest_from-AtMost n (r ∷ rows) = (
  later_batch-AtMost r.batch n _ (latest_from-le (later_batch r.batch n) rows),
  latest_from-AtMost (later_batch r.batch n) rows,
)

pub latest_batch-AtMost : (rows : List AppliedMigration) → All (AtMost (latest_batch rows)) rows
unfolding latest_batch
latest_batch-AtMost rows = latest_from-AtMost 0 rows

later_batch-bound : (b : ℤ) (n m : ℕ) → n ≤ m → BatchAtMost m b → later_batch b n ≤ m
later_batch-bound (pos k) n m h g = ground (arith, h, g)
later_batch-bound (negsuc k) n m h g = h

latest_from-bound :
    (n m : ℕ) (rows : List AppliedMigration) → n ≤ m → All (AtMost m) rows → latest_from n rows ≤ m
unfolding latest_from AtMost
latest_from-bound n m [] h g = h
latest_from-bound n m (r ∷ rows) h g =
    latest_from-bound (later_batch r.batch n) m rows (later_batch-bound r.batch n m h g.0) g.1

pub latest_batch-bound :
    (m : ℕ) (rows : List AppliedMigration) → All (AtMost m) rows → latest_batch rows ≤ m
unfolding latest_batch
latest_batch-bound m rows h = latest_from-bound 0 m rows (omega arith) h

-- The latest batch, where every row is at most there and one row is.
pub latest_batch-is :
    (n : ℕ) (r : AppliedMigration) (v : Text) (rows : List AppliedMigration)
    → Distinct record_version rows
    → ((k : Text) (x : AppliedMigration) → row_at k rows ≡ some x → AtMost n x)
    → row_at v rows ≡ some r
    → r.batch ≡ pos n
    → latest_batch rows ≡ n
unfolding AtMost
latest_batch-is n r v rows distinct below found batch =
    let least : n ≤ latest_batch rows = subst (BatchAtMost (latest_batch rows)) batch (
      find_by-All record_version (AtMost (latest_batch rows)) v r rows (latest_batch-AtMost rows)
        found) in
    let most : latest_batch rows ≤ n =
      latest_batch-bound n rows (Distinct-All record_version (AtMost n) rows distinct below) in
    omega (arith, least, most)

pub AtMost-weaken : (n : ℕ) (r : AppliedMigration) → AtMost n r → AtMost (n + 1) r
unfolding AtMost
AtMost-weaken n r h = weaken r.batch h
  where
    weaken : (b : ℤ) → BatchAtMost n b → BatchAtMost (n + 1) b
    weaken (pos k) h = omega (arith, h)
    weaken (negsuc k) h = tt

pub AtMost-earlier : (n : ℕ) (r : AppliedMigration) → AtMost n r → is_batch (n + 1) r.batch ≡ false
unfolding AtMost
AtMost-earlier n r h = earlier r.batch h
  where
    earlier : (b : ℤ) → BatchAtMost n b → is_batch (n + 1) b ≡ false
    earlier (pos k) h = ground (arith, h)
    earlier (negsuc k) h = refl
