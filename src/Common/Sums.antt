-- ===== src/Common/Sums.antt =====
-- Sums over lists of native numbers, and how often an element occurs.
use Prim.Native.Nat.{ℕ, ◌+◌}
use mathlib.Core.Path.{◌≡◌}
use mathlib.Core.List.{List, [], ◌∷◌, ◌++◌}
use native.Mathlib.Omega.{arith}
use bridra.Common.Tests.{◌==◌, if◌then◌else◌}

module _ {ℓ} {A : Type ℓ} where
  unfoldable pub sum : (A → ℕ) → List A → ℕ
  sum f [] = 0
  sum f (x ∷ xs) = f x + sum f xs

  pub sum-append : (f : A → ℕ) (xs ys : List A) → sum f (xs ++ ys) ≡ sum f xs + sum f ys
  unfolding sum
  sum-append f [] ys = omega arith
  sum-append f (x ∷ xs) ys = omega (arith, sum-append f xs ys)

-- Whether a number is the given one, as 0 or 1.
unfoldable pub one : ℕ → ℕ → ℕ
one n x = if x == n then 1 else 0

-- How often a number occurs.
abbrev pub count : ℕ → List ℕ → ℕ
count n = sum (one n)
