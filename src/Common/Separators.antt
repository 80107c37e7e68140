-- ===== src/Common/Separators.antt =====
-- Texts without a separator, and strings.Cut on them.
use Prim.Native.Nat.{ℕ}
use mathlib.Core.Path.{◌≡◌, refl, ap}
use mathlib.Core.Logic.{inl, inr}
use mathlib.Core.Bool.{Bool, true, false}
use mathlib.Core.Option.{none, some}
use mathlib.Core.List.{[], ◌∷◌, ◌++◌}
use native.Mathlib.Omega.{arith}
use bridra.Common.Tests.{◌==◌, Bool-cases}
use bridra.Common.Lists.{all, All}
use bridra.Common.Texts.{Text, cut}

-- No code of the text is the separator.
abbrev pub IsFree : ℕ → Text → Type 0
IsFree s = All (λ c. (c == s) ≡ false)

pub IsFree-append : (s : ℕ) (xs ys : Text) → IsFree s xs → IsFree s ys → IsFree s (xs ++ ys)
IsFree-append s [] ys h k = k
IsFree-append s (x ∷ xs) ys h k = (h.0, IsFree-append s xs ys h.1 k)

-- A separator that fails a test is in no text that passes it.
pub all-IsFree : (p : ℕ → Bool) (s : ℕ) (t : Text) → p s ≡ false → all p t ≡ true → IsFree s t
all-IsFree p s [] h k = tt
all-IsFree p s (c ∷ cs) h k = (head, all-IsFree p s cs h (ground (arith, k)))
  where
    head : (c == s) ≡ false
    head = elim (Bool-cases (c == s)) [
      | inr e ↦ e
      | inl e ↦ let same : c ≡ s = ground (arith, e) in absurd (ground (arith, k, ap p same, h))
    ]

pub cut-free : (s : ℕ) (t : Text) → IsFree s t → cut s t ≡ none
unfolding cut
cut-free s [] h = refl
cut-free s (c ∷ cs) h = rw (h.0, cut-free s cs h.1) refl

pub cut-append : (s : ℕ) (xs ys : Text) → IsFree s xs → cut s (xs ++ s ∷ ys) ≡ some (xs, ys)
unfolding cut
cut-append s [] ys h = ground arith
cut-append s (x ∷ xs) ys h = rw (h.0, cut-append s xs ys h.1) refl
