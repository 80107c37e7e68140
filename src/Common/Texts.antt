-- ===== src/Common/Texts.antt =====
-- Text as Go's strings package reads it: code points, blank text, and the order of two texts.
use Prim.Native.Char.{code}
use Prim.Native.Nat.{ℕ}
use Prim.Native.String.{String}
use mathlib.Core.Path.{◌≡◌, refl}
use native.Mathlib.Omega.{arith}
use mathlib.Core.Bool.{Bool, true, false, ◌&&◌, ◌||◌}
use mathlib.Core.Option.{Option, none, some}
use mathlib.Core.List.{List, [], ◌∷◌}
use bridra.Common.Tests.{ltb, leb, ◌==◌, if◌then◌else◌}
use bridra.Common.Lists.{all}

abbrev pub codes : String → List ℕ
codes String.[] = []
codes (String.◌∷◌ c s) = code c ∷ codes s

-- unicode.IsSpace
unfoldable pub is_space : ℕ → Bool
is_space c =
    (leb 9 c && leb c 13)
    || (c == 32)
    || (c == 0x85)
    || (c == 0xA0)
    || (c == 0x1680)
    || (leb 0x2000 c && leb c 0x200A)
    || (c == 0x2028)
    || (c == 0x2029)
    || (c == 0x202F)
    || (c == 0x205F)
    || (c == 0x3000)

-- strings.TrimSpace(s) == ""
unfoldable pub is_blank : String → Bool
unfolding is_space
is_blank s = all is_space (codes s)

-- The order of Go's `<` on strings. UTF-8 keeps the order of code points.
unfoldable pub before : List ℕ → List ℕ → Bool
before _ [] = false
before [] (y ∷ ys) = true
before (x ∷ xs) (y ∷ ys) =
    let rest = before xs ys in (if ltb x y then true else if x == y then rest else false)

pub not-before_nil : (xs : List ℕ) → before xs [] ≡ false
unfolding before
not-before_nil [] = refl
not-before_nil (x ∷ xs) = refl

-- `ys` comes no later than `xs`, and `zs` no later than `ys`.
pub not-before_trans :
    (xs ys zs : List ℕ) → before xs ys ≡ false → before ys zs ≡ false → before xs zs ≡ false
unfolding before
not-before_trans xs ys [] h k = not-before_nil xs
not-before_trans [] [] (z ∷ zs) h k = k
not-before_trans [] (y ∷ ys) (z ∷ zs) h k = h
not-before_trans (x ∷ xs) [] (z ∷ zs) h k = cc
not-before_trans (x ∷ xs) (y ∷ ys) (z ∷ zs) h k = ground (arith, not-before_trans xs ys zs)

pub before_asymm : (xs ys : List ℕ) → before xs ys ≡ true → before ys xs ≡ false
unfolding before
before_asymm [] [] h = refl
before_asymm [] (y ∷ ys) h = refl
before_asymm (x ∷ xs) [] h = cc
before_asymm (x ∷ xs) (y ∷ ys) h = ground (arith, before_asymm xs ys)

pub not-before_self : (xs : List ℕ) → before xs xs ≡ false
unfolding before
not-before_self [] = refl
not-before_self (x ∷ xs) = ground (arith, not-before_self xs)

-- A text as the list of its code points, or of its bytes where Go reads it by bytes.
abbrev pub Text : Type 0
Text = List ℕ

-- strings.Cut with a separator of one code point
unfoldable pub cut : ℕ → Text → Option (Text × Text)
cut separator [] = none
cut separator (c ∷ cs) =
    let rest = cut separator cs in
    if c == separator
    then some ([], cs)
    else elim rest [ none ↦ none | some (before, after) ↦ some (c ∷ before, after) ]

-- Equality of two texts.
unfoldable pub same_text : Text → Text → Bool
same_text [] [] = true
same_text (c ∷ cs) (d ∷ ds) = let rest = same_text cs ds in c == d && rest
same_text _ _ = false

pub same_text_refl : (t : Text) → same_text t t ≡ true
unfolding same_text
same_text_refl [] = refl
same_text_refl (c ∷ cs) = ground (arith, same_text_refl cs)

pub same_text→eq : (s t : Text) → same_text s t ≡ true → s ≡ t
unfolding same_text
same_text→eq [] [] h = refl
same_text→eq [] (d ∷ ds) h = absurd (ground arith)
same_text→eq (c ∷ cs) [] h = absurd (ground arith)
same_text→eq (c ∷ cs) (d ∷ ds) h = ground (arith, same_text→eq cs ds)

-- Two texts of which neither comes before the other are one.
pub not-before_antisym : (xs ys : Text) → before xs ys ≡ false → before ys xs ≡ false → xs ≡ ys
unfolding before
not-before_antisym [] [] h k = refl
not-before_antisym [] (y ∷ ys) h k = absurd (ground arith)
not-before_antisym (x ∷ xs) [] h k = absurd (ground arith)
not-before_antisym (x ∷ xs) (y ∷ ys) h k = ground (arith, not-before_antisym xs ys)

pub before_trans :
    (xs ys zs : Text) → before xs ys ≡ true → before ys zs ≡ true → before xs zs ≡ true
unfolding before
before_trans [] [] zs h k = absurd (ground arith)
before_trans xs ys [] h k = absurd (ground (arith, not-before_nil ys))
before_trans [] (y ∷ ys) (z ∷ zs) h k = refl
before_trans (x ∷ xs) [] (z ∷ zs) h k = absurd (ground arith)
before_trans (x ∷ xs) (y ∷ ys) (z ∷ zs) h k = ground (arith, before_trans xs ys zs)
