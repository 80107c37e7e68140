-- ===== src/Common/Decimal.antt =====
-- Decimal numerals as Go's strconv package writes and reads them, and hexadecimal bytes as
-- encoding/hex writes them. A text is the list of its code points.
use Prim.Native.Nat.{ℕ, zero, suc, ◌+◌, ◌-◌, ◌*◌, ◌/◌, ◌%◌, ◌^◌, ◌<◌, ◌≤◌}
use mathlib.Core.Path.{◌≡◌, refl}
use mathlib.Core.Logic.{◌≢◌, inl, inr}
use mathlib.Core.Bool.{Bool, true, ◌&&◌}
use mathlib.Core.Option.{Option, none, some}
use mathlib.Core.List.{List, [], ◌∷◌, ◌++◌}
use native.Mathlib.Omega.{arith}
use bridra.Common.Tests.{ltb, lt→ltb, leb, if◌then◌else◌, Bool-cases}
use bridra.Common.Lists.{all, length, length-append}

abbrev pub is_digit : ℕ → Bool
is_digit c = leb 48 c && leb c 57

-- The digits of a number below 10 ^ fuel.
unfoldable pub format_digits : ℕ → ℕ → List ℕ
format_digits zero n = []
format_digits (suc fuel) n =
    let rest = format_digits fuel (n / 10) in
    if ltb n 10 then (48 + n) ∷ [] else rest ++ (48 + n % 10) ∷ []

-- strconv.FormatUint(n, 10): an uint64 has 20 digits at most.
unfoldable pub format_uint : ℕ → List ℕ
format_uint n = format_digits 20 n

abbrev pub digits_value : ℕ → List ℕ → ℕ
digits_value before [] = before
digits_value before (c ∷ cs) = digits_value (before * 10 + (c - 48)) cs

-- strconv.ParseUint(digits, 10, 64)
unfoldable pub parse_uint : List ℕ → Option ℕ
parse_uint [] = none
parse_uint (c ∷ cs) =
    if all is_digit (c ∷ cs) && ltb (digits_value 0 (c ∷ cs)) (2 ^ 64)
    then some (digits_value 0 (c ∷ cs))
    else none

digits_value-snoc :
    (before : ℕ) (cs : List ℕ) (c : ℕ)
    → digits_value before (cs ++ c ∷ []) ≡ digits_value before cs * 10 + (c - 48)
digits_value-snoc before [] c = refl
digits_value-snoc before (x ∷ cs) c = digits_value-snoc (before * 10 + (x - 48)) cs c

all_digits-snoc :
    (cs : List ℕ) (c : ℕ)
    → all is_digit cs ≡ true
    → is_digit c ≡ true
    → all is_digit (cs ++ c ∷ []) ≡ true
all_digits-snoc [] c h k = ground arith
all_digits-snoc (x ∷ cs) c h k = ground (arith, all_digits-snoc cs c)

pub format_digits_value : (fuel n : ℕ) → n < 10 ^ fuel → digits_value 0 (format_digits fuel n) ≡ n
unfolding format_digits
format_digits_value zero n h = omega (arith, h)
format_digits_value (suc fuel) n h = elim (Bool-cases (ltb n 10)) [
  | inl e ↦ rw (e, format_digits) (omega arith)
  | inr e ↦
      rw
        (
          e,
          format_digits,
          digits_value-snoc 0 (format_digits fuel (n / 10)) (48 + n % 10),
          format_digits_value fuel (n / 10) (omega (arith, h)),
        )
        (omega arith)
]

pub format_digits_are_digits : (fuel n : ℕ) → all is_digit (format_digits fuel n) ≡ true
unfolding format_digits
format_digits_are_digits zero n = refl
format_digits_are_digits (suc fuel) n = elim (Bool-cases (ltb n 10)) [
  | inl e ↦ rw (e, format_digits) (ground arith)
  | inr e ↦
      rw (e, format_digits)
        (all_digits-snoc (format_digits fuel (n / 10)) (48 + n % 10)
          (format_digits_are_digits fuel (n / 10)) (ground arith))
]

snoc-ne-nil : (cs : List ℕ) (c : ℕ) → (cs ++ c ∷ []) ≢ []
snoc-ne-nil [] c = λ e. cc
snoc-ne-nil (x ∷ cs) c = λ e. cc

pub format_digits-ne-nil : (fuel n : ℕ) → format_digits (suc fuel) n ≢ []
unfolding format_digits
format_digits-ne-nil fuel n = elim (Bool-cases (ltb n 10)) [
  | inl e ↦ rw (e, format_digits) (λ f. cc)
  | inr e ↦ rw (e, format_digits) (snoc-ne-nil _ _)
]

parse_uint-digits :
    (cs : List ℕ) (n : ℕ)
    → cs ≢ []
    → all is_digit cs ≡ true
    → digits_value 0 cs ≡ n
    → n < 2 ^ 64
    → parse_uint cs ≡ some n
unfolding parse_uint
parse_uint-digits [] n filled digits value bound = absurd (filled refl)
parse_uint-digits (c ∷ cs) n filled digits value bound =
    rw (digits, value, lt→ltb n (2 ^ 64) bound, parse_uint) refl

-- A number below 2 ^ 64 is read back from its numeral.
pub parse-format_uint : (n : ℕ) → n < 2 ^ 64 → parse_uint (format_uint n) ≡ some n
unfolding format_uint
parse-format_uint n h =
    parse_uint-digits (format_digits 20 n) n (format_digits-ne-nil 19 n)
      (format_digits_are_digits 20 n) (format_digits_value 20 n (omega (arith, h))) h

-- What is read is below 2 ^ 64.
pub parse_uint_bound : (cs : List ℕ) (n : ℕ) → parse_uint cs ≡ some n → n < 2 ^ 64
unfolding parse_uint
parse_uint_bound [] n h = absurd (ground arith)
parse_uint_bound (c ∷ cs) n h = ground (arith, all is_digit (c ∷ cs))

pub length-format_digits : (fuel n : ℕ) → length (format_digits fuel n) ≤ fuel
unfolding format_digits
length-format_digits zero n = omega arith
length-format_digits (suc fuel) n = elim (Bool-cases (ltb n 10)) [
  | inl e ↦ rw (e, format_digits) (omega arith)
  | inr e ↦
      rw (e, format_digits, length-append (format_digits fuel (n / 10)) ((48 + n % 10) ∷ []))
        (omega (arith, length-format_digits fuel (n / 10)))
]

-- encoding/hex.EncodeToString
unfoldable pub hex_digit : ℕ → ℕ
hex_digit d = if ltb d 10 then 48 + d else 87 + d

unfoldable pub hex : List ℕ → List ℕ
hex [] = []
hex (b ∷ bs) = hex_digit (b / 16) ∷ hex_digit (b % 16) ∷ hex bs
