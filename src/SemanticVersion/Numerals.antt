-- ===== src/SemanticVersion/Numerals.antt =====
-- The numeric identifiers of backend/cmd/bridra/semantic_version.go are compared as numbers, though
-- the code compares their texts.
use mathlib.Core.Path.{subst}
use bridra.Common.{
  ℕ, ◌+◌, ◌-◌, ◌*◌, ◌<◌, ◌≤◌, ◌≡◌, ◌↔◌, ap, ◌∙◌, ◌⊎◌, inl, inr, true, false, none, some, [], ◌∷◌,
  ltb, length, all, arith, Bool-cases,
}
use bridra.Common.Texts.{Text, before}
use bridra.Common.Decimal.{is_digit, digits_value}
use bridra.SemanticVersion.Version.{
  numeric_identifier, has_leading_zero, compare_identifiers, below, above,
}
use bridra.SemanticVersion.Comparison.{
  negate_found, compare_identifiers-flip, compare_identifiers-none,
}

digits_uncons :
    (d : ℕ) (ds : Text)
    → all is_digit (d ∷ ds) ≡ true
    → (48 ≤ d) × (d ≤ 57) × (all is_digit ds ≡ true)
digits_uncons d ds h = (ground (arith, h), ground (arith, h), ground (arith, h))

-- Digits after a smaller number stay smaller, if they are no more.
digits_value_mono :
    (ds cs : Text) (a b : ℕ)
    → all is_digit ds ≡ true
    → length ds ≤ length cs
    → a < b
    → digits_value a ds < digits_value b cs
digits_value_mono [] [] a b digits short h = h
digits_value_mono [] (c ∷ cs) a b digits short h =
    digits_value_mono [] cs a (b * 10 + (c - 48)) digits (omega arith) (omega (arith, h))
digits_value_mono (d ∷ ds) [] a b digits short h = absurd (omega (arith, short))
digits_value_mono (d ∷ ds) (c ∷ cs) a b digits short h =
    let (low, high, rest) = digits_uncons d ds digits in
    digits_value_mono ds cs (a * 10 + (d - 48)) (b * 10 + (c - 48)) rest (omega (arith, short))
      (omega (arith, h, low, high))

-- Among as many digits, the order of texts is the order of numbers.
before-digits_value :
    (xs ys : Text) (a : ℕ)
    → all is_digit xs ≡ true
    → length xs ≡ length ys
    → before xs ys ≡ true
    → digits_value a xs < digits_value a ys
unfolding before
before-digits_value xs [] a digits same_length h = absurd (ground (arith, h))
before-digits_value [] (y ∷ ys) a digits same_length h = absurd (omega (arith, same_length))
before-digits_value (x ∷ xs) (y ∷ ys) a digits same_length h =
    let (low, high, rest) = digits_uncons x xs digits in
    elim (Bool-cases (ltb x y)) [
      | inl e ↦
          digits_value_mono xs ys (a * 10 + (x - 48)) (a * 10 + (y - 48)) rest
            (omega (arith, same_length)) (ground (arith, e, low))
      | inr e ↦
          let heads : x ≡ y = ground (arith, e, h) in
          let tails : before xs ys ≡ true = ground (arith, e, h) in
          subst (λ c. digits_value (a * 10 + (x - 48)) xs < digits_value (a * 10 + (c - 48)) ys)
            heads
            (before-digits_value xs ys (a * 10 + (x - 48)) rest (omega (arith, same_length)) tails)
    ]

-- A numeric identifier as parseSemanticVersion admits it.
pub record IsNumeral (x : Text) : Type 0 where
  pub numeric : numeric_identifier x ≡ true
  pub plain : has_leading_zero x ≡ false

numeral-digits : (x : Text) → IsNumeral x → all is_digit x ≡ true
unfolding numeric_identifier
numeral-digits x h = let n = h.numeric in ground (arith, n)

shorter-digits_value :
    (x y : Text)
    → IsNumeral x
    → IsNumeral y
    → length x < length y
    → digits_value 0 x < digits_value 0 y
unfolding numeric_identifier
shorter-digits_value [] y hx hy h = absurd (let n = hx.numeric in ground (arith, n))
shorter-digits_value (c ∷ cs) [] hx hy h = absurd (omega (arith, h))
shorter-digits_value (c ∷ cs) (d ∷ []) hx hy h = absurd (omega (arith, h))
shorter-digits_value (c ∷ cs) (d ∷ e ∷ ds) hx hy h =
    let (low, high, rest) = digits_uncons d (e ∷ ds) (numeral-digits (d ∷ e ∷ ds) hy) in
    digits_value_mono (c ∷ cs) (e ∷ ds) 0 (0 * 10 + (d - 48)) (numeral-digits (c ∷ cs) hx)
      (omega (arith, h)) (let p = hy.plain in ground (arith, p, low))

below-digits_value :
    (x y : Text)
    → IsNumeral x
    → IsNumeral y
    → compare_identifiers x y ≡ some below
    → digits_value 0 x < digits_value 0 y
unfolding compare_identifiers
below-digits_value x y hx hy h = elim (Bool-cases (ltb (length x) (length y))) [
  | inl e ↦ shorter-digits_value x y hx hy (ground (arith, e))
  | inr e ↦
      let nx = hx.numeric in
      let ny = hy.numeric in
      before-digits_value x y 0 (numeral-digits x hx) (ground (arith, e, nx, ny, h))
        (ground (arith, e, nx, ny, h))
]

compare_identifiers-cases :
    (x y : Text)
    → (compare_identifiers x y ≡ none)
      ⊎ ((compare_identifiers x y ≡ some below) ⊎ (compare_identifiers x y ≡ some above))
unfolding compare_identifiers
compare_identifiers-cases x y = ground arith

-- Two numeric identifiers without leading zeros are ordered by the numbers that they write, of any
-- size.
pub compare_identifiers-numeric :
    (x y : Text)
    → IsNumeral x
    → IsNumeral y
    → (compare_identifiers x y ≡ some below) ↔ (digits_value 0 x < digits_value 0 y)
compare_identifiers-numeric x y hx hy = (below-digits_value x y hx hy, back)
  where
    back : digits_value 0 x < digits_value 0 y → compare_identifiers x y ≡ some below
    back h = elim (compare_identifiers-cases x y) [
      | inl e ↦ absurd (omega (arith, h, ap (digits_value 0) (compare_identifiers-none x y e)))
      | inr (inl e) ↦ e
      | inr (inr e) ↦
          let flipped = compare_identifiers-flip x y ∙ ap negate_found e in
          absurd (omega (arith, h, below-digits_value y x hy hx flipped))
    ]
