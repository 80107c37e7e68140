-- ===== src/SemanticVersion/Comparison.antt =====
-- The comparison of backend/cmd/bridra/semantic_version.go is a total order.
use mathlib.Core.Path.{subst}
use bridra.Common.{
  zero, suc, ℤ, pos, negsuc, ◌≡◌, ◌≢◌, ◌↔◌, refl, sym, ap, ◌∙◌, ◌⊎◌, inl, inr, true, false, Option,
  none, some, List, [], ◌∷◌, arith, Bool-cases, Option-cases,
}
use bridra.Common.Texts.{
  Text, same_text, same_text_refl, same_text→eq, before, before_trans, before_asymm,
  not-before_antisym,
}
use bridra.SemanticVersion.Version.{
  SemanticVersion, compare_identifiers, compare_prereleases, compare_releases,
  compare_semantic_versions, below, same, above,
}

abbrev pub negate : ℤ → ℤ
negate (negsuc n) = pos (suc n)
negate (pos zero) = pos zero
negate (pos (suc n)) = negsuc n

abbrev pub negate_found : Option ℤ → Option ℤ
negate_found none = none
negate_found (some s) = some (negate s)

same_text_sym : (x y : Text) → same_text y x ≡ same_text x y
unfolding same_text
same_text_sym [] [] = refl
same_text_sym [] (y ∷ ys) = refl
same_text_sym (x ∷ xs) [] = refl
same_text_sym (x ∷ xs) (y ∷ ys) = ground (arith, same_text_sym xs ys)

-- Of two texts that differ, one comes before the other.
before-differ : (x y : Text) → same_text x y ≡ false → (before x y ≡ true) ⊎ (before y x ≡ true)
before-differ x y h = elim (Bool-cases (before x y)) [
  | inl e ↦ inl e
  | inr e ↦ elim (Bool-cases (before y x)) [
    | inl f ↦ inr f
    | inr f ↦
        absurd (ground (arith, h, same_text_refl x, ap (same_text x) (not-before_antisym x y e f)))
  ]
]

pub compare_identifiers-flip :
    (x y : Text) → compare_identifiers y x ≡ negate_found (compare_identifiers x y)
unfolding compare_identifiers
compare_identifiers-flip x y = elim (Bool-cases (same_text x y)) [
  | inl e ↦ ground (arith, e, same_text_sym x y)
  | inr e ↦ elim (before-differ x y e) [
    | inl f ↦ ground (arith, e, same_text_sym x y, f, before_asymm x y f)
    | inr f ↦ ground (arith, e, same_text_sym x y, f, before_asymm y x f)
  ]
]

-- A comparison of identifiers that finds a difference gives -1 or 1, and one that continues has found
-- one identifier twice.
pub compare_identifiers-none : (x y : Text) → compare_identifiers x y ≡ none → x ≡ y
unfolding compare_identifiers
compare_identifiers-none x y h = elim (Bool-cases (same_text x y)) [
  | inl e ↦ same_text→eq x y e
  | inr e ↦ absurd (ground (arith, e, h))
]

compare_identifiers_self : (x : Text) → compare_identifiers x x ≡ none
unfolding compare_identifiers
compare_identifiers_self x = ground (arith, same_text_refl x)

some-above-ne-below : some above ≢ some below
some-above-ne-below h = cc

compare_identifiers_trans :
    (x y z : Text)
    → compare_identifiers x y ≡ some below
    → compare_identifiers y z ≡ some below
    → compare_identifiers x z ≡ some below
unfolding compare_identifiers
compare_identifiers_trans x y z h k = elim (Bool-cases (same_text x z)) [
  | inl e ↦
      let flipped = compare_identifiers-flip x y ∙ ap negate_found h in
      let again = subst (λ t. compare_identifiers y t ≡ some below) (sym (same_text→eq x z e)) k in
      absurd (some-above-ne-below (sym flipped ∙ again))
  | inr e ↦ ground (arith, e, before_trans x y z)
]

compare_identifiers_nonzero : (x y : Text) → compare_identifiers x y ≢ some same
unfolding compare_identifiers
compare_identifiers_nonzero x y h = ground arith

compare_prereleases-flip :
    (xs ys : List Text) → compare_prereleases ys xs ≡ negate (compare_prereleases xs ys)
unfolding compare_prereleases
compare_prereleases-flip [] [] = refl
compare_prereleases-flip [] (y ∷ ys) = refl
compare_prereleases-flip (x ∷ xs) [] = refl
compare_prereleases-flip (x ∷ xs) (y ∷ ys) =
    ground (arith, compare_identifiers-flip x y, compare_prereleases-flip xs ys)

compare_prereleases_sound : (xs ys : List Text) → compare_prereleases xs ys ≡ same → xs ≡ ys
unfolding compare_prereleases
compare_prereleases_sound [] [] h = refl
compare_prereleases_sound [] (y ∷ ys) h = absurd (ground arith)
compare_prereleases_sound (x ∷ xs) [] h = absurd (ground arith)
compare_prereleases_sound (x ∷ xs) (y ∷ ys) h = elim (Option-cases (compare_identifiers x y)) [
  | inl e ↦ ground (arith, compare_identifiers-none x y e, compare_prereleases_sound xs ys, e, h)
  | inr (s, e) ↦ absurd (ground (arith, e, h, compare_identifiers_nonzero x y))
]

compare_prereleases_self : (xs : List Text) → compare_prereleases xs xs ≡ same
unfolding compare_prereleases
compare_prereleases_self [] = refl
compare_prereleases_self (x ∷ xs) =
    ground (arith, compare_identifiers_self x, compare_prereleases_self xs)

compare_prereleases_trans :
    (xs ys zs : List Text)
    → compare_prereleases xs ys ≡ below
    → compare_prereleases ys zs ≡ below
    → compare_prereleases xs zs ≡ below
unfolding compare_prereleases
compare_prereleases_trans [] [] zs h k = absurd (ground arith)
compare_prereleases_trans xs [] [] h k = absurd (ground arith)
compare_prereleases_trans xs (y ∷ ys) [] h k = absurd (ground arith)
compare_prereleases_trans [] (y ∷ ys) (z ∷ zs) h k = refl
compare_prereleases_trans (x ∷ xs) [] (z ∷ zs) h k = absurd (ground arith)
compare_prereleases_trans (x ∷ xs) (y ∷ ys) (z ∷ zs) h k =
    elim (Option-cases (compare_identifiers x y)) [
      | inl e ↦
          let along = ap (λ t. compare_identifiers t z) (compare_identifiers-none x y e) in
          ground (arith, e, along, h, k, compare_prereleases_trans xs ys zs)
      | inr (s, e) ↦ elim (Option-cases (compare_identifiers y z)) [
        | inl f ↦
            let along = ap (compare_identifiers x) (sym (compare_identifiers-none y z f)) in
            ground (arith, e, f, along, h, k)
        | inr (t, f) ↦ ground (arith, e, f, h, k, compare_identifiers_trans x y z)
      ]
    ]

compare_releases-flip :
    (xs ys : List Text) → compare_releases ys xs ≡ negate (compare_releases xs ys)
unfolding compare_releases
compare_releases-flip [] [] = refl
compare_releases-flip [] (y ∷ ys) = refl
compare_releases-flip (x ∷ xs) [] = refl
compare_releases-flip (x ∷ xs) (y ∷ ys) = compare_prereleases-flip (x ∷ xs) (y ∷ ys)

compare_releases_sound : (xs ys : List Text) → compare_releases xs ys ≡ same → xs ≡ ys
unfolding compare_releases
compare_releases_sound [] [] h = refl
compare_releases_sound [] (y ∷ ys) h = absurd (ground arith)
compare_releases_sound (x ∷ xs) [] h = absurd (ground arith)
compare_releases_sound (x ∷ xs) (y ∷ ys) h = compare_prereleases_sound (x ∷ xs) (y ∷ ys) h

compare_releases_self : (xs : List Text) → compare_releases xs xs ≡ same
unfolding compare_releases
compare_releases_self [] = refl
compare_releases_self (x ∷ xs) = compare_prereleases_self (x ∷ xs)

compare_releases_trans :
    (xs ys zs : List Text)
    → compare_releases xs ys ≡ below
    → compare_releases ys zs ≡ below
    → compare_releases xs zs ≡ below
unfolding compare_releases
compare_releases_trans [] [] zs h k = absurd (ground arith)
compare_releases_trans [] (y ∷ ys) zs h k = absurd (ground arith)
compare_releases_trans (x ∷ xs) [] [] h k = absurd (ground arith)
compare_releases_trans (x ∷ xs) [] (z ∷ zs) h k = absurd (ground arith)
compare_releases_trans (x ∷ xs) (y ∷ ys) [] h k = refl
compare_releases_trans (x ∷ xs) (y ∷ ys) (z ∷ zs) h k =
    compare_prereleases_trans (x ∷ xs) (y ∷ ys) (z ∷ zs) h k

compare_semantic_versions-flip :
    (a b : SemanticVersion) → compare_semantic_versions b a ≡ negate (compare_semantic_versions a b)
unfolding compare_semantic_versions
compare_semantic_versions-flip a b = ground (arith, compare_releases-flip a.prerelease b.prerelease)

compare_semantic_versions_trans :
    (a b c : SemanticVersion)
    → compare_semantic_versions a b ≡ below
    → compare_semantic_versions b c ≡ below
    → compare_semantic_versions a c ≡ below
unfolding compare_semantic_versions
compare_semantic_versions_trans a b c h k =
    ground (arith, h, k, compare_releases_trans a.prerelease b.prerelease c.prerelease)

same_parts :
    (a b : SemanticVersion)
    → a.major ≡ b.major
    → a.minor ≡ b.minor
    → a.patch ≡ b.patch
    → a.prerelease ≡ b.prerelease
    → a ≡ b
same_parts a b h i j k = cc

compare_semantic_versions_sound :
    (a b : SemanticVersion) → compare_semantic_versions a b ≡ same → a ≡ b
unfolding compare_semantic_versions
compare_semantic_versions_sound a b h =
    same_parts a b (ground (arith, h)) (ground (arith, h)) (ground (arith, h))
      (ground (arith, h, compare_releases_sound a.prerelease b.prerelease))

compare_semantic_versions_self : (a : SemanticVersion) → compare_semantic_versions a a ≡ same
unfolding compare_semantic_versions
compare_semantic_versions_self a = ground (arith, compare_releases_self a.prerelease)

-- The comparison of versions is a strict total order: exchanging two versions negates it, it gives 0
-- just for two versions with the same parts, and where `a` is below `b` and `b` below `c`, `a` is
-- below `c`.
pub compare_semantic_versions_ordered :
    (a b c : SemanticVersion)
    → (compare_semantic_versions b a ≡ negate (compare_semantic_versions a b))
      × ((compare_semantic_versions a b ≡ same) ↔ (a ≡ b))
      × (compare_semantic_versions a b ≡ below
          → compare_semantic_versions b c ≡ below
          → compare_semantic_versions a c ≡ below)
compare_semantic_versions_ordered a b c = (
  compare_semantic_versions-flip a b,
  (
    compare_semantic_versions_sound a b,
    λ e. ap (compare_semantic_versions a) (sym e) ∙ compare_semantic_versions_self a,
  ),
  compare_semantic_versions_trans a b c,
)
