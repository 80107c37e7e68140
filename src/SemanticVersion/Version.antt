-- ===== src/SemanticVersion/Version.antt =====
-- The versions of backend/cmd/bridra/semantic_version.go: their parts, how a text is parsed into
-- them, and how two are compared. A text is the list of its code points.
use bridra.Common.{
  ℕ, ℤ, pos, negsuc, ◌^◌, Bool, true, false, not, ◌&&◌, ◌||◌, Option, none, some, List, [], ◌∷◌,
  ltb, leb, ◌==◌, if◌then◌else◌, length, all, Result, ok, err,
}
use bridra.Common.Texts.{Text, cut, same_text, before}
use bridra.Common.Decimal.{is_digit, digits_value}

-- semanticVersion
pub record SemanticVersion : Type 0 where
  pub major : ℕ
  pub minor : ℕ
  pub patch : ℕ
  pub prerelease : List Text

pub data VersionError : Type 0 where
  invalid_version leading_zero out_of_range leading_zero_identifier : VersionError

abbrev pub dot : ℕ
dot = 46

abbrev pub hyphen : ℕ
hyphen = 45

abbrev pub plus : ℕ
plus = 43

-- The character class [0-9A-Za-z-]
abbrev pub is_identifier_char : ℕ → Bool
is_identifier_char c =
    is_digit c || (leb 65 c && leb c 90) || (leb 97 c && leb c 122) || (c == hyphen)

abbrev pub is_empty : Text → Bool
is_empty [] = true
is_empty (c ∷ cs) = false

abbrev cons_first : ℕ → List Text → List Text
cons_first c [] = (c ∷ []) ∷ []
cons_first c (part ∷ parts) = (c ∷ part) ∷ parts

-- strings.Split with a separator of one code point
unfoldable pub split : ℕ → Text → List Text
split separator [] = [] ∷ []
split separator (c ∷ cs) =
    let rest = split separator cs in if c == separator then [] ∷ rest else cons_first c rest

-- [0-9A-Za-z-]+ between dots, and [0-9]+
abbrev pub is_identifier : Text → Bool
is_identifier part = not (is_empty part) && all is_identifier_char part

abbrev pub is_digits : Text → Bool
is_digits part = not (is_empty part) && all is_digit part

-- What strictSemanticVersionPattern captures: three numerals, and the prerelease, which is empty
-- where the version has none.
pub record Matches : Type 0 where
  pub major_part : Text
  pub minor_part : Text
  pub patch_part : Text
  pub prerelease_part : Text

abbrev pub match_core : List Text → Text → Option Matches
match_core (a ∷ b ∷ c ∷ []) prerelease =
    if is_digits a && is_digits b && is_digits c
    then some
        (record { major_part = a; minor_part = b; patch_part = c; prerelease_part = prerelease })
    else none
match_core _ prerelease = none

-- The pattern without its build metadata. No numeral holds a hyphen, so the first one starts the
-- prerelease.
unfoldable pub match_release : Text → Option Matches
unfolding cut split
match_release value = elim (cut hyphen value) [
  | none ↦ match_core (split dot value) []
  | some (core, prerelease) ↦
      if all is_identifier (split dot prerelease)
      then match_core (split dot core) prerelease
      else none
]

-- strictSemanticVersionPattern. Only the build metadata follows a plus sign, and holds none.
unfoldable pub find_submatch : Text → Option Matches
unfolding cut split match_release
find_submatch value = elim (cut plus value) [
  | none ↦ match_release value
  | some (release, build) ↦
      if all is_identifier (split dot build) then match_release release else none
]

-- len(part) > 1 && part[0] == '0'
abbrev pub has_leading_zero : Text → Bool
has_leading_zero (c ∷ d ∷ rest) = c == 48
has_leading_zero _ = false

-- numericIdentifier
unfoldable pub numeric_identifier : Text → Bool
numeric_identifier value = is_digits value

-- One round of the loop over the numerals; an int has 64 bits.
abbrev pub parse_component : Text → Result VersionError ℕ
parse_component component =
    if has_leading_zero component
    then err leading_zero
    else if ltb (digits_value 0 component) (2 ^ 63)
    then ok (digits_value 0 component)
    else err out_of_range

abbrev pub parse_components : Text → Text → Text → Result VersionError (ℕ × ℕ × ℕ)
parse_components a b c = elim (parse_component a) [
  | err e ↦ err e
  | ok major ↦ elim (parse_component b) [
    | err e ↦ err e
    | ok minor ↦ elim (parse_component c) [ err e ↦ err e | ok patch ↦ ok (major, minor, patch) ]
  ]
]

abbrev pub is_plain_identifier : Text → Bool
is_plain_identifier identifier = not (numeric_identifier identifier && has_leading_zero identifier)

-- parseSemanticVersion
unfoldable pub parse_semantic_version : Text → Result VersionError SemanticVersion
unfolding find_submatch split numeric_identifier
parse_semantic_version value = elim (find_submatch value) [
  | none ↦ err invalid_version
  | some m ↦ elim (parse_components m.major_part m.minor_part m.patch_part) [
    | err e ↦ err e
    | ok (major, minor, patch) ↦
        let identifiers = if is_empty m.prerelease_part then [] else split dot m.prerelease_part in
        if all is_plain_identifier identifiers
        then ok (record { major = major; minor = minor; patch = patch; prerelease = identifiers })
        else err leading_zero_identifier
  ]
]

abbrev pub below : ℤ
below = negsuc 0

abbrev pub same : ℤ
same = pos 0

abbrev pub above : ℤ
above = pos 1

-- One round of the loop over the identifiers: none where it continues.
unfoldable pub compare_identifiers : Text → Text → Option ℤ
compare_identifiers left right =
    if same_text left right
    then none
    else if numeric_identifier left && numeric_identifier right
    then (if ltb (length left) (length right)
          || ((length left == length right) && before left right)
        then some below
        else some above)
    else if numeric_identifier left
    then some below
    else if numeric_identifier right
    then some above
    else if before left right
    then some below
    else some above

-- The loop over the identifiers, and the lengths after it.
unfoldable pub compare_prereleases : List Text → List Text → ℤ
compare_prereleases [] [] = same
compare_prereleases [] (y ∷ ys) = below
compare_prereleases (x ∷ xs) [] = above
compare_prereleases (x ∷ xs) (y ∷ ys) =
    let rest = compare_prereleases xs ys in
    elim (compare_identifiers x y) [ some sign ↦ sign | none ↦ rest ]

-- The loop over the numbers, where `rest` follows it.
abbrev pub compare_numbers : ℕ → ℕ → ℤ → ℤ
compare_numbers left right rest =
    if ltb left right then below else if ltb right left then above else rest

-- A version without a prerelease comes after those with one.
unfoldable pub compare_releases : List Text → List Text → ℤ
compare_releases [] [] = same
compare_releases [] (y ∷ ys) = above
compare_releases (x ∷ xs) [] = below
compare_releases (x ∷ xs) (y ∷ ys) = compare_prereleases (x ∷ xs) (y ∷ ys)

-- compareSemanticVersions
unfoldable pub compare_semantic_versions : SemanticVersion → SemanticVersion → ℤ
compare_semantic_versions left right = compare_numbers left.major right.major (
    compare_numbers left.minor right.minor
      (compare_numbers left.patch right.patch (compare_releases left.prerelease right.prerelease)))
