-- ===== src/SemanticVersion/Parsing.antt =====
-- A version that is written out is parsed back by backend/cmd/bridra/semantic_version.go.
use bridra.Common.{
  ℕ, zero, suc, ◌+◌, ◌/◌, ◌%◌, ◌^◌, ◌<◌, ◌≤◌, ◌≡◌, ◌≢◌, refl, ap, ◌∙◌, inl, inr, true, false, some,
  List, [], ◌∷◌, ◌++◌, ltb, ◌==◌, if◌then◌else◌, all, All, arith, Bool-cases, ok,
}
use bridra.Common.Separators.{IsFree, IsFree-append, all-IsFree, cut-free, cut-append}
use bridra.Common.Texts.{Text}
use bridra.Common.Decimal.{
  is_digit, digits_value, format_uint, format_digits, format_digits_value, format_digits_are_digits,
  format_digits-ne-nil,
}
use bridra.SemanticVersion.Version.{
  Matches, SemanticVersion, dot, hyphen, plus, split, is_identifier, is_identifier_char, is_digits,
  is_empty, find_submatch, match_release, parse_semantic_version, has_leading_zero,
  is_plain_identifier, parse_component, match_core,
}

split-free : (s : ℕ) (t : Text) → IsFree s t → split s t ≡ t ∷ []
unfolding split
split-free s [] h = refl
split-free s (c ∷ cs) h = rw (h.0, split-free s cs h.1) refl

split-append : (s : ℕ) (xs ys : Text) → IsFree s xs → split s (xs ++ s ∷ ys) ≡ xs ∷ split s ys
unfolding split
split-append s [] ys h = ground arith
split-append s (x ∷ xs) ys h = rw (h.0, split-append s xs ys h.1) refl

-- Parts with dots between them.
unfoldable pub join : Text → List Text → Text
join part [] = part
join part (next ∷ parts) = part ++ dot ∷ join next parts

split-join :
    (part : Text) (parts : List Text)
    → IsFree dot part
    → All (IsFree dot) parts
    → split dot (join part parts) ≡ part ∷ parts
unfolding join
split-join part [] h k = split-free dot part h
split-join part (next ∷ parts) h k =
    split-append dot part (join next parts) h ∙ ap (λ l. part ∷ l) (split-join next parts k.0 k.1)

-- A numeral's first digit is not 0, but for the number 0.
first_digit :
    (fuel n : ℕ)
    → 1 ≤ n
    → n < 10 ^ fuel
    → (c : ℕ) × (cs : Text) × (format_digits fuel n ≡ c ∷ cs) × ((c == 48) ≡ false)
unfolding format_digits
first_digit zero n h k = absurd (omega (arith, h, k))
first_digit (suc fuel) n h k = elim (Bool-cases (ltb n 10)) [
  | inl e ↦ rw (e, format_digits) (48 + n, [], refl, ground (arith, h))
  | inr e ↦
      let (c, cs, f, g) = first_digit fuel (n / 10) (ground (arith, e)) (omega (arith, k)) in
      rw (e, f, format_digits) (c, cs ++ (48 + n % 10) ∷ [], refl, g)
]

not_leading : (c : ℕ) (cs : Text) → (c == 48) ≡ false → has_leading_zero (c ∷ cs) ≡ false
not_leading c [] h = refl
not_leading c (d ∷ cs) h = h

numeral-plain : (n : ℕ) → n < 10 ^ 20 → has_leading_zero (format_uint n) ≡ false
unfolding format_uint format_digits
numeral-plain zero h = refl
numeral-plain (suc n) h =
    let (c, cs, e, f) = first_digit 20 (suc n) (omega arith) h in
    ap has_leading_zero e ∙ not_leading c cs f

numeral-is_digits : (n : ℕ) → is_digits (format_uint n) ≡ true
unfolding format_uint
numeral-is_digits n =
    filled (format_digits 20 n) (format_digits-ne-nil 19 n) (format_digits_are_digits 20 n)
  where
    filled : (t : Text) → t ≢ [] → all is_digit t ≡ true → is_digits t ≡ true
    filled [] h k = absurd (h refl)
    filled (c ∷ cs) h k = k

numeral-IsFree : (s n : ℕ) → is_digit s ≡ false → IsFree s (format_uint n)
unfolding format_uint
numeral-IsFree s n h = all-IsFree is_digit s (format_digits 20 n) h (format_digits_are_digits 20 n)

numeral_value : (n : ℕ) → n < 10 ^ 20 → digits_value 0 (format_uint n) ≡ n
unfolding format_uint
numeral_value n h = format_digits_value 20 n h

numeral-parsed : (n : ℕ) → n < 2 ^ 63 → parse_component (format_uint n) ≡ ok n
numeral-parsed n h =
    let short : n < 10 ^ 20 = omega (arith, h) in
    rw (numeral-plain n short, numeral_value n short) (ground (arith, h))

-- A version as it is written, without build metadata.
abbrev pub core_text : SemanticVersion → Text
core_text v = format_uint v.major ++ dot ∷ (format_uint v.minor ++ dot ∷ format_uint v.patch)

abbrev pub suffixed : Text → List Text → Text
suffixed core [] = core
suffixed core (part ∷ parts) = core ++ hyphen ∷ join part parts

abbrev pub version_text : SemanticVersion → Text
version_text v = suffixed (core_text v) v.prerelease

-- Numbers below 2 ^ 63, and identifiers of letters, digits and hyphens, no numeric one of which has a
-- leading zero.
pub record IsWritable (v : SemanticVersion) : Type 0 where
  pub major_fits : v.major < 2 ^ 63
  pub minor_fits : v.minor < 2 ^ 63
  pub patch_fits : v.patch < 2 ^ 63
  pub identifiers :
      All (λ i. (is_identifier i ≡ true) × (is_plain_identifier i ≡ true)) v.prerelease

core-IsFree :
    (s : ℕ) (v : SemanticVersion) → is_digit s ≡ false → (dot == s) ≡ false → IsFree s (core_text v)
core-IsFree s v h k = IsFree-append s (format_uint v.major) _ (numeral-IsFree s v.major h) (
  k,
  IsFree-append s (format_uint v.minor) _ (numeral-IsFree s v.minor h)
      (k, numeral-IsFree s v.patch h),
)

split-core :
    (v : SemanticVersion)
    → split dot (core_text v) ≡ format_uint v.major ∷ format_uint v.minor ∷ format_uint v.patch ∷ []
split-core v =
    split-append dot (format_uint v.major) _ (numeral-IsFree dot v.major refl)
    ∙ ap (λ l. format_uint v.major ∷ l)
        (split-append dot (format_uint v.minor) _ (numeral-IsFree dot v.minor refl)
          ∙ ap (λ l. format_uint v.minor ∷ l)
              (split-free dot (format_uint v.patch) (numeral-IsFree dot v.patch refl)))

abbrev joined : List Text → Text
joined [] = []
joined (part ∷ parts) = join part parts

abbrev captured : SemanticVersion → List Text → Matches
captured v parts = record {
  major_part = format_uint v.major;
  minor_part = format_uint v.minor;
  patch_part = format_uint v.patch;
  prerelease_part = joined parts;
}

core-match :
    (v : SemanticVersion) (pre : Text)
    → match_core (split dot (core_text v)) pre
      ≡ some (record {
        major_part = format_uint v.major;
        minor_part = format_uint v.minor;
        patch_part = format_uint v.patch;
        prerelease_part = pre;
      })
core-match v pre =
    ap (λ parts. match_core parts pre) (split-core v)
    ∙ rw (numeral-is_digits v.major, numeral-is_digits v.minor, numeral-is_digits v.patch) refl

abbrev IsPart : Text → Type 0
IsPart i = (is_identifier i ≡ true) × (is_plain_identifier i ≡ true)

part-IsFree :
    (s : ℕ) (i : Text) → is_identifier_char s ≡ false → is_identifier i ≡ true → IsFree s i
part-IsFree s [] h k = tt
part-IsFree s (c ∷ cs) h k = all-IsFree is_identifier_char s (c ∷ cs) h k

parts-IsFree :
    (s : ℕ) (is : List Text) → is_identifier_char s ≡ false → All IsPart is → All (IsFree s) is
parts-IsFree s [] h k = tt
parts-IsFree s (i ∷ is) h k = (part-IsFree s i h k.0.0, parts-IsFree s is h k.1)

join-IsFree :
    (s : ℕ) (i : Text) (is : List Text)
    → (dot == s) ≡ false
    → IsFree s i
    → All (IsFree s) is
    → IsFree s (join i is)
unfolding join
join-IsFree s i [] h k m = k
join-IsFree s i (j ∷ is) h k m = IsFree-append s i _ k (h, join-IsFree s j is h m.0 m.1)

all_identifiers : (is : List Text) → All IsPart is → all is_identifier is ≡ true
all_identifiers [] h = refl
all_identifiers (i ∷ is) h = rw (h.0.0) (all_identifiers is h.1)

all_plain : (is : List Text) → All IsPart is → all is_plain_identifier is ≡ true
all_plain [] h = refl
all_plain (i ∷ is) h = rw (h.0.1) (all_plain is h.1)

match_release-suffixed :
    (v : SemanticVersion) (is : List Text)
    → All IsPart is
    → match_release (suffixed (core_text v) is) ≡ some (captured v is)
unfolding match_release
match_release-suffixed v [] h =
    rw (cut-free hyphen (core_text v) (core-IsFree hyphen v refl refl), match_release)
      (core-match v [])
match_release-suffixed v (i ∷ is) h =
    let parts = split-join i is (part-IsFree dot i refl h.0.0) (parts-IsFree dot is refl h.1) in
    rw
      (
        cut-append hyphen (core_text v) (join i is) (core-IsFree hyphen v refl refl),
        parts,
        all_identifiers (i ∷ is) h,
        match_release,
      )
      (core-match v (join i is))

find_submatch-suffixed :
    (v : SemanticVersion) (is : List Text)
    → All IsPart is
    → find_submatch (suffixed (core_text v) is) ≡ some (captured v is)
unfolding find_submatch
find_submatch-suffixed v is h =
    rw (cut-free plus (suffixed (core_text v) is) (no_plus is h), find_submatch)
      (match_release-suffixed v is h)
  where
    no_plus : (is : List Text) → All IsPart is → IsFree plus (suffixed (core_text v) is)
    no_plus [] h = core-IsFree plus v refl refl
    no_plus (i ∷ is) h = IsFree-append plus (core_text v) _ (core-IsFree plus v refl refl) (
      refl,
      join-IsFree plus i is refl (part-IsFree plus i refl h.0.0) (parts-IsFree plus is refl h.1),
    )

join-filled : (i : Text) (is : List Text) → is_identifier i ≡ true → is_empty (join i is) ≡ false
unfolding join
join-filled [] is h = absurd (ground (arith, h))
join-filled (c ∷ cs) [] h = refl
join-filled (c ∷ cs) (j ∷ is) h = refl

identifiers_of-joined :
    (is : List Text)
    → All IsPart is
    → (if is_empty (joined is) then [] else split dot (joined is)) ≡ is
identifiers_of-joined [] h = refl
identifiers_of-joined (i ∷ is) h =
    rw (join-filled i is h.0.0)
      (split-join i is (part-IsFree dot i refl h.0.0) (parts-IsFree dot is refl h.1))

-- A version whose numbers have 63 bits and whose identifiers are of letters, digits and hyphens,
-- without leading zeros where they are numeric, is parsed back from the text that writes it.
pub parse-version_text :
    (v : SemanticVersion) → IsWritable v → parse_semantic_version (version_text v) ≡ ok v
unfolding parse_semantic_version
parse-version_text v h =
    let found = find_submatch-suffixed v v.prerelease h.identifiers in
    let identifiers = identifiers_of-joined v.prerelease h.identifiers in
    rw
      (
        found,
        numeral-parsed v.major h.major_fits,
        numeral-parsed v.minor h.minor_fits,
        numeral-parsed v.patch h.patch_fits,
        identifiers,
        all_plain v.prerelease h.identifiers,
        parse_semantic_version,
      )
      refl
