-- ===== src/SemanticVersion/Examples.antt =====
-- Versions of backend/cmd/bridra/semantic_version.go: a release, a prerelease and the next one.
use bridra.Common.{arith, ◌≡◌, ◌↔◌, refl, [], ◌∷◌, ok, err}
use bridra.Common.Texts.{codes, cut}
use bridra.Common.Decimal.{format_uint, format_digits}
use bridra.SemanticVersion.Version.{
  SemanticVersion, leading_zero, parse_semantic_version, compare_semantic_versions,
  numeric_identifier, below, same, find_submatch, match_release, split,
}
use bridra.SemanticVersion.Comparison.{negate, compare_semantic_versions_ordered}
use bridra.SemanticVersion.Parsing.{IsWritable, parse-version_text, join}

abbrev second_candidate : SemanticVersion
second_candidate = record {
  major = 1;
  minor = 2;
  patch = 3;
  prerelease = codes "rc" ∷ codes "2" ∷ [];
}

abbrev tenth_candidate : SemanticVersion
tenth_candidate = record {
  major = 1;
  minor = 2;
  patch = 3;
  prerelease = codes "rc" ∷ codes "10" ∷ [];
}

abbrev final : SemanticVersion
final = record { major = 1; minor = 2; patch = 3; prerelease = [] }

parsed_candidate : parse_semantic_version (codes "1.2.3-rc.10+build.7") ≡ ok tenth_candidate
unfolding parse_semantic_version find_submatch match_release split cut numeric_identifier
parsed_candidate = refl

parsed_leading_zero : parse_semantic_version (codes "1.02.3") ≡ err leading_zero
unfolding parse_semantic_version find_submatch match_release split cut numeric_identifier
parsed_leading_zero = refl

compare_semantic_versions_ordered_example :
    (compare_semantic_versions tenth_candidate second_candidate
      ≡ negate (compare_semantic_versions second_candidate tenth_candidate))
    × ((compare_semantic_versions second_candidate tenth_candidate ≡ same)
        ↔ (second_candidate ≡ tenth_candidate))
    × (compare_semantic_versions second_candidate tenth_candidate ≡ below
        → compare_semantic_versions tenth_candidate final ≡ below
        → compare_semantic_versions second_candidate final ≡ below)
compare_semantic_versions_ordered_example =
    compare_semantic_versions_ordered second_candidate tenth_candidate final

tenth_candidate-IsWritable : IsWritable tenth_candidate
unfolding numeric_identifier
tenth_candidate-IsWritable = record {
  major_fits = omega arith;
  minor_fits = omega arith;
  patch_fits = omega arith;
  identifiers = ((refl, refl), ((refl, refl), tt));
}

parse-version_text_example : parse_semantic_version (codes "1.2.3-rc.10") ≡ ok tenth_candidate
unfolding format_uint format_digits join
parse-version_text_example = parse-version_text tenth_candidate tenth_candidate-IsWritable
