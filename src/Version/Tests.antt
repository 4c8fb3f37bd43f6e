-- ===== src/Version/Tests.antt =====
-- Versions at concrete inputs, most of them those of internal/version/semver_test.go.
use agent_stack_manager.Prelude.{◌≡◌, refl, ◌↔◌, true, some, [], ◌∷◌, Ordering, compare, ok, err}
use agent_stack_manager.Prelude.Text.{codes, value, trim_space, trim_prefix, split, split_two}
use agent_stack_manager.Version.{
  Value, invalid, parse, compare_values, compatible, compare_prerelease_identifier,
  compare_prerelease, valid_identifiers, parse_prerelease, parse_core, parse_part, is_numeric,
  valid_identifier,
}
use agent_stack_manager.Version.Identifiers.{compare_prerelease_identifier_numeric}
use agent_stack_manager.Version.Parsing.{Parts, IsSemver, text_of, value_of, parse-text_of}
use agent_stack_manager.Version.Range.{AtLeast, AtMost, compatible_iff}

abbrev one : Parts
one = record {
  major = codes "1";
  minor = codes "2";
  patch = codes "3";
  prerelease = some (codes "rc", codes "1" ∷ []);
  build = some (codes "sha", codes "07" ∷ []);
}

one_text : text_of one ≡ codes "1.2.3-rc.1+sha.07"
one_text = refl

one-IsSemver : IsSemver one
unfolding is_numeric valid_identifier
one-IsSemver = record { major = refl; minor = refl; patch = refl; prerelease = refl; build = refl }

parse-text_of_example :
    (parse (codes "1.2.3-rc.1+sha.07") ≡ ok (value_of one))
    × (parse (codes "v1.2.3-rc.1+sha.07") ≡ ok (value_of one))
unfolding value
parse-text_of_example = parse-text_of one one-IsSemver

too_large_refused :
    parse (codes "99999999999999999999.0.0") ≡ err (invalid (codes "99999999999999999999.0.0"))
unfolding parse trim_space trim_prefix split_two split valid_identifiers parse_core parse_part
    is_numeric value parse_prerelease
too_large_refused = refl

leading_zero_refused : parse (codes "1.2.3-01") ≡ err (invalid (codes "1.2.3-01"))
unfolding parse trim_space trim_prefix split_two split valid_identifiers parse_prerelease parse_core
leading_zero_refused = refl

two_parts_refused : parse (codes "1.2") ≡ err (invalid (codes "1.2"))
unfolding parse trim_space trim_prefix split_two split valid_identifiers parse_prerelease parse_core
two_parts_refused = refl

nine : Value
nine = record {
  major = 1;
  minor = 0;
  patch = 0;
  raw = codes "1.0.0-9";
  prerelease = codes "9" ∷ [];
}

ten : Value
ten = record {
  major = 1;
  minor = 0;
  patch = 0;
  raw = codes "1.0.0-10";
  prerelease = codes "10" ∷ [];
}

nine_parsed : parse (codes "1.0.0-9") ≡ ok nine
unfolding parse trim_space trim_prefix split_two split valid_identifiers parse_prerelease parse_core
    parse_part value nine
nine_parsed = refl

ten_parsed : parse (codes "1.0.0-10") ≡ ok ten
unfolding parse trim_space trim_prefix split_two split valid_identifiers parse_prerelease parse_core
    parse_part value ten
ten_parsed = refl

nine_lt_ten : compare_values nine ten ≡ Ordering.lt
unfolding compare_values compare_prerelease nine ten
nine_lt_ten = refl

compare_prerelease_identifier_numeric_example :
    compare_prerelease_identifier (codes "9") (codes "10")
    ≡ compare (value (codes "9")) (value (codes "10"))
unfolding valid_identifier is_numeric
compare_prerelease_identifier_numeric_example =
    compare_prerelease_identifier_numeric (codes "9") (codes "10") refl refl refl refl

compatible_iff_example :
    (compatible (codes "1.0.0-9") [] (codes "1.0.0-10") ≡ ok true)
    ↔ (AtLeast nine [] × AtMost nine (codes "1.0.0-10"))
compatible_iff_example = compatible_iff (codes "1.0.0-9") [] (codes "1.0.0-10") nine nine_parsed
