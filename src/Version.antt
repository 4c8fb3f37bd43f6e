-- ===== src/Version.antt =====
-- internal/version/semver.go: parsing and comparing semantic versions. A text is its code points.
-- `Extract` runs regular expressions of Go's library and is not modelled. `int` has 64 bits.
pub mod Order
pub mod Identifiers
pub mod Parsing
pub mod Range
mod Tests
use agent_stack_manager.Prelude.{
  ℕ, zero, suc, ◌^◌, ◌-◌, Bool, true, false, not, ◌&&◌, ◌||◌, Option, none, some, List, [], ◌∷◌,
  Ordering, compare, Result, ok, err, ◌>>=◌, ◌>>◌, ensure, ltb, leb, ◌==◌, length, if◌then◌else◌,
}
use agent_stack_manager.Prelude.Text.{
  Text, is_empty, any, all, is_digit, trim_space, trim_prefix, split, split_two, compare_text,
  value,
}

pub record Value : Type 0 where
  pub major : ℕ
  pub minor : ℕ
  pub patch : ℕ
  pub raw : Text
  pub prerelease : List Text

-- `invalid input` is the error "invalid semantic version".
pub data ParseError : Type 0 where
  invalid : Text → ParseError

abbrev pub max_int : ℕ
max_int = 2 ^ 63 - 1

unfoldable pub is_numeric : Text → Bool
is_numeric value = not (is_empty value) && all is_digit value

abbrev pub is_identifier_char : ℕ → Bool
is_identifier_char r =
    (leb b'0' r && leb r b'9')
    || (leb b'A' r && leb r b'Z')
    || (leb b'a' r && leb r b'z')
    || r == b'-'

abbrev pub starts_with_zero : Text → Bool
starts_with_zero [] = false
starts_with_zero (c ∷ s) = c == b'0'

-- The body of the loops of `validIdentifiers`.
unfoldable pub valid_identifier : Bool → Text → Bool
unfolding is_numeric
valid_identifier reject_leading_zeroes identifier =
    if is_empty identifier || not (all is_identifier_char identifier)
    then false
    else not (
        reject_leading_zeroes
        && ltb 1 (length identifier)
        && starts_with_zero identifier
        && is_numeric identifier)

unfoldable pub valid_identifiers : List Text → Bool → Bool
unfolding valid_identifier
valid_identifiers groups reject_leading_zeroes =
    all (λ group. all (valid_identifier reject_leading_zeroes) (split b'.' group)) groups

abbrev pub groups_of : Option Text → List Text
groups_of none = []
groups_of (some build) = build ∷ []

-- `strconv.Atoi` of a text of digits: it fails on what an `int` does not hold.
unfoldable pub atoi : Text → ParseError → Result ParseError ℕ
atoi part e = do ensure (leb (value part) max_int) e; ok (value part)

-- The body of the loop over the three parts.
unfoldable pub parse_part : Text → ParseError → Result ParseError ℕ
unfolding atoi
parse_part part e = do ensure (not (is_empty part) && all is_digit part) e; atoi part e

unfoldable pub parse_prerelease : Option Text → ParseError → Result ParseError (List Text)
parse_prerelease none e = ok []
parse_prerelease (some text) e = do
  let prerelease = split b'.' text
  ensure (valid_identifiers prerelease true) e
  ok prerelease

abbrev pub Core : Type 0
Core = ℕ × ℕ × ℕ

unfoldable pub parse_core : List Text → ParseError → Result ParseError Core
parse_core (a ∷ b ∷ c ∷ []) e = do
  major ← parse_part a e
  minor ← parse_part b e
  patch ← parse_part c e
  ok (major, minor, patch)
parse_core _ e = err e

-- `Parse`, once the `v` and the spaces are off.
unfoldable pub parse_raw : Text → Text → Result ParseError Value
parse_raw input raw = do
  let version_and_build = split_two b'+' raw
  ensure (valid_identifiers (groups_of version_and_build.1) false) (invalid input)
  let core_and_prerelease = split_two b'-' version_and_build.0
  prerelease ← parse_prerelease core_and_prerelease.1 (invalid input)
  core ← parse_core (split b'.' core_and_prerelease.0) (invalid input)
  ok (record { major = core.0; minor = core.1; patch = core.2; raw = raw; prerelease = prerelease })

unfoldable pub parse : Text → Result ParseError Value
unfolding parse_raw
parse input = parse_raw input (trim_space (trim_prefix b'v' input))

-- The results -1, 0 and 1 are `lt`, `eq` and `gt`.
unfoldable pub compare_prerelease_identifier : Text → Text → Ordering
unfolding is_numeric
compare_prerelease_identifier left right =
    if is_numeric left && not (is_numeric right)
    then Ordering.lt
    else if not (is_numeric left) && is_numeric right
    then Ordering.gt
    else if is_numeric left && ltb (length left) (length right)
    then Ordering.lt
    else if is_numeric left && ltb (length right) (length left)
    then Ordering.gt
    else compare_text left right

-- The loop over the indices that both lists have: `eq` if it finds no difference.
unfoldable pub first_difference : List Text → List Text → Ordering
unfolding compare_prerelease_identifier
first_difference [] right = Ordering.eq
first_difference (l ∷ left) [] = Ordering.eq
first_difference (l ∷ left) (r ∷ right) =
    let rest = first_difference left right in
    elim (compare_prerelease_identifier l r) [ Ordering.eq ↦ rest | o ↦ o ]

unfoldable pub compare_prerelease : List Text → List Text → Ordering
unfolding first_difference
compare_prerelease left right =
    if is_empty left && is_empty right
    then Ordering.eq
    else if is_empty left
    then Ordering.gt
    else if is_empty right
    then Ordering.lt
    else elim (first_difference left right) [
      | Ordering.eq ↦
          if ltb (length left) (length right)
          then Ordering.lt
          else if ltb (length right) (length left)
          then Ordering.gt
          else Ordering.eq
      | o ↦ o
    ]

-- The loop of `Compare` over the three pairs of numbers.
unfoldable pub compare_pairs : List (ℕ × ℕ) → Ordering → Ordering
compare_pairs [] rest = rest
compare_pairs ((a, b) ∷ pairs) rest =
    let later = compare_pairs pairs rest in
    if ltb a b then Ordering.lt else if ltb b a then Ordering.gt else later

-- `Compare`, once both texts are parsed.
unfoldable pub compare_values : Value → Value → Ordering
unfolding compare_pairs
compare_values l r =
    compare_pairs ((l.major, r.major) ∷ (l.minor, r.minor) ∷ (l.patch, r.patch) ∷ [])
      (compare_prerelease l.prerelease r.prerelease)

unfoldable pub compare_versions : Text → Text → Result ParseError Ordering
compare_versions left right = do l ← parse left; r ← parse right; ok (compare_values l r)

abbrev is_lt : Ordering → Bool
is_lt Ordering.lt = true
is_lt _ = false

abbrev is_gt : Ordering → Bool
is_gt Ordering.gt = true
is_gt _ = false

-- The second half of `Compatible`.
unfoldable pub within_maximum : Text → Text → Result ParseError Bool
within_maximum value maximum =
    if is_empty maximum
    then ok true
    else do comparison ← compare_versions value maximum; ok (not (is_gt comparison))

unfoldable pub compatible : Text → Text → Text → Result ParseError Bool
unfolding within_maximum
compatible value minimum maximum = if is_empty minimum then within_maximum value maximum else do
  comparison ← compare_versions value minimum
  if is_lt comparison then ok false else within_maximum value maximum
