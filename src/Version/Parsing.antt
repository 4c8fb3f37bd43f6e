-- ===== src/Version/Parsing.antt =====
-- internal/version/semver.go: `Parse` on the texts of the semantic version grammar.
use mathlib.Core.List.{append_assoc}
use agent_stack_manager.Prelude.{
  ℕ, ◌≡◌, refl, Bool, true, false, not, Option, none, some, List, [], ◌∷◌, ◌++◌, arith, ok, err,
  Result, leb, ◌&&◌, if◌then◌else◌, ◌==◌, ◌>>=◌,
}
use agent_stack_manager.Prelude.Text.{
  Text, all, is_digit, is_space, value, split, trim_space, trim_prefix,
}
use agent_stack_manager.Prelude.TextLaws.{
  Lacks, all-append, all-imp, trim-lacks, tail_text, split_two-tail_text, joined, split-joined,
  all-joined, split-Lacks,
}
use agent_stack_manager.Version.{
  Core, Value, ParseError, invalid, max_int, is_numeric, is_identifier_char, valid_identifier,
  valid_identifiers, groups_of, parse_part, parse_prerelease, parse_core, parse, parse_raw,
}

-- Identifiers between dots: the first of them, and the others.
abbrev pub Identifiers : Type 0
Identifiers = Text × List Text

abbrev pub list_of : Option Identifiers → List Text
list_of none = []
list_of (some (w, ws)) = w ∷ ws

abbrev pub dotted : Option Identifiers → Option Text
dotted none = none
dotted (some (w, ws)) = some (joined b'.' w ws)

-- The parts of a version: three texts of digits, the prerelease and the build metadata.
pub record Parts : Type 0 where
  pub major : Text
  pub minor : Text
  pub patch : Text
  pub prerelease : Option Identifiers
  pub build : Option Identifiers

abbrev pub IsNumber : Text → Type 0
IsNumber s = is_numeric s ≡ true

-- Whether the three numbers fit in Go's `int`, which the grammar does not ask.
abbrev pub fits : Parts → Bool
fits p = leb (value p.major) max_int && (leb (value p.minor) max_int && leb (value p.patch) max_int)

-- What the grammar asks of the parts, but that a number may begin with 0.
pub record IsSemver (p : Parts) : Type 0 where
  pub major : IsNumber p.major
  pub minor : IsNumber p.minor
  pub patch : IsNumber p.patch
  pub prerelease : all (valid_identifier true) (list_of p.prerelease) ≡ true
  pub build : all (valid_identifier false) (list_of p.build) ≡ true

abbrev pub core_text : Parts → Text
core_text p = joined b'.' p.major (p.minor ∷ p.patch ∷ [])

abbrev before_build : Parts → Text
before_build p = core_text p ++ tail_text b'-' (dotted p.prerelease)

-- `major.minor.patch-prerelease+build`.
abbrev pub text_of : Parts → Text
text_of p = before_build p ++ tail_text b'+' (dotted p.build)

-- Characters that a class of texts has none of.
digit_lacks :
    (p : ℕ → Bool)
    → ((c : ℕ) → is_digit c ≡ true → p c ≡ true)
    → (s : Text) → IsNumber s
    → all p s ≡ true
digit_lacks p w s h = all-imp is_digit p w s (unfold is_numeric in ground (arith, h))

identifier_lacks :
    (p : ℕ → Bool)
    → ((c : ℕ) → is_identifier_char c ≡ true → p c ≡ true)
    → (b : Bool) (ws : List Text) → all (valid_identifier b) ws ≡ true
    → all (all p) ws ≡ true
identifier_lacks p w b ws h =
    all-imp (valid_identifier b) (all p)
      (λ s v. all-imp is_identifier_char p w s (unfold valid_identifier in ground (arith, v))) ws h

-- Texts all of whose characters pass a test that the digits pass.
module _ (p : ℕ → Bool) (w : (c : ℕ) → is_digit c ≡ true → p c ≡ true) (v : Parts)
    (s : IsSemver v) where
  core_all : p b'.' ≡ true → all p (core_text v) ≡ true
  core_all dot = all-joined p b'.' v.major (v.minor ∷ v.patch ∷ []) dot (
      ground (
        arith,
        digit_lacks p w v.major s.major,
        digit_lacks p w v.minor s.minor,
        digit_lacks p w v.patch s.patch,
      ))

-- And so for a test that all characters of identifiers pass.
dotted-all :
    (p : ℕ → Bool) (w : (c : ℕ) → is_identifier_char c ≡ true → p c ≡ true) (b : Bool) (sep : ℕ)
    (o : Option Identifiers)
    → all (valid_identifier b) (list_of o) ≡ true
    → p b'.' ≡ true
    → p sep ≡ true
    → all p (tail_text sep (dotted o)) ≡ true
dotted-all p w b sep none h dot q = refl
dotted-all p w b sep (some (x, xs)) h dot q =
    ground (arith, all-joined p b'.' x xs dot (identifier_lacks p w b (x ∷ xs) h))

module _ (v : Parts) (s : IsSemver v) where
  before_build-Lacks : Lacks b'+' (before_build v)
  before_build-Lacks =
      all-append _ (core_text v) (tail_text b'-' (dotted v.prerelease))
        (core_all (λ x. not (x == b'+')) (λ c h. ground arith) v s refl)
        (dotted-all (λ x. not (x == b'+')) (λ c h. ground arith) true b'-' v.prerelease s.prerelease
          refl refl)

  no_space : (c : ℕ) → is_identifier_char c ≡ true → not (is_space c) ≡ true
  no_space c h = ground arith

  text_trimmed : trim_space (text_of v) ≡ text_of v
  unfolding trim_space
  text_trimmed = trim-lacks is_space (text_of v) (
      all-append _ (before_build v) (tail_text b'+' (dotted v.build))
        (all-append _ (core_text v) (tail_text b'-' (dotted v.prerelease))
          (core_all (λ x. not (is_space x)) (λ c h. no_space c (ground arith)) v s refl)
          (dotted-all (λ x. not (is_space x)) no_space true b'-' v.prerelease s.prerelease refl
            refl))
        (dotted-all (λ x. not (is_space x)) no_space false b'+' v.build s.build refl refl))

-- A list of identifiers is split at its dots.
split_dotted :
    (b : Bool) (x : Text) (xs : List Text)
    → all (valid_identifier b) (x ∷ xs) ≡ true
    → split b'.' (joined b'.' x xs) ≡ x ∷ xs
split_dotted b x xs h =
    split-joined b'.' x xs
      (identifier_lacks (λ c. not (c == b'.')) (λ c k. ground arith) b (x ∷ xs) h)

-- Each group here is one identifier, which the inner loop does not split further.
singles_valid :
    (b : Bool) (ws : List Text)
    → all (valid_identifier b) ws ≡ true
    → all (all (λ c. not (c == b'.'))) ws ≡ true
    → valid_identifiers ws b ≡ true
unfolding valid_identifiers
singles_valid b [] h k = refl
singles_valid b (w ∷ ws) h k =
    rw (split-Lacks b'.' w (ground arith)) (ground (arith, singles_valid b ws))

build_valid :
    (o : Option Identifiers)
    → all (valid_identifier false) (list_of o) ≡ true
    → valid_identifiers (groups_of (dotted o)) false ≡ true
unfolding valid_identifiers
build_valid none h = refl
build_valid (some (x, xs)) h = rw (split_dotted false x xs h) (ground arith)

prerelease_parsed :
    (o : Option Identifiers) (e : ParseError)
    → all (valid_identifier true) (list_of o) ≡ true
    → parse_prerelease (dotted o) e ≡ ok (list_of o)
unfolding parse_prerelease
prerelease_parsed none e h = refl
prerelease_parsed (some (x, xs)) e h = rw (split_dotted true x xs h) (
    rw (
      singles_valid true (x ∷ xs) h
        (identifier_lacks (λ c. not (c == b'.')) (λ c k. ground arith) true (x ∷ xs) h)))

abbrev three : ℕ → ℕ → ℕ → Core
three x y z = (x, y, z)

-- A test before what follows, and three tests in a row.
bind-chosen :
    {A B : Type 0} (b : Bool) (e : ParseError) (a : A) (f : A → B)
    → ((if b then ok a else err e) >>= (λ x. ok (f x))) ≡ (if b then ok (f a) else err e)
bind-chosen true e a f = refl
bind-chosen false e a f = refl

three_chosen :
    (a b c : Bool) (e : ParseError) (x y z : ℕ)
    → ((if a then ok x else err e) >>= (λ i.
        (if b then ok y else err e)
        >>= (λ j. (if c then ok z else err e) >>= (λ k. ok (three i j k)))))
      ≡ (if a && (b && c) then ok (three x y z) else err e)
three_chosen true true true e x y z = refl
three_chosen true true false e x y z = refl
three_chosen true false c e x y z = refl
three_chosen false b c e x y z = refl

part_parsed :
    (s : Text) (e : ParseError)
    → IsNumber s
    → parse_part s e ≡ (if leb (value s) max_int then ok (value s) else err e)
unfolding parse_part is_numeric
part_parsed s e h = ground arith

number-Lacks_dot : (s : Text) → IsNumber s → Lacks b'.' s
number-Lacks_dot = digit_lacks (λ c. not (c == b'.')) (λ c k. ground arith)

core_parsed :
    (v : Parts) (e : ParseError)
    → IsSemver v
    → parse_core (split b'.' (core_text v)) e
      ≡ (if fits v then ok (value v.major, value v.minor, value v.patch) else err e)
core_parsed v e s =
    rw
      (split-joined b'.' v.major (v.minor ∷ v.patch ∷ []) (
        ground (
          arith,
          number-Lacks_dot v.major s.major,
          number-Lacks_dot v.minor s.minor,
          number-Lacks_dot v.patch s.patch,
        )))
      (unfold parse_core in
        rw
          (
            part_parsed v.major e s.major,
            part_parsed v.minor e s.minor,
            part_parsed v.patch e s.patch,
          )
          (three_chosen (leb (value v.major) max_int) (leb (value v.minor) max_int)
            (leb (value v.patch) max_int) e (value v.major) (value v.minor) (value v.patch)))

trim_prefix_number : (m t : Text) → IsNumber m → trim_prefix b'v' (m ++ t) ≡ m ++ t
unfolding trim_prefix is_numeric
trim_prefix_number [] t h = cc
trim_prefix_number (c ∷ m) t h = ground arith

text_untouched : (v : Parts) → IsSemver v → trim_prefix b'v' (text_of v) ≡ text_of v
text_untouched v s =
    rw (append_assoc, append_assoc, append_assoc) (trim_prefix_number v.major _ s.major)

-- What is read back.
abbrev pub value_of : Parts → Value
value_of v = record {
  major = value v.major;
  minor = value v.minor;
  patch = value v.patch;
  raw = text_of v;
  prerelease = list_of v.prerelease;
}

-- What `Parse` makes of it, in the text `input`.
abbrev pub read_as : Parts → Text → Result ParseError Value
read_as v input = if fits v then ok (value_of v) else err (invalid input)

raw_parsed :
    (v : Parts) → IsSemver v → (input : Text) → parse_raw input (text_of v) ≡ read_as v input
unfolding parse_raw
raw_parsed v s input =
    rw
      (
        split_two-tail_text b'+' (before_build v) (dotted v.build) (before_build-Lacks v s),
        split_two-tail_text b'-' (core_text v) (dotted v.prerelease)
            (core_all (λ c. not (c == b'-')) (λ c h. ground arith) v s refl),
        build_valid v.build s.build,
        prerelease_parsed v.prerelease (invalid input) s.prerelease,
        core_parsed v (invalid input) s,
      )
      (bind-chosen (fits v) (invalid input) (value v.major, value v.minor, value v.patch)
        (λ core. record {
          major = core.0;
          minor = core.1;
          patch = core.2;
          raw = text_of v;
          prerelease = list_of v.prerelease;
        }))

parse_of_trimmed :
    (v : Parts)
    → IsSemver v
    → (input : Text) → trim_prefix b'v' input ≡ text_of v
    → parse input ≡ read_as v input
parse_of_trimmed v s input e = unfold parse in rw (e, text_trimmed v s) (raw_parsed v s input)

-- For every text of the semantic version grammar, with or without a `v` before it, and also where
-- its numbers begin with 0: if its three numbers fit in an `int`, `Parse` returns its parts, and
-- otherwise it fails.
pub parse-text_of :
    (v : Parts)
    → IsSemver v
    → (parse (text_of v) ≡ (if fits v then ok (value_of v) else err (invalid (text_of v))))
      × (parse (b'v' ∷ text_of v)
          ≡ (if fits v then ok (value_of v) else err (invalid (b'v' ∷ text_of v))))
parse-text_of v s = (
  parse_of_trimmed v s (text_of v) (text_untouched v s),
  parse_of_trimmed v s (b'v' ∷ text_of v) (unfold trim_prefix in refl),
)
