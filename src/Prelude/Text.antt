-- ===== src/Prelude/Text.antt =====
-- What the program uses of Go's `strings` and `strconv`, over texts as lists of code points.
use Prim.Native.Char.{code}
use Prim.Native.String.{String, ◌++◌ as str_append, compare as compare_string}
use Prim.Native.Nat.{ℕ, ◌+◌, ◌-◌, ◌*◌, compare, Ordering}
use mathlib.Core.Bool.{Bool, true, false, ◌&&◌, ◌||◌}
use mathlib.Core.Option.{Option, none, some}
use mathlib.Core.List.{List, [], ◌∷◌, reverse}
use agent_stack_manager.Prelude.Tests.{leb, ◌==◌, if◌then◌else◌}

-- Go's `+` of strings, over a list.
abbrev pub concatenated : List String → String
concatenated [] = ""
concatenated (s ∷ ss) = str_append s (concatenated ss)

abbrev pub Text : Type 0
Text = List ℕ

-- The code points of a literal.
abbrev pub codes : String → Text
codes String.[] = []
codes (String.◌∷◌ c s) = code c ∷ codes s

abbrev pub is_empty {ℓ} : {A : Type ℓ} → List A → Bool
is_empty [] = true
is_empty (x ∷ xs) = false

-- Does one of them pass the test? `strings.IndexFunc(s, p) >= 0`.
abbrev pub any {ℓ} : {A : Type ℓ} → (A → Bool) → List A → Bool
any p [] = false
any p (x ∷ xs) = p x || any p xs

abbrev pub all {ℓ} : {A : Type ℓ} → (A → Bool) → List A → Bool
all p [] = true
all p (x ∷ xs) = p x && all p xs

-- `unicode.IsSpace`.
abbrev pub is_space : ℕ → Bool
is_space c =
    (leb 9 c && leb c 13)
    || c == 32
    || c == 0x85
    || c == 0xA0
    || c == 0x1680
    || (leb 0x2000 c && leb c 0x200A)
    || c == 0x2028
    || c == 0x2029
    || c == 0x202F
    || c == 0x205F
    || c == 0x3000

unfoldable pub trim_left : (ℕ → Bool) → Text → Text
trim_left p [] = []
trim_left p (c ∷ s) = if p c then trim_left p s else c ∷ s

unfoldable pub trim : (ℕ → Bool) → Text → Text
unfolding trim_left
trim p s = reverse (trim_left p (reverse (trim_left p s)))

-- `strings.TrimSpace`.
unfoldable pub trim_space : Text → Text
unfolding trim
trim_space = trim is_space

-- `strings.TrimPrefix` of one character.
unfoldable pub trim_prefix : ℕ → Text → Text
trim_prefix c [] = []
trim_prefix c (d ∷ s) = if d == c then s else d ∷ s

abbrev pub cons_head : ℕ → List Text → List Text
cons_head c [] = (c ∷ []) ∷ []
cons_head c (w ∷ ws) = (c ∷ w) ∷ ws

-- `strings.Split` at one character.
unfoldable pub split : ℕ → Text → List Text
split sep [] = [] ∷ []
split sep (c ∷ s) = let rest = split sep s in if c == sep then [] ∷ rest else cons_head c rest

abbrev pub cons_before : ℕ → Text × Option Text → Text × Option Text
cons_before c (before, after) = (c ∷ before, after)

-- `strings.SplitN(s, sep, 2)`: what stands before the first separator, and what follows it.
unfoldable pub split_two : ℕ → Text → Text × Option Text
split_two sep [] = ([], none)
split_two sep (c ∷ s) =
    let rest = split_two sep s in if c == sep then ([], some s) else cons_before c rest

-- `strings.Compare`, and Go's order of slices by a comparison of their elements.
unfoldable pub lex {ℓ} : {A : Type ℓ} → (A → A → Ordering) → List A → List A → Ordering
lex f [] [] = Ordering.eq
lex f [] (y ∷ ys) = Ordering.lt
lex f (x ∷ xs) [] = Ordering.gt
lex f (x ∷ xs) (y ∷ ys) = let rest = lex f xs ys in elim (f x y) [ Ordering.eq ↦ rest | o ↦ o ]

unfoldable pub compare_text : Text → Text → Ordering
unfolding lex
compare_text = lex compare

abbrev pub is_digit : ℕ → Bool
is_digit c = leb b'0' c && leb c b'9'

-- The number that a text of digits writes.
unfoldable pub value_from : ℕ → Text → ℕ
value_from n [] = n
value_from n (c ∷ s) = value_from (n * 10 + (c - b'0')) s

unfoldable pub value : Text → ℕ
unfolding value_from
value = value_from 0

-- Go's `==` of strings.
unfoldable pub text_eq : Text → Text → Bool
text_eq [] [] = true
text_eq (c ∷ s) (d ∷ t) = c == d && text_eq s t
text_eq _ _ = false

-- `strings.HasPrefix(s, p)`, and what follows the prefix.
unfoldable pub after_prefix : Text → Text → Option Text
after_prefix [] s = some s
after_prefix (c ∷ p) [] = none
after_prefix (c ∷ p) (d ∷ s) = let rest = after_prefix p s in if c == d then rest else none

abbrev pub has_prefix : Text → Text → Bool
has_prefix p s = elim (after_prefix p s) [ none ↦ false | some _ ↦ true ]

-- `strings.TrimSuffix`.
unfoldable pub trim_suffix : Text → Text → Text
unfolding after_prefix
trim_suffix p s = elim (after_prefix (reverse p) (reverse s)) [ none ↦ s | some r ↦ reverse r ]

-- `strings.Cut` at a text: what stands before its first instance, and what follows it.
unfoldable pub cut : Text → Text → Option (Text × Text)
unfolding after_prefix
cut sep [] = none
cut sep (c ∷ s) =
    let rest = cut sep s in
    elim (after_prefix sep (c ∷ s)) [
      | some after ↦ some ([], after)
      | none ↦ elim rest [ none ↦ none | some (before, after) ↦ some (c ∷ before, after) ]
    ]

abbrev pub contains_text : Text → Text → Bool
contains_text sep s = elim (cut sep s) [ none ↦ false | some _ ↦ true ]

-- `len(s)`: the bytes of the code points in UTF-8.
abbrev pub byte_width : ℕ → ℕ
byte_width c = if leb c 0x7F then 1 else if leb c 0x7FF then 2 else if leb c 0xFFFF then 3 else 4

unfoldable pub byte_length : Text → ℕ
byte_length [] = 0
byte_length (c ∷ s) = byte_width c + byte_length s

-- `strings.TrimSpace` of a native string.
unfoldable pub string_trim_left : String → String
string_trim_left String.[] = String.[]
string_trim_left (String.◌∷◌ c s) =
    let rest = string_trim_left s in if is_space (code c) then rest else String.◌∷◌ c s

unfoldable pub string_reverse : String → String → String
string_reverse String.[] after = after
string_reverse (String.◌∷◌ c s) after = string_reverse s (String.◌∷◌ c after)

unfoldable pub string_trim_space : String → String
unfolding string_trim_left string_reverse
string_trim_space s = string_reverse (string_trim_left (string_reverse (string_trim_left s) "")) ""

-- `sort.Strings` and `<` on strings compare bytes, and so code points.
abbrev pub is_before : String → String → Bool
is_before a b = elim (compare_string a b) [ Ordering.lt ↦ true | _ ↦ false ]
