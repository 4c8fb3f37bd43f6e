-- ===== src/Version/Identifiers.antt =====
-- Numeric prerelease identifiers, which the code compares by length and then as texts, against the
-- numbers that they write.
use agent_stack_manager.Prelude.{
  ℕ, ◌+◌, ◌*◌, ◌-◌, ◌≤◌, ◌<◌, ◌≡◌, true, [], ◌∷◌, compare, arith, length,
}
use agent_stack_manager.Prelude.Text.{Text, all, is_digit, value, value_from, compare_text, lex}
use agent_stack_manager.Version.{is_numeric, valid_identifier, compare_prerelease_identifier}

le-value_from : (n : ℕ) (s : Text) → n ≤ value_from n s
unfolding value_from
le-value_from n [] = omega arith
le-value_from n (c ∷ s) = omega (arith, le-value_from (n * 10 + (c - 48)) s)

-- A greater start stays greater, if no digits are missing after it.
value_from_lt :
    (n m : ℕ) (s t : Text)
    → n < m
    → length s ≤ length t
    → all is_digit s ≡ true
    → value_from n s < value_from m t
unfolding value_from
value_from_lt n m [] t h k d = omega (arith, le-value_from m t)
value_from_lt n m (c ∷ s) [] h k d = absurd (omega arith)
value_from_lt n m (c ∷ s) (e ∷ t) h k d =
    value_from_lt (n * 10 + (c - 48)) (m * 10 + (e - 48)) s t (ground arith) (omega arith)
      (ground arith)

-- Of two texts of digits of one length, the order of the texts is that of the numbers.
value_from-compare :
    (n : ℕ) (s t : Text)
    → length s ≡ length t
    → all is_digit s ≡ true
    → all is_digit t ≡ true
    → lex compare s t ≡ compare (value_from n s) (value_from n t)
unfolding value_from lex
value_from-compare n [] [] k d e = ground arith
value_from-compare n [] (b ∷ t) k d e = absurd (omega arith)
value_from-compare n (a ∷ s) [] k d e = absurd (omega arith)
value_from-compare n (a ∷ s) (b ∷ t) k d e = ground (
  arith,
  value_from-compare (n * 10 + (a - 48)) s t,
  value_from_lt (n * 10 + (a - 48)) (n * 10 + (b - 48)) s t,
  value_from_lt (n * 10 + (b - 48)) (n * 10 + (a - 48)) t s,
)

-- A shorter text of digits writes a smaller number than a longer one that does not begin with 0.
value_lt :
    (s t : Text)
    → length s < length t
    → all is_digit s ≡ true
    → all is_digit t ≡ true
    → is_numeric s ≡ true
    → valid_identifier true t ≡ true
    → value s < value t
unfolding value value_from valid_identifier
value_lt [] t h d e ns v = absurd (unfold is_numeric in ground arith)
value_lt (a ∷ s) [] h d e ns v = absurd (omega arith)
value_lt (a ∷ s) (b ∷ t) h d e ns v = ground (arith, value_from_lt 0 (b - 48) (a ∷ s) t)

digits_of_numeric : (s : Text) → is_numeric s ≡ true → all is_digit s ≡ true
unfolding is_numeric
digits_of_numeric s h = ground arith

-- Two valid numeric prerelease identifiers, of any length, are ordered as the numbers that they
-- write.
pub compare_prerelease_identifier_numeric :
    (l r : Text)
    → valid_identifier true l ≡ true
    → valid_identifier true r ≡ true
    → is_numeric l ≡ true
    → is_numeric r ≡ true
    → compare_prerelease_identifier l r ≡ compare (value l) (value r)
compare_prerelease_identifier_numeric l r vl vr nl nr =
    let dl = digits_of_numeric l nl in
    let dr = digits_of_numeric r nr in
    unfold compare_prerelease_identifier value compare_text in
    ground (arith, value_lt l r, value_lt r l, value_from-compare 0 l r)
