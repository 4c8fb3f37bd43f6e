-- ===== src/Version/Order.antt =====
-- internal/version/semver.go: the comparison of parsed versions, as an order.
use agent_stack_manager.Prelude.{
  ◌≡◌, refl, List, [], ◌∷◌, Ordering, arith, ◌↔◌, ltb, length, if◌then◌else◌,
}
use agent_stack_manager.Prelude.Text.{Text, lex, compare_text}
use agent_stack_manager.Prelude.Order.{
  flip, IsOrder, compare_self, compare_text-IsOrder, lex-IsOrder,
}
use agent_stack_manager.Version.{
  Value, compare_prerelease_identifier, first_difference, compare_prerelease, compare_values,
}

text-IsOrder : IsOrder compare_text
text-IsOrder = compare_text-IsOrder

identifier_trans :
    (a b c : Text)
    → compare_prerelease_identifier a b ≡ Ordering.lt
    → compare_prerelease_identifier b c ≡ Ordering.lt
    → compare_prerelease_identifier a c ≡ Ordering.lt
unfolding compare_prerelease_identifier
identifier_trans a b c h k = ground (arith, text-IsOrder.trans a b c)

pub identifier-IsOrder : IsOrder compare_prerelease_identifier
unfolding compare_prerelease_identifier
identifier-IsOrder = record {
  flips = λ a b. ground (arith, text-IsOrder.flips a b);
  sound = λ a b h. ground (arith, text-IsOrder.sound a b);
  trans = identifier_trans;
}

-- The loop and the comparison of the lengths after it are the lexicographic order.
lengths_after : List Text → List Text → Ordering
lengths_after left right = elim (first_difference left right) [
  | Ordering.eq ↦
      if ltb (length left) (length right)
      then Ordering.lt
      else if ltb (length right) (length left)
      then Ordering.gt
      else Ordering.eq
  | o ↦ o
]

lengths_after-eq-lex :
    (xs ys : List Text) → lengths_after xs ys ≡ lex compare_prerelease_identifier xs ys
unfolding lengths_after first_difference lex
lengths_after-eq-lex [] [] = refl
lengths_after-eq-lex [] (y ∷ ys) = ground arith
lengths_after-eq-lex (x ∷ xs) [] = ground arith
lengths_after-eq-lex (x ∷ xs) (y ∷ ys) = ground (arith, lengths_after-eq-lex xs ys)

identifiers-IsOrder : IsOrder (lex compare_prerelease_identifier)
identifiers-IsOrder = lex-IsOrder identifier-IsOrder

-- A version with no prerelease comes after all that have one.
compare_prerelease_cons :
    (x : Text) (xs : List Text) (y : Text) (ys : List Text)
    → compare_prerelease (x ∷ xs) (y ∷ ys) ≡ lex compare_prerelease_identifier (x ∷ xs) (y ∷ ys)
unfolding compare_prerelease lengths_after
compare_prerelease_cons x xs y ys = lengths_after-eq-lex (x ∷ xs) (y ∷ ys)

prerelease_flips : (xs ys : List Text) → compare_prerelease ys xs ≡ flip (compare_prerelease xs ys)
prerelease_flips [] [] = unfold compare_prerelease in refl
prerelease_flips [] (y ∷ ys) = unfold compare_prerelease in refl
prerelease_flips (x ∷ xs) [] = unfold compare_prerelease in refl
prerelease_flips (x ∷ xs) (y ∷ ys) =
    rw (compare_prerelease_cons y ys x xs, compare_prerelease_cons x xs y ys)
      (identifiers-IsOrder.flips (x ∷ xs) (y ∷ ys))

prerelease_sound : (xs ys : List Text) → compare_prerelease xs ys ≡ Ordering.eq → xs ≡ ys
prerelease_sound [] [] h = refl
prerelease_sound [] (y ∷ ys) h = unfold compare_prerelease in cc
prerelease_sound (x ∷ xs) [] h = unfold compare_prerelease in cc
prerelease_sound (x ∷ xs) (y ∷ ys) h =
    identifiers-IsOrder.sound (x ∷ xs) (y ∷ ys) (rw compare_prerelease_cons at h)

prerelease_trans :
    (xs ys zs : List Text)
    → compare_prerelease xs ys ≡ Ordering.lt
    → compare_prerelease ys zs ≡ Ordering.lt
    → compare_prerelease xs zs ≡ Ordering.lt
prerelease_trans [] [] zs h k = unfold compare_prerelease in cc
prerelease_trans [] (y ∷ ys) zs h k = unfold compare_prerelease in cc
prerelease_trans (x ∷ xs) [] [] h k = unfold compare_prerelease in refl
prerelease_trans (x ∷ xs) [] (z ∷ zs) h k = unfold compare_prerelease in cc
prerelease_trans (x ∷ xs) (y ∷ ys) [] h k = unfold compare_prerelease in refl
prerelease_trans (x ∷ xs) (y ∷ ys) (z ∷ zs) h k = rw compare_prerelease_cons (
    identifiers-IsOrder.trans (x ∷ xs) (y ∷ ys) (z ∷ zs) (rw compare_prerelease_cons at h)
      (rw compare_prerelease_cons at k))

pub prerelease-IsOrder : IsOrder compare_prerelease
prerelease-IsOrder = record {
  flips = prerelease_flips;
  sound = prerelease_sound;
  trans = prerelease_trans;
}

-- Equal but for the raw text, and so for build metadata.
pub record SamePrecedence (l r : Value) : Type 0 where
  pub major : l.major ≡ r.major
  pub minor : l.minor ≡ r.minor
  pub patch : l.patch ≡ r.patch
  pub prerelease : l.prerelease ≡ r.prerelease

values_flip : (l r : Value) → compare_values r l ≡ flip (compare_values l r)
unfolding compare_values
values_flip l r = ground (arith, prerelease_flips l.prerelease r.prerelease)

-- Of a version with itself the three numbers decide nothing.
values_same_0 : (l r : Value) → compare_values l r ≡ Ordering.eq → SamePrecedence l r
unfolding compare_values
values_same_0 l r h = ground (arith, prerelease_sound l.prerelease r.prerelease)

values_same_1 : (l r : Value) → SamePrecedence l r → compare_values l r ≡ Ordering.eq
unfolding compare_values
values_same_1 l r s = ground (arith, s.prerelease, compare_self prerelease-IsOrder r.prerelease)

values_trans :
    (a b c : Value)
    → compare_values a b ≡ Ordering.lt
    → compare_values b c ≡ Ordering.lt
    → compare_values a c ≡ Ordering.lt
unfolding compare_values
values_trans a b c h k = ground (arith, prerelease_trans a.prerelease b.prerelease c.prerelease)

-- `Compare` on parsed versions is antisymmetric and transitive, and 0 exactly for versions that have
-- the same numbers and the same prerelease identifiers.
pub compare_values_total_order :
    ((l r : Value) → compare_values r l ≡ flip (compare_values l r))
    × ((l r : Value) → (compare_values l r ≡ Ordering.eq) ↔ SamePrecedence l r)
    × ((a b c : Value)
        → compare_values a b ≡ Ordering.lt
        → compare_values b c ≡ Ordering.lt
        → compare_values a c ≡ Ordering.lt)
compare_values_total_order =
    (values_flip, λ l r. (values_same_0 l r, values_same_1 l r), values_trans)
