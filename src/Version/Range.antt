-- ===== src/Version/Range.antt =====
-- internal/version/semver.go: `Compatible` on texts.
use agent_stack_manager.Prelude.{
  ◌≡◌, ◌≢◌, ◌↔◌, ◌⊎◌, inl, inr, true, Bool-cases, Result-cases, Ordering, ok, arith,
}
use agent_stack_manager.Prelude.Text.{Text, is_empty}
use agent_stack_manager.Version.{
  Value, parse, compare_values, compare_versions, within_maximum, compatible,
}

-- A lower bound that the value meets: none, or a version that it is not before.
abbrev pub AtLeast : Value → Text → Type 0
AtLeast v bound =
    (is_empty bound ≡ true)
    ⊎ ((b : Value) × (parse bound ≡ ok b) × (compare_values v b ≢ Ordering.lt))

abbrev pub AtMost : Value → Text → Type 0
AtMost v bound =
    (is_empty bound ≡ true)
    ⊎ ((b : Value) × (parse bound ≡ ok b) × (compare_values v b ≢ Ordering.gt))

module _ (value bound : Text) (v : Value) (h : parse value ≡ ok v) where
  within_maximum_only : within_maximum value bound ≡ ok true → AtMost v bound
  unfolding within_maximum compare_versions
  within_maximum_only k = elim (Result-cases (parse bound)) [
    | inl (b, e) ↦ elim (Bool-cases (is_empty bound)) [
      | inl none_given ↦ inl none_given
      | inr given ↦ inr (b, e, λ gt. ground arith)
    ]
    | inr (x, e) ↦ inl (ground arith)
  ]

  within_maximum_if : AtMost v bound → within_maximum value bound ≡ ok true
  unfolding within_maximum compare_versions
  within_maximum_if (inl e) = ground arith
  within_maximum_if (inr (b, e, n)) = ground arith

  AtLeast-only :
      (maximum : Text)
      → compatible value bound maximum ≡ ok true
      → AtLeast v bound × (within_maximum value maximum ≡ ok true)
  unfolding compatible compare_versions
  AtLeast-only maximum k = elim (Result-cases (parse bound)) [
    | inl (b, e) ↦ elim (Bool-cases (is_empty bound)) [
      | inl none_given ↦ (inl none_given, ground arith)
      | inr given ↦ (inr (b, e, λ lt. ground arith), ground arith)
    ]
    | inr (x, e) ↦ (inl (ground arith), ground arith)
  ]

  AtLeast-if :
      (maximum : Text)
      → AtLeast v bound
      → within_maximum value maximum ≡ ok true
      → compatible value bound maximum ≡ ok true
  unfolding compatible compare_versions
  AtLeast-if maximum (inl e) k = ground arith
  AtLeast-if maximum (inr (b, e, n)) k = ground arith

-- `Compatible` says yes to a version exactly when it lies between the bounds that are given, and the
-- bounds that are given parse.
pub compatible_iff :
    (value minimum maximum : Text) (v : Value)
    → parse value ≡ ok v
    → (compatible value minimum maximum ≡ ok true) ↔ (AtLeast v minimum × AtMost v maximum)
compatible_iff value minimum maximum v h = (
  λ k.
      let (low, rest) = AtLeast-only value minimum v h maximum k in
      (low, within_maximum_only value maximum v h rest),
  λ k. AtLeast-if value minimum v h maximum k.0 (within_maximum_if value maximum v h k.1),
)
