-- ===== src/Prelude/Sorting.antt =====
-- `sort.SliceStable`: the one stable order of a list by a comparison, as an insertion sort.
use mathlib.Core.Bool.{Bool}
use mathlib.Core.List.{List, [], ◌∷◌}
use mathlib.Core.Logic.{inl, inr}
use agent_stack_manager.Prelude.Tests.{if◌then◌else◌, Bool-cases}
use agent_stack_manager.Prelude.Lists.{All}

module _ {ℓ} {A : Type ℓ} (less : A → A → Bool) where
  unfoldable pub insert_before : A → List A → List A
  insert_before x [] = x ∷ []
  insert_before x (y ∷ ys) =
      let rest = insert_before x ys in if less y x then y ∷ rest else x ∷ y ∷ ys

  unfoldable pub sort_stable : List A → List A
  unfolding insert_before
  sort_stable [] = []
  sort_stable (x ∷ xs) = insert_before x (sort_stable xs)

  pub All-insert_before {κ} :
      (P : A → Type κ) (x : A) (xs : List A) → P x → All P xs → All P (insert_before x xs)
  unfolding insert_before
  All-insert_before P x [] p h = (p, tt)
  All-insert_before P x (y ∷ ys) p h = elim (Bool-cases (less y x)) [
    | inl before ↦ rw before (h.0, All-insert_before P x ys p h.1)
    | inr after ↦ rw after (p, h)
  ]

  pub All-sort_stable {κ} : (P : A → Type κ) (xs : List A) → All P xs → All P (sort_stable xs)
  unfolding sort_stable
  All-sort_stable P [] h = tt
  All-sort_stable P (x ∷ xs) h =
      All-insert_before P x (sort_stable xs) h.0 (All-sort_stable P xs h.1)
