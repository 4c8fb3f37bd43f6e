-- ===== src/Prelude/TextLaws.antt =====
-- Laws of the text functions: splitting what was joined, and trimming what has no space.
use Prim.Native.Nat.{ℕ}
use mathlib.Core.Path.{◌≡◌, refl, ap, ◌∙◌}
use mathlib.Core.Bool.{Bool, true, not}
use mathlib.Core.Option.{Option, none, some}
use mathlib.Core.List.{List, [], ◌∷◌, ◌++◌, reverse, reverse-reverse, reverse-cons, append-nil}
use native.Mathlib.Omega.{arith}
use agent_stack_manager.Prelude.Tests.{◌==◌}
use agent_stack_manager.Prelude.Text.{Text, all, trim_left, trim, split, split_two}

-- No character of the text is `c`.
abbrev pub Lacks : ℕ → Text → Type 0
Lacks c s = all (λ x. not (x == c)) s ≡ true

module _ {ℓ} {A : Type ℓ} where
  pub all-append :
      (p : A → Bool) (xs ys : List A) → all p xs ≡ true → all p ys ≡ true → all p (xs ++ ys) ≡ true
  all-append p [] ys h k = k
  all-append p (x ∷ xs) ys h k = ground (arith, all-append p xs ys)

  -- A weaker test holds of all of them too.
  pub all-imp :
      (p q : A → Bool)
      → ((a : A) → p a ≡ true → q a ≡ true)
      → (xs : List A) → all p xs ≡ true
      → all q xs ≡ true
  all-imp p q w [] h = refl
  all-imp p q w (x ∷ xs) h = ground (arith, w x, all-imp p q w xs)

  pub all-reverse : (p : A → Bool) (xs : List A) → all p xs ≡ true → all p (reverse xs) ≡ true
  all-reverse p [] h = refl
  all-reverse p (x ∷ xs) h =
      rw reverse-cons
        (all-append p (reverse xs) (x ∷ []) (all-reverse p xs (ground arith)) (ground arith))

pub split-Lacks : (c : ℕ) (s : Text) → Lacks c s → split c s ≡ s ∷ []
unfolding split
split-Lacks c [] h = refl
split-Lacks c (x ∷ s) h = ground (arith, split-Lacks c s)

pub split-append : (c : ℕ) (s t : Text) → Lacks c s → split c (s ++ c ∷ t) ≡ s ∷ split c t
unfolding split
split-append c [] t h = ground arith
split-append c (x ∷ s) t h = ground (arith, split-append c s t)

pub split_two-Lacks : (c : ℕ) (s : Text) → Lacks c s → split_two c s ≡ (s, none)
unfolding split_two
split_two-Lacks c [] h = refl
split_two-Lacks c (x ∷ s) h = ground (arith, split_two-Lacks c s)

pub split_two-append : (c : ℕ) (s t : Text) → Lacks c s → split_two c (s ++ c ∷ t) ≡ (s, some t)
unfolding split_two
split_two-append c [] t h = ground arith
split_two-append c (x ∷ s) t h = ground (arith, split_two-append c s t)

trim_left-lacks : (p : ℕ → Bool) (s : Text) → all (λ c. not (p c)) s ≡ true → trim_left p s ≡ s
unfolding trim_left
trim_left-lacks p [] h = refl
trim_left-lacks p (c ∷ s) h = ground arith

pub trim-lacks : (p : ℕ → Bool) (s : Text) → all (λ c. not (p c)) s ≡ true → trim p s ≡ s
unfolding trim
trim-lacks p s h = rw (
  trim_left-lacks p s h,
  trim_left-lacks p (reverse s) (all-reverse (λ c. not (p c)) s h),
  reverse-reverse s,
)

-- What follows a separator, or nothing.
abbrev pub tail_text : ℕ → Option Text → Text
tail_text sep none = []
tail_text sep (some t) = sep ∷ t

pub split_two-tail_text :
    (sep : ℕ) (s : Text) (o : Option Text)
    → Lacks sep s
    → split_two sep (s ++ tail_text sep o) ≡ (s, o)
split_two-tail_text sep s none h = rw append-nil (split_two-Lacks sep s h)
split_two-tail_text sep s (some t) h = split_two-append sep s t h

-- Words joined by a separator.
abbrev pub joined : ℕ → Text → List Text → Text
joined sep w [] = w
joined sep w (v ∷ vs) = w ++ sep ∷ joined sep v vs

pub split-joined :
    (sep : ℕ) (w : Text) (ws : List Text)
    → all (all (λ x. not (x == sep))) (w ∷ ws) ≡ true
    → split sep (joined sep w ws) ≡ w ∷ ws
split-joined sep w [] h = split-Lacks sep w (ground arith)
split-joined sep w (v ∷ vs) h =
    split-append sep w (joined sep v vs) (ground arith)
    ∙ ap (λ (r : List Text). w ∷ r) (split-joined sep v vs (ground arith))

pub all-joined :
    (p : ℕ → Bool) (sep : ℕ) (w : Text) (ws : List Text)
    → p sep ≡ true
    → all (all p) (w ∷ ws) ≡ true
    → all p (joined sep w ws) ≡ true
all-joined p sep w [] s h = ground arith
all-joined p sep w (v ∷ vs) s h =
    all-append p w (sep ∷ joined sep v vs) (ground arith) (ground (arith, all-joined p sep v vs))
