-- ===== src/Prelude/Order.antt =====
-- Comparison functions that are strict total orders, and the lexicographic order on lists.
use Prim.Native.Nat.{compare, Ordering}
use mathlib.Core.Path.{◌≡◌, refl}
use mathlib.Core.List.{List, [], ◌∷◌}
use native.Mathlib.Omega.{arith}
use agent_stack_manager.Prelude.Text.{lex, compare_text}

abbrev pub flip : Ordering → Ordering
flip Ordering.lt = Ordering.gt
flip Ordering.eq = Ordering.eq
flip Ordering.gt = Ordering.lt

-- A comparison that is a strict total order, whose `eq` is equality.
pub record IsOrder {ℓ} {A : Type ℓ} (f : A → A → Ordering) : Type ℓ where
  pub flips : (a b : A) → f b a ≡ flip (f a b)
  pub sound : (a b : A) → f a b ≡ Ordering.eq → a ≡ b
  pub trans : (a b c : A) → f a b ≡ Ordering.lt → f b c ≡ Ordering.lt → f a c ≡ Ordering.lt

flip-fixed : (o : Ordering) → o ≡ flip o → o ≡ Ordering.eq
flip-fixed o h = ground arith

pub compare_self {ℓ} :
    {A : Type ℓ} {f : A → A → Ordering} → IsOrder f → (a : A) → f a a ≡ Ordering.eq
compare_self {f} o a = flip-fixed (f a a) (o.flips a a)

pub compare-IsOrder : IsOrder compare
compare-IsOrder = record {
  flips = λ a b. ground arith;
  sound = λ a b h. ground arith;
  trans = λ a b c h k. ground arith;
}

module _ {ℓ} {A : Type ℓ} {f : A → A → Ordering} (o : IsOrder f) where
  lex_flips : (xs ys : List A) → lex f ys xs ≡ flip (lex f xs ys)
  unfolding lex
  lex_flips [] [] = refl
  lex_flips [] (y ∷ ys) = refl
  lex_flips (x ∷ xs) [] = refl
  lex_flips (x ∷ xs) (y ∷ ys) = ground (arith, o.flips x y, lex_flips xs ys)

  lex_sound : (xs ys : List A) → lex f xs ys ≡ Ordering.eq → xs ≡ ys
  unfolding lex
  lex_sound [] [] h = refl
  lex_sound [] (y ∷ ys) h = cc
  lex_sound (x ∷ xs) [] h = cc
  lex_sound (x ∷ xs) (y ∷ ys) h = ground (arith, o.sound x y, lex_sound xs ys)

  lex_trans :
      (xs ys zs : List A)
      → lex f xs ys ≡ Ordering.lt
      → lex f ys zs ≡ Ordering.lt
      → lex f xs zs ≡ Ordering.lt
  unfolding lex
  lex_trans [] [] zs h k = cc
  lex_trans [] (y ∷ ys) [] h k = cc
  lex_trans [] (y ∷ ys) (z ∷ zs) h k = refl
  lex_trans (x ∷ xs) [] zs h k = cc
  lex_trans (x ∷ xs) (y ∷ ys) [] h k = cc
  lex_trans (x ∷ xs) (y ∷ ys) (z ∷ zs) h k =
      ground (arith, o.sound x y, o.sound y z, o.trans x y z, lex_trans xs ys zs)

  pub lex-IsOrder : IsOrder (lex f)
  lex-IsOrder = record { flips = lex_flips; sound = lex_sound; trans = lex_trans }

pub compare_text-IsOrder : IsOrder compare_text
unfolding compare_text
compare_text-IsOrder = lex-IsOrder compare-IsOrder
