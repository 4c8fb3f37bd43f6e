-- ===== src/Prelude/Errors.antt =====
-- A Go function that returns a value and an error.
use mathlib.Core.Path.{◌≡◌, refl, subst}
use mathlib.Core.Logic.{◌⊎◌, inl, inr}
use mathlib.Core.Bool.{Bool, true, false}

pub data Result (E A : Type 0) : Type 0 where
  ok : A → Result E A
  err : E → Result E A

pub Result-cases :
    {E A : Type 0} (run : Result E A) → ((a : A) × (run ≡ ok a)) ⊎ ((e : E) × (run ≡ err e))
Result-cases (err e) = inr (e, refl)
Result-cases (ok a) = inl (a, refl)

-- What holds of a result holds of what it is.
pub ok-subst {ℓ} :
    {E A : Type 0} (P : A → Type ℓ) {a b : A} → ◌≡◌ {A = Result E A} (ok a) (ok b) → P a → P b
ok-subst P e p = subst P (cc) p

infixl 5 ◌>>=◌ ◌>>◌
abbrev pub ◌>>=◌ : {E A B : Type 0} → Result E A → (A → Result E B) → Result E B
err e >>= next = err e
ok a >>= next = next a

abbrev pub ◌>>◌ : {E B : Type 0} → Result E (Unit {0}) → Result E B → Result E B
m >> k = m >>= λ _. k

-- `if test { return error }`, unless the test says that all is well.
abbrev pub ensure : {E : Type 0} → Bool → E → Result E (Unit {0})
ensure true e = ok tt
ensure false e = err e

-- What a chain that succeeds has gone through.
pub >>=-eq-ok :
    {E A B : Type 0} (run : Result E A) (next : A → Result E B) {b : B}
    → (run >>= next) ≡ ok b
    → (a : A) × (run ≡ ok a) × (next a ≡ ok b)
>>=-eq-ok (err e) next h = cc
>>=-eq-ok (ok a) next h = (a, refl, h)

-- The same, handed on to what follows from it.
pub with_ok {ℓ} :
    {E A B : Type 0} {C : Type ℓ} {m : Result E A} {f : A → Result E B} {b : B}
    → (m >>= f) ≡ ok b
    → ((a : A) → m ≡ ok a → f a ≡ ok b → C)
    → C
with_ok {m} {f} h k = let (a, e, r) = >>=-eq-ok m f h in k a e r

pub >>=-eq-err :
    {E A B : Type 0} (m : Result E A) (f : A → Result E B) {e : E}
    → (m >>= f) ≡ err e
    → (m ≡ err e) ⊎ ((a : A) × (m ≡ ok a) × (f a ≡ err e))
>>=-eq-err (ok a) f h = inr (a, refl, h)
>>=-eq-err (err x) f h = inl (cc)

-- A step that never fails with `e`, before steps that never do, never does.
pub >>=-ne-err :
    {E A B : Type 0} {m : Result E A} {f : A → Result E B} {e : E}
    → ¬ (m ≡ err e)
    → ((a : A) → m ≡ ok a → ¬ (f a ≡ err e))
    → ¬ ((m >>= f) ≡ err e)
>>=-ne-err {m} {f} n k h = elim (>>=-eq-err m f h) [ inl p ↦ n p | inr (a, p, q) ↦ k a p q ]
