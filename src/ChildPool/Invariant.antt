-- ===== src/ChildPool/Invariant.antt =====
-- What holds of the pool and its callers between any two sections.
use Prim.Native.String.{String}
use agent_stack_manager.Prelude.{
  ℕ, zero, suc, ◌+◌, ◌≤◌, ◌<◌, ◌≡◌, refl, sym, ◌∙◌, ◌⊎◌, true, false, none, some, List, [], ◌∷◌,
  ◌++◌, ◌==◌, if◌then◌else◌, arith, All, All-imp,
}
use agent_stack_manager.Prelude.Maps.{lookup}
use agent_stack_manager.ChildPool.Sections.{Pool}
use agent_stack_manager.ChildPool.Steps.{
  Caller, outside, starting, waiting, entering, using, outsiders, empty_pool,
}

-- How many callers weigh so much.
abbrev pub total : (Caller → ℕ) → List Caller → ℕ
total weight [] = 0
total weight (caller ∷ callers) = weight caller + total weight callers

abbrev pub is_using : ℕ → Caller → ℕ
is_using w (using key v) = if v == w then 1 else 0
is_using w _ = 0

abbrev pub is_starting : ℕ → Caller → ℕ
is_starting w (starting key v) = if v == w then 1 else 0
is_starting w _ = 0

-- A caller's worker exists, and was made for the caller's key.
abbrev pub IsKnown : Pool → Caller → Type 0
IsKnown p outside = Unit
IsKnown p (starting key w) = ((p.heap w).key ≡ key) × (w < p.next)
IsKnown p (waiting key w) = ((p.heap w).key ≡ key) × (w < p.next)
IsKnown p (entering key w) = ((p.heap w).key ≡ key) × (w < p.next)
IsKnown p (using key w) = ((p.heap w).key ≡ key) × (w < p.next)

pub record Inv (callers : List Caller) (p : Pool) : Type 0 where
  pub known : All (IsKnown p) callers
  pub counts : (w : ℕ) → (p.heap w).active ≡ total (is_using w) callers
  pub one_start : (w : ℕ) → total (is_starting w) callers ≤ 1
  pub unstarted :
      (w : ℕ)
      → total (is_starting w) callers ≡ 1
      → ((p.heap w).session ≡ none) × ((p.heap w).active ≡ 0)
  pub listed :
      (key : String) (w : ℕ)
      → lookup key p.workers ≡ some w
      → ((p.heap w).key ≡ key) × (w < p.next) × ((p.heap w).is_closed ≡ false)
  pub unused : (w : ℕ) → (p.heap w).is_closed ≡ true → (p.closed ≡ true) ⊎ ((p.heap w).active ≡ 0)

pub total-split :
    (weight : Caller → ℕ) (front : List Caller) (caller : Caller) (back : List Caller)
    → total weight (front ++ caller ∷ back)
      ≡ weight caller + (total weight front + total weight back)
total-split weight [] caller back = omega arith
total-split weight (c ∷ front) caller back = omega (arith, total-split weight front caller back)

-- One caller that takes another's place changes the total by what both weigh.
pub replaced_total :
    (weight : Caller → ℕ) (front : List Caller) (caller other : Caller) (back : List Caller)
    → total weight (front ++ other ∷ back) + weight caller
      ≡ total weight (front ++ caller ∷ back) + weight other
replaced_total weight front caller other back =
    omega (arith, total-split weight front caller back, total-split weight front other back)

pub IsKnown-at :
    (p : Pool) (front : List Caller) (caller : Caller) (back : List Caller)
    → All (IsKnown p) (front ++ caller ∷ back)
    → IsKnown p caller
IsKnown-at p [] caller back h = h.0
IsKnown-at p (c ∷ front) caller back h = IsKnown-at p front caller back h.1

-- A worker keeps its key, and the heap grows.
abbrev pub Grows : Pool → Pool → Type 0
Grows p q = (p.next ≤ q.next) × ((w : ℕ) → w < p.next → (q.heap w).key ≡ (p.heap w).key)

pub IsKnown-imp : (p q : Pool) (caller : Caller) → Grows p q → IsKnown p caller → IsKnown q caller
IsKnown-imp p q outside g k = tt
IsKnown-imp p q (starting key w) g k = (g.1 w k.1 ∙ k.0, omega (arith, g.0, k.1))
IsKnown-imp p q (waiting key w) g k = (g.1 w k.1 ∙ k.0, omega (arith, g.0, k.1))
IsKnown-imp p q (entering key w) g k = (g.1 w k.1 ∙ k.0, omega (arith, g.0, k.1))
IsKnown-imp p q (using key w) g k = (g.1 w k.1 ∙ k.0, omega (arith, g.0, k.1))

pub IsKnown-after :
    (p q : Pool) (front : List Caller) (caller other : Caller) (back : List Caller)
    → Grows p q
    → IsKnown q other
    → All (IsKnown p) (front ++ caller ∷ back)
    → All (IsKnown q) (front ++ other ∷ back)
IsKnown-after p q [] caller other back g k h = (k, All-imp back (λ c. IsKnown-imp p q c g) h.1)
IsKnown-after p q (c ∷ front) caller other back g k h =
    (IsKnown-imp p q c g h.0, IsKnown-after p q front caller other back g k h.1)

-- No caller has a worker that does not exist yet.
pub fresh_unused :
    (p : Pool) (callers : List Caller) (w : ℕ)
    → All (IsKnown p) callers
    → p.next ≤ w
    → (total (is_using w) callers ≡ 0) × (total (is_starting w) callers ≡ 0)
fresh_unused p [] w h n = (refl, refl)
fresh_unused p (outside ∷ callers) w h n =
    let rest = fresh_unused p callers w h.1 n in (omega (arith, rest.0), omega (arith, rest.1))
fresh_unused p (waiting key v ∷ callers) w h n =
    let rest = fresh_unused p callers w h.1 n in (omega (arith, rest.0), omega (arith, rest.1))
fresh_unused p (entering key v ∷ callers) w h n =
    let rest = fresh_unused p callers w h.1 n in (omega (arith, rest.0), omega (arith, rest.1))
fresh_unused p (starting key v ∷ callers) w h n =
    let rest = fresh_unused p callers w h.1 n in
    (omega (arith, rest.0), ground (arith, rest.1, h.0.1))
fresh_unused p (using key v ∷ callers) w h n =
    let rest = fresh_unused p callers w h.1 n in
    (ground (arith, rest.0, h.0.1), omega (arith, rest.1))

total-outsiders :
    (n w : ℕ) → (total (is_using w) (outsiders n) ≡ 0) × (total (is_starting w) (outsiders n) ≡ 0)
total-outsiders zero w = (refl, refl)
total-outsiders (suc n) w =
    let rest = total-outsiders n w in (omega (arith, rest.0), omega (arith, rest.1))

outsiders-IsKnown : (n : ℕ) → All (IsKnown empty_pool) (outsiders n)
outsiders-IsKnown zero = tt
outsiders-IsKnown (suc n) = (tt, outsiders-IsKnown n)

pub empty_pool-Inv : (n : ℕ) → Inv (outsiders n) empty_pool
unfolding lookup
empty_pool-Inv n = record {
  known = outsiders-IsKnown n;
  counts = λ w. sym (total-outsiders n w).0;
  one_start = λ w. omega (arith, (total-outsiders n w).1);
  unstarted = λ w e. (refl, refl);
  listed = λ key w e. absurd (cc);
  unused = λ w e. absurd (cc);
}
