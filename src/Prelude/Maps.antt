-- ===== src/Prelude/Maps.antt =====
-- Go's maps with string keys, as association lists, and its `map[string]bool` as lists of the keys
-- that are true. A Go map is walked in any order; a list stands for it in the order of one walk.
use Prim.Native.Nat.{ℕ, suc, ◌≤◌, ◌<◌}
use Prim.Native.String.{String}
use mathlib.Core.Path.{◌≡◌, refl, subst}
use mathlib.Core.Logic.{◌⊎◌, inl, inr}
use mathlib.Core.Bool.{Bool, true, false, ◌||◌}
use mathlib.Core.Option.{Option, none, some}
use mathlib.Core.List.{List, [], ◌∷◌, ◌++◌}
use native.Mathlib.Omega.{arith}
use text.Mathlib.Text.{◌==◌}
use text.Mathlib.TextEquality.{eq_iff}
use agent_stack_manager.Prelude.Tests.{if◌then◌else◌, Bool-cases}
use agent_stack_manager.Prelude.Lists.{length, MemOf, here, there}

-- Sets of strings.
abbrev pub Keys : Type 0
Keys = List String

unfoldable pub mem : String → Keys → Bool
mem k [] = false
mem k (j ∷ s) = j == k || mem k s

unfoldable pub add : String → Keys → Keys
unfolding mem
add k s = if mem k s then s else k ∷ s

unfoldable pub remove : String → Keys → Keys
remove k [] = []
remove k (j ∷ s) = let rest = remove k s in if j == k then rest else j ∷ rest

pub mem-add : (k j : String) (s : Keys) → mem j (add k s) ≡ (k == j || mem j s)
unfolding add
mem-add k j s = ground (arith, eq_iff k j)

pub mem-remove :
    (k j : String) (s : Keys) → mem j (remove k s) ≡ (if k == j then false else mem j s)
unfolding mem remove
mem-remove k j [] = ground arith
mem-remove k j (i ∷ s) = ground (arith, eq_iff i k, eq_iff k j, eq_iff i j, mem-remove k j s)

pub mem-append : (k : String) (s t : Keys) → mem k (s ++ t) ≡ (mem k s || mem k t)
unfolding mem
mem-append k [] t = refl
mem-append k (j ∷ s) t = ground (arith, mem-append k s t)

pub mem_self : (k : String) (s : Keys) → mem k (k ∷ s) ≡ true
unfolding mem
mem_self k s = ground (arith, eq_iff k k)

pub mem-cons : (k j : String) (s : Keys) → mem k (j ∷ s) ≡ true → (j ≡ k) ⊎ (mem k s ≡ true)
unfolding mem
mem-cons k j s h = elim (Bool-cases (j == k)) [
  | inl same ↦ inl ((eq_iff j k).0 same)
  | inr other ↦ inr (ground arith)
]

-- How many of the keys of a list are not in the set.
unfoldable pub missing : Keys → Keys → ℕ
unfolding mem
missing [] s = 0
missing (k ∷ ks) s = let rest = missing ks s in if mem k s then rest else suc rest

pub missing-le-length : (ks s : Keys) → missing ks s ≤ length ks
unfolding missing
missing-le-length [] s = omega arith
missing-le-length (k ∷ ks) s = ground (arith, missing-le-length ks s)

pub missing-cons : (ks : Keys) (k : String) (s : Keys) → missing ks (k ∷ s) ≤ missing ks s
unfolding missing
missing-cons [] k s = omega arith
missing-cons (j ∷ ks) k s = ground (arith, missing-cons ks k s)

-- A new key that the list has makes fewer of them missing.
pub missing-cons_lt :
    (ks : Keys) (k : String) (s : Keys)
    → mem k ks ≡ true
    → mem k s ≡ false
    → missing ks (k ∷ s) < missing ks s
unfolding missing
missing-cons_lt [] k s h n = cc
missing-cons_lt (j ∷ ks) k s h n =
    ground (arith, eq_iff j k, eq_iff k j, missing-cons ks k s, missing-cons_lt ks k s)

abbrev pub Map {ℓ} : Type ℓ → Type ℓ
Map A = List (String × A)

-- A Go map keeps one value for each key: `insert` puts it in the place of the old one.
module _ {ℓ} {A : Type ℓ} where
  unfoldable pub lookup : String → Map A → Option A
  lookup key [] = none
  lookup key ((other, a) ∷ rest) = if other == key then some a else lookup key rest

  unfoldable pub insert : String → A → Map A → Map A
  insert key a [] = (key, a) ∷ []
  insert key a ((other, b) ∷ rest) =
      let later = insert key a rest in if other == key then (key, a) ∷ rest else (other, b) ∷ later

  unfoldable pub delete : String → Map A → Map A
  delete key [] = []
  delete key ((other, b) ∷ rest) =
      let later = delete key rest in if other == key then later else (other, b) ∷ later

  pub lookup-delete :
      (key asked : String) (entries : Map A)
      → lookup asked (delete key entries) ≡ (if key == asked then none else lookup asked entries)
  unfolding lookup delete
  lookup-delete key asked [] = ground arith
  lookup-delete key asked ((other, b) ∷ rest) =
      ground (
        arith,
        lookup-delete key asked rest,
        eq_iff key asked,
        eq_iff other key,
        eq_iff other asked,
      )

  pub lookup-insert :
      (key asked : String) (a : A) (entries : Map A)
      → lookup asked (insert key a entries)
        ≡ (if key == asked then some a else lookup asked entries)
  unfolding lookup insert
  lookup-insert key asked a [] = ground arith
  lookup-insert key asked a ((other, b) ∷ rest) = ground (
    arith,
    lookup-insert key asked a rest,
    eq_iff key asked,
    eq_iff other key,
    eq_iff other asked,
  )

  pub lookup-MemOf :
      (key : String) (a : A) (entries : Map A)
      → lookup key entries ≡ some a
      → MemOf (key, a) entries
  unfolding lookup
  lookup-MemOf key a [] h = absurd (cc)
  lookup-MemOf key a ((other, b) ∷ rest) h = elim (Bool-cases (other == key)) [
    | inl same ↦
        let e : (other, b) ≡ (key, a) = ground (arith, eq_iff other key, same, h) in
        subst (λ x. MemOf x ((other, b) ∷ rest)) e here
    | inr apart ↦ there (lookup-MemOf key a rest (rw apart at h))
  ]
