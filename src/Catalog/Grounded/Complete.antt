-- ===== src/Catalog/Grounded/Complete.antt =====
-- internal/catalog/catalog.go: `validateDependencyCycles` where it finds no cycle, and its fuel.
use Prim.Native.String.{String}
use text.Mathlib.Text.{◌==◌}
use text.Mathlib.TextEquality.{eq_iff}
use agent_stack_manager.Prelude.{
  ℕ, zero, suc, ◌≤◌, ◌<◌, ◌≡◌, ◌≢◌, refl, subst, ◌⊎◌, inl, inr, true, false, Bool-cases, List, [],
  ◌∷◌, ◌++◌, map, ok, err, Result-cases, length, arith, All,
}
use agent_stack_manager.Prelude.Maps.{Keys, mem, lookup, insert}
use agent_stack_manager.Model.{Component}
use agent_stack_manager.Planner.Visits.{Mark, unseen, visiting, visited}
use agent_stack_manager.Catalog.Cycles.{
  cycle, out_of_fuel, dependencies_of, Marks, mark_in, Walk, walk_all, walk_marked, walk, walk_each,
  validate_dependency_cycles,
}
use agent_stack_manager.Catalog.Grounded.{
  Grounded, grounded, Reaches, edge, step, Grounded-ne-Reaches, mark_in-insert, Mark-cases, next,
  Sound, walk-Sound, walk_each-Grounded,
}

-- How many of the components no call has marked.
unmarked : List Component → Marks → ℕ
unmarked [] s = 0
unmarked (k ∷ ks) s =
    let rest = unmarked ks s in elim (mark_in s k.id) [ unseen ↦ suc rest | _ ↦ rest ]

unmarked-le :
    (ks : List Component) (s t : Marks)
    → ((x : String) → mark_in s x ≢ unseen → mark_in t x ≢ unseen)
    → unmarked ks t ≤ unmarked ks s
unfolding unmarked
unmarked-le [] s t w = omega arith
unmarked-le (k ∷ ks) s t w = ground (arith, w k.id, unmarked-le ks s t w)

unmarked-le-length : (ks : List Component) (s : Marks) → unmarked ks s ≤ length ks
unfolding unmarked
unmarked-le-length [] s = omega arith
unmarked-le-length (k ∷ ks) s = ground (arith, unmarked-le-length ks s)

abbrev ids : List Component → Keys
ids = map (λ k. k.id)

unmarked-visiting :
    (ks : List Component) (id : String) (s : Marks)
    → mem id (ids ks) ≡ true
    → mark_in s id ≡ unseen
    → unmarked ks (insert id visiting s) < unmarked ks s
unfolding unmarked mem
unmarked-visiting [] id s m u = cc
unmarked-visiting (k ∷ ks) id s m u = ground (
  arith,
  eq_iff k.id id,
  eq_iff id k.id,
  mark_in-insert s id k.id visiting,
  unmarked-le ks s (insert id visiting s)
      (λ x h e. h (ground (arith, mark_in-insert s id x visiting, e))),
  unmarked-visiting ks id s,
)

-- What is no component has no dependencies.
dependencies_of-none :
    (ks : List Component) (before : List String) (id : String)
    → mem id (ids ks) ≡ false
    → dependencies_of ks before id ≡ before
unfolding dependencies_of mem
dependencies_of-none [] before id m = refl
dependencies_of-none (k ∷ ks) before id m = ground (arith, dependencies_of-none ks before id, m)

module _ (ks : List Component) where
  -- Each id that is being visited reaches this one.
  abbrev Above : String → Marks → Type 0
  Above id s = (x : String) → mark_in s x ≡ visiting → Reaches (next ks) x id

  abbrev Accepts : Walk → Type 0
  Accepts walk =
      (stack : List String) (id : String) (s : Marks) (p : List String)
      → Above id s
      → Grounded (next ks) id
      → walk stack id s ≢ err (cycle p)

  walk_all-Accepts :
      (walk : Walk)
      → Sound ks walk
      → Accepts walk
      → (stack ds : List String) (s : Marks) (p : List String)
      → ((d : String) → mem d ds ≡ true → Above d s × Grounded (next ks) d)
      → walk_all walk stack ds s ≢ err (cycle p)
  unfolding walk_all mem
  walk_all-Accepts walk sound accepts stack [] s p a h = cc
  walk_all-Accepts walk sound accepts stack (d ∷ ds) s p a h =
      elim (Result-cases (walk stack d s)) [
        | inr (e, failed) ↦
            let here = a d (ground (arith, eq_iff d d)) in
            accepts stack d s p here.0 here.1 (ground arith)
        | inl (t, done) ↦
            let r = (sound stack d s t done).0 in
            walk_all-Accepts walk sound accepts stack ds t p
              (λ x m.
                let there = a x (ground (arith, m)) in (λ y v. there.0 y (r.shrinks y v), there.1))
              (ground arith)
      ]

  walk_marked-Accepts :
      (walk : Walk)
      → Sound ks walk
      → Accepts walk
      → (m : Mark) (stack : List String) (id : String) (s : Marks) (p : List String)
      → mark_in s id ≡ m
      → Above id s
      → Grounded (next ks) id
      → walk_marked walk ks m stack id s ≢ err (cycle p)
  unfolding walk_marked
  walk_marked-Accepts walk sound accepts visiting stack id s p u a g h =
      Grounded-ne-Reaches (next ks) id g (a id u)
  walk_marked-Accepts walk sound accepts visited stack id s p u a g h = cc
  walk_marked-Accepts walk sound accepts unseen stack id s p u a (grounded below) h =
      walk_all-Accepts walk sound accepts (stack ++ id ∷ []) (next ks id) (insert id visiting s) p
        (λ d m. (
          λ x v. elim (Bool-cases (id == x)) [
            | inl e ↦ subst (λ y. Reaches (next ks) y d) ((eq_iff id x).0 e) (edge m)
            | inr n ↦ step id (a x (ground (arith, n, mark_in-insert s id x visiting, v))) m
          ],
          below d m,
        ))
        (ground arith)

  walk-Accepts : (fuel : ℕ) → Accepts (walk fuel ks)
  unfolding walk
  walk-Accepts zero stack id s p a g h = cc
  walk-Accepts (suc fuel) stack id s p a g h =
      walk_marked-Accepts (walk fuel ks) (walk-Sound ks fuel) (walk-Accepts fuel) (mark_in s id)
        stack id s p refl a g h

  walk_each-Accepts :
      (fuel : ℕ) (rest : List Component) (s : Marks) (p : List String)
      → ((x : String) → mark_in s x ≢ visiting)
      → All (λ k. Grounded (next ks) k.id) rest
      → walk_each (walk fuel ks) rest s ≢ err (cycle p)
  unfolding walk_each
  walk_each-Accepts fuel [] s p quiet g h = cc
  walk_each-Accepts fuel (k ∷ rest) s p quiet g h = elim (Mark-cases (mark_in s k.id)) [
    | inr (inl busy) ↦ absurd (quiet k.id busy)
    | inr (inr old) ↦ walk_each-Accepts fuel rest s p quiet g.1 (ground (arith, old, h))
    | inl new ↦ elim (Result-cases (walk fuel ks [] k.id s)) [
      | inr (e, failed) ↦
          walk-Accepts fuel [] k.id s p (λ x v. absurd (quiet x v)) g.0
            (ground (arith, new, failed, h))
      | inl (t, done) ↦
          let r = (walk-Sound ks fuel [] k.id s t done).0 in
          walk_each-Accepts fuel rest t p (λ x v. quiet x (r.shrinks x v)) g.1
            (ground (arith, new, done, h))
    ]
  ]

  abbrev Returns : ℕ → Walk → Type 0
  Returns fuel walk =
      (stack : List String) (id : String) (s : Marks)
      → unmarked ks s < fuel
      → walk stack id s ≢ err out_of_fuel

  walk_all_total :
      (fuel : ℕ) (walk : Walk)
      → Sound ks walk
      → Returns fuel walk
      → (stack ds : List String) (s : Marks) → unmarked ks s < fuel
      → walk_all walk stack ds s ≢ err out_of_fuel
  unfolding walk_all
  walk_all_total fuel walk sound t stack [] s n h = cc
  walk_all_total fuel walk sound t stack (d ∷ ds) s n h = elim (Result-cases (walk stack d s)) [
    | inr (e, failed) ↦ t stack d s n (ground arith)
    | inl (u, done) ↦
        let r = (sound stack d s u done).0 in
        walk_all_total fuel walk sound t stack ds u (omega (arith, unmarked-le ks s u r.keeps))
          (ground arith)
  ]

  walk_marked_total :
      (fuel : ℕ) (walk : Walk)
      → Sound ks walk
      → Returns fuel walk
      → (m : Mark) (stack : List String) (id : String) (s : Marks) → mark_in s id ≡ m
      → unmarked ks s < suc fuel
      → walk_marked walk ks m stack id s ≢ err out_of_fuel
  unfolding walk_marked
  walk_marked_total fuel walk sound t visiting stack id s u n h = cc
  walk_marked_total fuel walk sound t visited stack id s u n h = cc
  walk_marked_total fuel walk sound t unseen stack id s u n h =
      elim (Bool-cases (mem id (ids ks))) [
        | inl listed ↦
            walk_all_total fuel walk sound t (stack ++ id ∷ []) (next ks id) (insert id visiting s)
              (omega (arith, unmarked-visiting ks id s listed u)) (ground arith)
        | inr other ↦ unfold walk_all in ground (arith, h, dependencies_of-none ks [] id other)
      ]

  walk_total : (fuel : ℕ) → Returns fuel (walk fuel ks)
  unfolding walk
  walk_total zero stack id s n h = absurd (omega arith)
  walk_total (suc fuel) stack id s n h =
      walk_marked_total fuel (walk fuel ks) (walk-Sound ks fuel) (walk_total fuel) (mark_in s id)
        stack id s refl n h

  walk_each_total :
      (fuel : ℕ) (rest : List Component) (s : Marks)
      → unmarked ks s < fuel
      → walk_each (walk fuel ks) rest s ≢ err out_of_fuel
  unfolding walk_each
  walk_each_total fuel [] s n h = cc
  walk_each_total fuel (k ∷ rest) s n h = elim (Mark-cases (mark_in s k.id)) [
    | inr (inl busy) ↦ walk_each_total fuel rest s n (ground (arith, busy, h))
    | inr (inr old) ↦ walk_each_total fuel rest s n (ground (arith, old, h))
    | inl new ↦ elim (Result-cases (walk fuel ks [] k.id s)) [
      | inr (e, failed) ↦ walk_total fuel [] k.id s n (ground (arith, new, failed, h))
      | inl (t, done) ↦
          let r = (walk-Sound ks fuel [] k.id s t done).0 in
          walk_each_total fuel rest t (omega (arith, unmarked-le ks s t r.keeps))
            (ground (arith, new, done, h))
    ]
  ]

-- The search for cycles always returns: it accepts the components if no chain of dependencies from
-- one of them goes on for ever, and otherwise reports a cycle.
pub validate_dependency_cycles_lem :
    (ks : List Component)
    → (((s : Marks) × (validate_dependency_cycles ks ≡ ok s))
        × All (λ k. Grounded (next ks) k.id) ks)
      ⊎ (((p : List String) × (validate_dependency_cycles ks ≡ err (cycle p)))
          × ¬ All (λ k. Grounded (next ks) k.id) ks)
unfolding validate_dependency_cycles lookup
validate_dependency_cycles_lem ks =
    elim (Result-cases (walk_each (walk (suc (length ks)) ks) ks [])) [
      | inl (s, done) ↦ inl (
        (s, done),
        walk_each-Grounded ks (suc (length ks)) ks [] s (λ x. ground (arith)) (λ x v. ground arith)
            done,
      )
      | inr (out_of_fuel, failed) ↦ absurd (
          walk_each_total ks (suc (length ks)) ks [] (omega (arith, unmarked-le-length ks []))
            failed)
      | inr (cycle p, failed) ↦ inr (
        (p, failed),
        λ g. walk_each-Accepts ks (suc (length ks)) ks [] p (λ x. ground arith) g failed,
      )
    ]
