-- ===== src/Planner/OnValid/Order.antt =====
-- `orderByDependencies` on a catalog without cycles.
use Prim.Native.String.{String}
use text.Mathlib.Text.{◌==◌}
use text.Mathlib.TextEquality.{eq_iff}
use agent_stack_manager.Prelude.{
  ℕ, zero, suc, ◌≡◌, ◌≢◌, refl, subst, ap, ◌∙◌, inl, inr, true, false, some, List, [], ◌∷◌, ok, err,
  Bool-cases, Option-cases, Result-cases, length, arith,
}
use agent_stack_manager.Prelude.Maps.{Keys, lookup, mem, mem_self}
use agent_stack_manager.Model.{Component, Catalog, PlanAction, component_by_id, find_component}
use agent_stack_manager.Planner.Selection.{PlanError, out_of_fuel}
use agent_stack_manager.Planner.Placement.{IsDistinct, mark-insert}
use agent_stack_manager.Planner.Visits.{
  Mark, unseen, visiting, visited, Visit, mark_of, ids_of, set_mark, finish, Visitor, visit_all,
  visit_marked, visit, visit_each, order_by_dependencies,
}
use agent_stack_manager.Catalog.Components.{ids_of_components}
use agent_stack_manager.Catalog.Cycles.{dependencies_of}
use agent_stack_manager.Catalog.Grounded.{
  Grounded, grounded, Reaches, edge, step, Grounded-ne-Reaches, next,
}
use agent_stack_manager.Planner.OnValid.{
  blames_request, AllKnown, DependenciesKnown, known_component,
}

dependencies_of-absent :
    (ks : List Component) (before : List String) (id : String)
    → mem id (ids_of_components ks) ≡ false
    → dependencies_of ks before id ≡ before
unfolding dependencies_of mem
dependencies_of-absent [] before id m = refl
dependencies_of-absent (k ∷ ks) before id m = ground (arith, dependencies_of-absent ks before id, m)

-- Where ids are distinct, the first component with an id is the last.
dependencies_of-find :
    (ks : List Component) (before : List String) (id : String) (k : Component)
    → IsDistinct (ids_of_components ks)
    → find_component id ks ≡ some k
    → dependencies_of ks before id ≡ k.depends_on
unfolding dependencies_of find_component
dependencies_of-find [] before id k dist h = cc
dependencies_of-find (j ∷ ks) before id k dist h = elim (Bool-cases (j.id == id)) [
  | inl here ↦
      let same : j ≡ k = ground (arith, here, h) in
      let gone =
        dependencies_of-absent ks j.depends_on id
          (subst (λ y. mem y (ids_of_components ks) ≡ false) ((eq_iff j.id id).0 here) dist.0) in
      ground (arith, here, gone) ∙ ap (λ x. x.depends_on) same
  | inr other ↦
      ground (arith, other, dependencies_of-find ks before id k dist.1 (ground (arith, other, h)))
]

module _ (c : Catalog) (actions : List PlanAction) where
  abbrev Shrinks : Visitor → Type 0
  Shrinks visit =
      (id : String) (v v' : Visit)
      → visit id v ≡ ok v'
      → (x : String) → mark_of v' x ≡ visiting
      → mark_of v x ≡ visiting

  visit_all-Shrinks :
      (visit : Visitor)
      → Shrinks visit
      → (planned ds : Keys) (v v' : Visit) → visit_all visit planned ds v ≡ ok v'
      → (x : String) → mark_of v' x ≡ visiting
      → mark_of v x ≡ visiting
  unfolding visit_all
  visit_all-Shrinks visit s planned [] v v' h x m = ground (arith, h, m)
  visit_all-Shrinks visit s planned (d ∷ ds) v v' h x m = elim (Bool-cases (mem d planned)) [
    | inr other ↦ visit_all-Shrinks visit s planned ds v v' (ground (arith, other, h)) x m
    | inl listed ↦ elim (Result-cases (visit d v)) [
      | inr (e, failed) ↦ ground (arith, listed, failed, h)
      | inl (u, done) ↦
          s d v u done x
            (visit_all-Shrinks visit s planned ds u v' (ground (arith, listed, done, h)) x m)
    ]
  ]

  visit_marked-Shrinks :
      (visit : Visitor)
      → Shrinks visit
      → (m : Mark) (id : String) (v v' : Visit) → visit_marked visit c actions m id v ≡ ok v'
      → (x : String) → mark_of v' x ≡ visiting
      → mark_of v x ≡ visiting
  unfolding visit_marked
  visit_marked-Shrinks visit s visiting id v v' h x m = cc
  visit_marked-Shrinks visit s visited id v v' h x m = ground (arith, h, m)
  visit_marked-Shrinks visit s unseen id v v' h x m = elim (Option-cases (component_by_id c id)) [
    | inl missing ↦ ground (arith, missing, h)
    | inr (k, listed) ↦
        elim (Result-cases
          (visit_all visit (ids_of actions) k.depends_on (set_mark id visiting v))) [
            | inr (e, failed) ↦ ground (arith, listed, failed, h)
            | inl (u, done) ↦
                let same : finish actions id u ≡ v' = ground (arith, listed, done, h) in
                let before = visit_all-Shrinks visit s (ids_of actions) k.depends_on _ u done x in
                elim (Bool-cases (id == x)) [
                  | inl here ↦ absurd (
                      ground
                        (arith, here, ap (λ w. mark_of w x) same, mark-insert u id x visited, m))
                  | inr other ↦ ground (
                    arith,
                    other,
                    mark-insert v id x visiting,
                    before (
                        ground (
                          arith,
                          other,
                          ap (λ w. mark_of w x) same,
                          mark-insert u id x visited,
                          m,
                        )),
                  )
                ]
          ]
  ]

  visit-Shrinks : (fuel : ℕ) → Shrinks (visit fuel c actions)
  unfolding visit
  visit-Shrinks zero id v v' h = cc
  visit-Shrinks (suc fuel) id v v' h =
      visit_marked-Shrinks (visit fuel c actions) (visit-Shrinks fuel) (mark_of v id) id v v' h

  -- Each action that is being visited reaches this one.
  abbrev Above : String → Visit → Type 0
  Above id v = (x : String) → mark_of v x ≡ visiting → Reaches (next c.components) x id

  module _ (distinct : IsDistinct (ids_of_components c.components)) (dk : DependenciesKnown c)
      (e : PlanError) (fault : blames_request e ≡ false) (fuelled : ¬ (e ≡ out_of_fuel)) where
    abbrev Accepts : Visitor → Type 0
    Accepts visit =
        (id : String) (v : Visit)
        → mem id (ids_of_components c.components) ≡ true
        → Above id v
        → Grounded (next c.components) id
        → ¬ (visit id v ≡ err e)

    visit_all-Accepts :
        (visit : Visitor)
        → Shrinks visit
        → Accepts visit
        → (planned ds : Keys) (v : Visit) → AllKnown c ds
        → ((d : String) → mem d ds ≡ true → Above d v × Grounded (next c.components) d)
        → ¬ (visit_all visit planned ds v ≡ err e)
    unfolding visit_all
    visit_all-Accepts visit s t planned [] v known a h = cc
    visit_all-Accepts visit s t planned (d ∷ ds) v known a h =
        let first = mem_self d ds in
        let later = λ (x : String) (m : mem x ds ≡ true).
          let r : mem x (d ∷ ds) ≡ true = unfold mem in ground arith in r in
        elim (Bool-cases (mem d planned)) [
          | inr other ↦
              visit_all-Accepts visit s t planned ds v (λ x m. known x (later x m))
                (λ x m. a x (later x m)) (ground (arith, other, h))
          | inl listed ↦ elim (Result-cases (visit d v)) [
            | inr (x, failed) ↦
                t d v (known d first) (a d first).0 (a d first).1
                  (ground (arith, listed, failed, h))
            | inl (u, done) ↦
                visit_all-Accepts visit s t planned ds u (λ x m. known x (later x m))
                  (λ x m.
                    let there = a x (later x m) in (λ y w. there.0 y (s d v u done y w), there.1))
                  (ground (arith, listed, done, h))
          ]
        ]

    visit_marked-Accepts :
        (visit : Visitor)
        → Shrinks visit
        → Accepts visit
        → (m : Mark) (id : String) (v : Visit) → mark_of v id ≡ m
        → mem id (ids_of_components c.components) ≡ true
        → Above id v
        → Grounded (next c.components) id
        → ¬ (visit_marked visit c actions m id v ≡ err e)
    unfolding visit_marked
    visit_marked-Accepts visit s t visiting id v u known a g h =
        Grounded-ne-Reaches (next c.components) id g (a id u)
    visit_marked-Accepts visit s t visited id v u known a g h = cc
    visit_marked-Accepts visit s t unseen id v u known a (grounded below) h =
        let (k, listed) = known_component c id known in
        let same =
          dependencies_of-find c.components [] id k distinct (unfold component_by_id in listed) in
        visit_all-Accepts visit s t (ids_of actions) k.depends_on (set_mark id visiting v)
          (dk id k listed)
          (λ d m.
            let n : mem d (next c.components id) ≡ true = ap (mem d) same ∙ m in
            (
              λ x w. elim (Bool-cases (id == x)) [
                | inl here ↦
                    subst (λ y. Reaches (next c.components) y d) ((eq_iff id x).0 here) (edge n)
                | inr other ↦
                    step id (a x (ground (arith, other, mark-insert v id x visiting, w))) n
              ],
              below d n,
            ))
          (ground (arith, listed, h))

    visit-Accepts : (fuel : ℕ) → Accepts (visit fuel c actions)
    unfolding visit
    visit-Accepts zero id v known a g h = fuelled (cc)
    visit-Accepts (suc fuel) id v known a g h =
        visit_marked-Accepts (visit fuel c actions) (visit-Shrinks fuel) (visit-Accepts fuel)
          (mark_of v id) id v refl known a g h

    visit_each-Accepts :
        (fuel : ℕ) (rest : List PlanAction) (v : Visit)
        → ((x : String) → mark_of v x ≢ visiting)
        → AllKnown c (ids_of rest)
        → ((x : String) → mem x (ids_of rest) ≡ true → Grounded (next c.components) x)
        → ¬ (visit_each (visit fuel c actions) rest v ≡ err e)
    unfolding visit_each
    visit_each-Accepts fuel [] v quiet known g h = cc
    visit_each-Accepts fuel (a ∷ rest) v quiet known g h =
        let first = mem_self a.component_id (ids_of rest) in
        let later = λ (x : String) (m : mem x (ids_of rest) ≡ true).
          let r : mem x (a.component_id ∷ ids_of rest) ≡ true = unfold mem in ground arith in r in
        elim (Result-cases (visit fuel c actions a.component_id v)) [
          | inr (x, failed) ↦
              visit-Accepts fuel a.component_id v (known a.component_id first)
                (λ x w. absurd (quiet x w)) (g a.component_id first) (ground (arith, failed, h))
          | inl (u, done) ↦
              visit_each-Accepts fuel rest u
                (λ x w. quiet x (visit-Shrinks fuel a.component_id v u done x w))
                (λ x m. known x (later x m)) (λ x m. g x (later x m)) (ground (arith, done, h))
        ]

    pub order_by_dependencies-Accepts :
        AllKnown c (ids_of actions)
        → ((x : String) → mem x (ids_of actions) ≡ true → Grounded (next c.components) x)
        → ¬ (order_by_dependencies c actions ≡ err e)
    unfolding order_by_dependencies lookup
    order_by_dependencies-Accepts known g h =
        visit_each-Accepts (suc (length actions)) actions (record { marks = []; ordered = [] })
          (λ x w. ground arith) known g (ground arith)
