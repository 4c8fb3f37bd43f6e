-- ===== src/Planner/Sound.antt =====
-- What holds of every plan that `Build` returns.
use Prim.Native.String.{String}
use agent_stack_manager.Planner.Selection.{exclude_all, add_all, include_all, Request, Selection}
use agent_stack_manager.Prelude.{
  inl, inr, with_ok, arith, false, some, sym, true, ℕ, ◌≡◌, ◌∙◌, List, [], ◌∷◌, ok,
}
use agent_stack_manager.Planner.Build.{select, profile_id, build}
use agent_stack_manager.Prelude.Maps.{mem_self, Keys, mem}
use agent_stack_manager.Model.{
  component_by_id, Profile, Catalog, Inventory, PlanAction, Plan, profile_by_id, Component,
}
use agent_stack_manager.Prelude.Sorting.{sort_stable}
use agent_stack_manager.Planner.Actions.{actions_of, comes_before}
use agent_stack_manager.Planner.Visits.{ids_of}
use agent_stack_manager.Planner.Closure.{IsClosure, expand_dependencies-IsClosure}
use agent_stack_manager.Planner.Placement.{IsOrdered, IsDistinct}
use agent_stack_manager.Planner.Topological.{IsOrder, order_by_dependencies-IsOrder}
use agent_stack_manager.Planner.Selected.{
  include_all-Included, exclude_all-Excluded, add_all-mem, override_ids,
  override_providers-Overridden,
}
use agent_stack_manager.Planner.Run.{
  Run, mem-sort_stable, build-Run, mem-actions_of, actions_of-mem,
}

-- Each action stands behind the actions of all dependencies of its component.
abbrev pub DependenciesFirst : Catalog → Keys → List PlanAction → Type 0
DependenciesFirst c done [] = Unit
DependenciesFirst c done (a ∷ rest) =
    ((k : Component) (d : String)
      → component_by_id c a.component_id ≡ some k
      → mem d k.depends_on ≡ true
      → mem d done ≡ true)
    × DependenciesFirst c (a.component_id ∷ done) rest

IsOrdered-DependenciesFirst :
    (c : Catalog) (planned done : Keys) (xs : List PlanAction)
    → ((x : String) (k : Component) (d : String)
        → mem x (ids_of xs) ≡ true
        → component_by_id c x ≡ some k
        → mem d k.depends_on ≡ true
        → mem d planned ≡ true)
    → IsOrdered c planned done xs
    → DependenciesFirst c done xs
IsOrdered-DependenciesFirst c planned done [] w h = tt
IsOrdered-DependenciesFirst c planned done (a ∷ rest) w h = (
  λ k d e m. h.0 k d e m (w a.component_id k d (mem_self a.component_id (ids_of rest)) e m),
  IsOrdered-DependenciesFirst c planned (a.component_id ∷ done) rest
      (λ x k d m. w x k d (unfold mem in ground arith)) h.1,
)

module _ (c : Catalog) (inventory : Inventory) (request : Request) (plan : Plan)
    (r : Run c inventory request plan) where
  abbrev asked_actions : List PlanAction
  asked_actions = actions_of request inventory r.active r.selected c.components

  run-IsClosure : IsClosure c r.asked.excluded r.overridden.0 r.selected
  run-IsClosure =
      expand_dependencies-IsClosure c r.overridden.0 r.asked.excluded r.selected r.expand_ok

  run-IsOrder : IsOrder c (sort_stable (comes_before c) asked_actions) plan.actions
  run-IsOrder = order_by_dependencies-IsOrder c _ plan.actions r.order_ok

  plan_ids : (x : String) → mem x (ids_of plan.actions) ≡ mem x (ids_of asked_actions)
  plan_ids x = run-IsOrder.complete x ∙ mem-sort_stable (comes_before c) asked_actions x

  -- A selected id has an action, since the closure found it in the catalog.
  selected_planned : (x : String) → mem x r.selected ≡ true → mem x (ids_of plan.actions) ≡ true
  selected_planned x h =
      let done = run-IsClosure.closed x h in
      plan_ids x
      ∙ actions_of-mem request inventory r.active r.selected c.components x done.component
          (unfold component_by_id in done.listed) h

  planned_selected : (x : String) → mem x (ids_of plan.actions) ≡ true → mem x r.selected ≡ true
  planned_selected x h =
      mem-actions_of request inventory r.active r.selected c.components x (sym (plan_ids x) ∙ h)

  run-DependenciesFirst : DependenciesFirst c [] plan.actions
  run-DependenciesFirst =
      IsOrdered-DependenciesFirst c _ [] plan.actions
        (λ x k d m e n.
          let done = run-IsClosure.closed x (planned_selected x m) in
          let one : done.component ≡ k = cc done.listed in
          let s = done.closed d (rw one n) in sym (run-IsOrder.complete d) ∙ selected_planned d s)
        run-IsOrder.sorted

  run-IsDistinct : IsDistinct (ids_of plan.actions)
  run-IsDistinct = run-IsOrder.distinct

  -- Nothing that is excluded comes back, by an override or as a dependency.
  run_selection :
      (s : Selection)
      → include_all c request.include
          (record { selected = add_all r.profile.components []; included = []; excluded = [] })
        ≡ ok s
      → exclude_all c request.exclude s ≡ ok r.asked
      → ((x : String) → mem x request.exclude ≡ true → mem x (ids_of plan.actions) ≡ false)
        × ((x : String) → mem x request.include ≡ true → mem x (ids_of plan.actions) ≡ true)
        × ((x : String)
            → mem x (override_ids request.provider_overrides) ≡ true
            → mem x (ids_of plan.actions) ≡ true)
        × ((x : String)
            → mem x r.profile.components ≡ true
            → mem x request.exclude ≡ false
            → mem x (ids_of plan.actions) ≡ true)
  run_selection s inc exc =
      let i = include_all-Included c request.include _ s inc in
      let e = exclude_all-Excluded c request.exclude s r.asked exc in
      let o =
        override_providers-Overridden c r.asked.excluded request.provider_overrides _ r.overridden
          r.override_ok in
      (
        λ x m.
            let out = elim (e.apart x (e.taken x m)) as (λ q. mem x r.asked.selected ≡ false) [
              | inl before ↦ absurd (unfold mem in ground (arith, i.excluded))
              | inr gone ↦ gone
            ] in
            let clean = run-IsClosure.clean x (e.taken x m) (o.apart x (e.taken x m) out) in
            ground (arith, planned_selected x),
        λ x m.
            let t = i.taken x m in
            selected_planned x (run-IsClosure.keeps x (o.kept x (e.included x t.0 t.1))),
        λ x m. selected_planned x (run-IsClosure.keeps x (o.taken x m)),
        λ x m n.
            let p = i.kept x (add_all-mem r.profile.components [] x (inl m)) in
            selected_planned x (run-IsClosure.keeps x (o.kept x (e.others x p n))),
      )

-- Every plan that `Build` returns is in dependency order: behind each dependency of its component,
-- planned with it, stands each action, and no component is planned twice.
pub build-DependenciesFirst :
    (now : ℕ) (c : Catalog) (inventory : Inventory) (request : Request) (plan : Plan)
    → build now c inventory request ≡ ok plan
    → DependenciesFirst c [] plan.actions × IsDistinct (ids_of plan.actions)
build-DependenciesFirst now c inventory request plan h =
    let r = build-Run now c inventory request plan h in
    (run-DependenciesFirst c inventory request plan r, run-IsDistinct c inventory request plan r)

-- Every plan that `Build` returns does what the request asks: it has no action for a component that is
-- excluded, and one for each that is included, for each that an override makes a provider, and for
-- each of the profile that is not excluded.
pub build-selection :
    (now : ℕ) (c : Catalog) (inventory : Inventory) (request : Request) (plan : Plan)
    → build now c inventory request ≡ ok plan
    → ((x : String) → mem x request.exclude ≡ true → mem x (ids_of plan.actions) ≡ false)
      × ((x : String) → mem x request.include ≡ true → mem x (ids_of plan.actions) ≡ true)
      × ((x : String)
          → mem x (override_ids request.provider_overrides) ≡ true
          → mem x (ids_of plan.actions) ≡ true)
      × ((p : Profile) (x : String)
          → profile_by_id c (profile_id request) ≡ some p
          → mem x p.components ≡ true
          → mem x request.exclude ≡ false
          → mem x (ids_of plan.actions) ≡ true)
build-selection now c inventory request plan h =
    let r = build-Run now c inventory request plan h in
    with_ok
      {m = include_all c request.include
        (record { selected = add_all r.profile.components []; included = []; excluded = [] })}
      {f = exclude_all c request.exclude} {b = r.asked} (unfold select in r.select_ok)
      λ s inc exc.
        let t = run_selection c inventory request plan r s inc exc in
        (
          t.0,
          t.1,
          t.2,
          λ p x e m n. let one : p ≡ r.profile = cc r.profile_ok in t.3 x (rw (← one) m) n,
        )
