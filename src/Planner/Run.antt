-- ===== src/Planner/Run.antt =====
-- The steps that a run of `Build` which succeeds has gone through, and the ids of its actions.
use text.Mathlib.TextEquality.{eq_iff}
use Prim.Native.String.{String}
use text.Mathlib.Text.{◌==◌}
use agent_stack_manager.Planner.Closure.{found-eq-ok}
use agent_stack_manager.Prelude.{
  some, true, ℕ, ◌≡◌, refl, ap, ◌∙◌, Bool, ◌||◌, List, [], ◌∷◌, ok, with_ok, arith,
}
use agent_stack_manager.Prelude.Maps.{Keys, Map, mem}
use agent_stack_manager.Prelude.Sorting.{insert_before, sort_stable}
use agent_stack_manager.Model.{
  Profile, Catalog, Inventory, PlanAction, Plan, profile_by_id, Component, find_component,
}
use agent_stack_manager.Planner.Selection.{
  Request, unknown_profile, found, Selection, expand_dependencies,
}
use agent_stack_manager.Planner.Providers.{
  override_providers, preferred_providers, reconcile_active_providers,
}
use agent_stack_manager.Planner.Actions.{actions_of, comes_before, action_for}
use agent_stack_manager.Planner.Visits.{ids_of, order_by_dependencies}
use agent_stack_manager.Planner.Build.{Resolved, profile_id, select, resolve, build}

mem-insert_before :
    (less : PlanAction → PlanAction → Bool) (a : PlanAction) (xs : List PlanAction) (x : String)
    → mem x (ids_of (insert_before less a xs)) ≡ (a.component_id == x || mem x (ids_of xs))
unfolding insert_before mem
mem-insert_before less a [] x = refl
mem-insert_before less a (y ∷ ys) x = ground (arith, mem-insert_before less a ys x)

-- Sorting changes no ids.
pub mem-sort_stable :
    (less : PlanAction → PlanAction → Bool) (xs : List PlanAction) (x : String)
    → mem x (ids_of (sort_stable less xs)) ≡ mem x (ids_of xs)
unfolding sort_stable mem
mem-sort_stable less [] x = refl
mem-sort_stable less (a ∷ xs) x =
    mem-insert_before less a (sort_stable less xs) x
    ∙ ap (λ b. a.component_id == x || b) (mem-sort_stable less xs x)

-- What a run of `Build` that succeeds has gone through.
pub record Run (c : Catalog) (inventory : Inventory) (request : Request) (plan : Plan)
    : Type 0 where
  pub profile : Profile
  pub profile_ok : profile_by_id c (profile_id request) ≡ some profile
  pub asked : Selection
  pub overridden : Keys × Map String
  pub selected : Keys
  pub active : Map String
  pub providers_ok : active ≡ plan.providers
  pub select_ok : select c profile request ≡ ok asked
  pub override_ok :
      override_providers c asked.excluded request.provider_overrides
        (asked.selected, preferred_providers c.components [])
      ≡ ok overridden
  pub expand_ok : expand_dependencies c overridden.0 asked.excluded ≡ ok selected
  pub order_ok :
      order_by_dependencies c
        (sort_stable (comes_before c) (actions_of request inventory active selected c.components))
      ≡ ok plan.actions

-- The same for what `Build` does before it looks at the inventory.
record Resolving (c : Catalog) (profile : Profile) (request : Request) (r : Resolved) : Type 0 where
  asked : Selection
  overridden : Keys × Map String
  select_ok : select c profile request ≡ ok asked
  override_ok :
      override_providers c asked.excluded request.provider_overrides
        (asked.selected, preferred_providers c.components [])
      ≡ ok overridden
  expand_ok : expand_dependencies c overridden.0 asked.excluded ≡ ok r.selected

resolve-Resolving :
    (c : Catalog) (profile : Profile) (request : Request) (r : Resolved)
    → resolve c profile request ≡ ok r
    → Resolving c profile request r
unfolding resolve
resolve-Resolving c profile request r h = with_ok {m = select c profile request} h λ s sel h₁.
    with_ok
      {m = override_providers c s.excluded request.provider_overrides
        (s.selected, preferred_providers c.components [])}
      h₁
      λ o ov h₂. with_ok {m = expand_dependencies c o.0 s.excluded} h₂ λ t ex h₃.
        with_ok {m = reconcile_active_providers c t o.1} h₃ λ a re h₄.
          let e : t ≡ r.selected = cc in
          record {
            asked = s;
            overridden = o;
            select_ok = sel;
            override_ok = ov;
            expand_ok = ex ∙ ap ok e;
          }

pub build-Run :
    (now : ℕ) (c : Catalog) (inventory : Inventory) (request : Request) (plan : Plan)
    → build now c inventory request ≡ ok plan
    → Run c inventory request plan
unfolding build
build-Run now c inventory request plan h =
    with_ok
      {m = found (unknown_profile (profile_id request)) (profile_by_id c (profile_id request))} h
      λ profile p h₁. with_ok {m = resolve c profile request} h₁ λ r res h₂.
        with_ok
          {m = order_by_dependencies c (
            sort_stable (comes_before c)
              (actions_of request inventory r.active r.selected c.components))}
          h₂
          λ ordered ord h₃.
            let s = resolve-Resolving c profile request r res in
            let e : ordered ≡ plan.actions = cc in
            record {
              providers_ok = cc;
              profile = profile;
              profile_ok = found-eq-ok (unknown_profile (profile_id request)) _ profile p;
              asked = s.asked;
              overridden = s.overridden;
              selected = r.selected;
              active = r.active;
              select_ok = s.select_ok;
              override_ok = s.override_ok;
              expand_ok = s.expand_ok;
              order_ok = ord ∙ ap ok e;
            }

component_id-action_for :
    (request : Request) (inventory : Inventory) (active : Map String) (k : Component)
    → (action_for request inventory active k).component_id ≡ k.id
unfolding action_for
component_id-action_for request inventory active k = ground arith

-- The ids of the actions are the selected ids of the catalog.
pub mem-actions_of :
    (request : Request) (inventory : Inventory) (active : Map String) (selected : Keys)
    (ks : List Component) (x : String)
    → mem x (ids_of (actions_of request inventory active selected ks)) ≡ true
    → mem x selected ≡ true
unfolding actions_of mem
mem-actions_of request inventory active selected [] x h = cc
mem-actions_of request inventory active selected (k ∷ ks) x h = ground (
  arith,
  mem-actions_of request inventory active selected ks x,
  component_id-action_for request inventory active k,
  eq_iff k.id x,
)

pub actions_of-mem :
    (request : Request) (inventory : Inventory) (active : Map String) (selected : Keys)
    (ks : List Component) (x : String) (k : Component)
    → find_component x ks ≡ some k
    → mem x selected ≡ true
    → mem x (ids_of (actions_of request inventory active selected ks)) ≡ true
unfolding actions_of find_component mem
actions_of-mem request inventory active selected [] x k e h = cc
actions_of-mem request inventory active selected (j ∷ ks) x k e h = ground (
  arith,
  actions_of-mem request inventory active selected ks x k,
  component_id-action_for request inventory active j,
  eq_iff j.id x,
)
