-- ===== src/Planner/Total.antt =====
-- internal/planner/planner.go: the fuel of `Build`.
use Prim.Native.String.{String}
use agent_stack_manager.Prelude.{ℕ, ◌≢◌, Option, none, some, List, [], ◌∷◌, err, >>=-ne-err, arith}
use agent_stack_manager.Prelude.Maps.{Keys, Map, add, remove, insert}
use agent_stack_manager.Model.{Catalog, Profile, Inventory, profile_by_id}
use agent_stack_manager.Planner.Selection.{
  Request, out_of_fuel, unknown_profile, found, Selection, include_all, exclude_all,
}
use agent_stack_manager.Planner.Providers.{
  override_providers, choose_provider, reconcile_each, reconcile_active_providers,
}
use agent_stack_manager.Planner.Build.{profile_id, select, resolve, build}
use agent_stack_manager.Planner.Closure.{expand_dependencies_total}
use agent_stack_manager.Planner.Topological.Termination.{order_by_dependencies_total}

include_all_total :
    (c : Catalog) (ids : List String) (s : Selection) → include_all c ids s ≢ err out_of_fuel
unfolding include_all
include_all_total c [] s e = cc
include_all_total c (id ∷ ids) s e = ground (
  arith,
  include_all_total c ids (record s { included = add id s.included; selected = add id s.selected }),
)

exclude_all_total :
    (c : Catalog) (ids : List String) (s : Selection) → exclude_all c ids s ≢ err out_of_fuel
unfolding exclude_all
exclude_all_total c [] s e = cc
exclude_all_total c (id ∷ ids) s e = ground (
  arith,
  exclude_all_total c ids
      (record s { excluded = add id s.excluded; selected = remove id s.selected }),
)

override_providers_total :
    (c : Catalog) (ex : Keys) (m : Map String) (s : Keys × Map String)
    → override_providers c ex m s ≢ err out_of_fuel
unfolding override_providers
override_providers_total c ex [] s e = cc
override_providers_total c ex ((capability, id) ∷ m) s e =
    ground (arith, override_providers_total c ex m (add id s.0, insert capability id s.1))

choose_provider_total :
    (capability : String) (ids : List String) (active : Map String)
    → choose_provider capability ids active ≢ err out_of_fuel
unfolding choose_provider
choose_provider_total capability [] active e = cc
choose_provider_total capability (i ∷ []) active e = cc
choose_provider_total capability (i ∷ j ∷ ids) active e = cc

reconcile_each_total :
    (m : Map (List String)) (selected : Keys) (active : Map String)
    → reconcile_each m selected active ≢ err out_of_fuel
unfolding reconcile_each
reconcile_each_total [] selected active = λ e. cc
reconcile_each_total ((capability, ids) ∷ m) selected active =
    >>=-ne-err (λ e. ground (arith, choose_provider_total capability ids active))
      (λ active' _. reconcile_each_total m selected active')

reconcile_total :
    (c : Catalog) (selected : Keys) (active : Map String)
    → reconcile_active_providers c selected active ≢ err out_of_fuel
unfolding reconcile_active_providers
reconcile_total c selected active =
    >>=-ne-err (reconcile_each_total _ selected active) (λ a _ e. cc)

found_total : (id : String) (o : Option Profile) → found (unknown_profile id) o ≢ err out_of_fuel
found_total id none e = cc
found_total id (some p) e = cc

select_total :
    (c : Catalog) (p : Profile) (request : Request) → select c p request ≢ err out_of_fuel
unfolding select
select_total c p request =
    >>=-ne-err (include_all_total c request.include _)
      (λ s _. exclude_all_total c request.exclude s)

resolve_total :
    (c : Catalog) (p : Profile) (request : Request) → resolve c p request ≢ err out_of_fuel
unfolding resolve
resolve_total c p request = >>=-ne-err (select_total c p request) λ s _.
    >>=-ne-err (override_providers_total c s.excluded request.provider_overrides _) λ o _.
      >>=-ne-err (expand_dependencies_total c o.0 s.excluded)
        λ t _. >>=-ne-err (reconcile_total c t o.1) λ a _ e. cc

-- `Build` always returns a plan or one of its own errors, also where dependencies form a cycle: the
-- fuel of neither loop runs out.
pub build_total :
    (now : ℕ) (c : Catalog) (inventory : Inventory) (request : Request)
    → build now c inventory request ≢ err out_of_fuel
unfolding build
build_total now c inventory request =
    >>=-ne-err (found_total (profile_id request) (profile_by_id c (profile_id request))) λ p _.
      >>=-ne-err (resolve_total c p request)
        λ r _. >>=-ne-err (order_by_dependencies_total c _) λ ordered _ e. cc
