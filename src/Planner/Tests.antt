-- ===== src/Planner/Tests.antt =====
-- Plans for a small catalog: an editor that needs a runtime, and two search tools.
use Prim.Native.String.{String}
use agent_stack_manager.Prelude.{
  ◌≡◌, ◌≢◌, refl, Bool, true, false, none, some, List, [], ◌∷◌, All, ok, err, pos,
}
use agent_stack_manager.Prelude.Maps.{mem, add, remove, lookup, insert}
use agent_stack_manager.Prelude.Sorting.{sort_stable}
use agent_stack_manager.Model.{
  recommended, ActionKind, PlanAction, InstallKind, InstallSpec, Component, Profile, Catalog,
  Inventory, Plan, component_by_id, find_component, profile_by_id,
}
use agent_stack_manager.Planner.Selection.{
  Request, out_of_fuel, dependency_cycle, include_all, exclude_all, expand_dependencies,
  expand_queue, select_dependencies, add_all,
}
use agent_stack_manager.Planner.Providers.{
  override_providers, preferred_providers, reconcile_active_providers, reconcile_each,
  selected_by_capability, is_active_selected, drop_unselected,
}
use agent_stack_manager.Planner.Actions.{actions_of, action_for, comes_before, new_action}
use agent_stack_manager.Planner.Visits.{
  ids_of, order_by_dependencies, visit, visit_each, visit_all, visit_marked, action_by_id,
}
use agent_stack_manager.Planner.Build.{build, select, resolve, profile_id}
use agent_stack_manager.Planner.Closure.{
  IsClosure, expand_dependencies-IsClosure, expand_dependencies_total,
}
use agent_stack_manager.Planner.Placement.{IsDistinct}
use agent_stack_manager.Planner.Topological.Termination.{order_by_dependencies_total}
use agent_stack_manager.Planner.Selected.{override_ids}
use agent_stack_manager.Planner.Sound.{DependenciesFirst, build-DependenciesFirst, build-selection}
use agent_stack_manager.Planner.Safety.{Justified, build-Justified}
use agent_stack_manager.Planner.Total.{build_total}

abbrev winget_spec : InstallSpec
winget_spec = record {
  kind = InstallKind.winget;
  package_name = "";
  winget_id = "";
  repository = "";
  repository_revision = "";
  manifest_digest = "";
  source = "";
  version = "";
  publisher = "";
  digest = "";
  expected_entries = [];
  login_hint = "";
  documentation_url = "";
  description = "";
}

abbrev component : String → String → Bool → List String → Component
component id capability preferred depends_on = record {
  id = id;
  name = id;
  description = "";
  tier = recommended;
  category = "";
  capability = capability;
  preferred = preferred;
  credential_required = false;
  detect_commands = [];
  depends_on = depends_on;
  install = winget_spec;
  router = none;
  version_policy = none;
  platforms = [];
  guided_setup = false;
  tags = [];
}

abbrev catalog : Catalog
catalog = record {
  version = pos 1;
  components =
      component "editor" "" false ("runtime" ∷ [])
      ∷ component "runtime" "" false []
      ∷ component "grep" "search" true []
      ∷ component "ripgrep" "search" false []
      ∷ [];
  profiles =
      record { id = "core"; name = ""; description = ""; components = "editor" ∷ "grep" ∷ [] } ∷ [];
}

abbrev machine : Inventory
machine = record { generated_at = 0; revision = ""; items = []; external = []; raw_sources = [] }

abbrev request : Request
request = record {
  profile = "";
  include = "ripgrep" ∷ [];
  exclude = [];
  allow_credentialed = false;
  allow_upgrades = false;
  provider_overrides = [];
}

-- The plan that `Build` returns for the request.
abbrev plan : Plan
plan = record {
  id = "";
  digest = "";
  profile = "core";
  generated_at = 7;
  expires_at = 0;
  catalog_hash = "";
  inventory_hash = "";
  actions =
      new_action (component "runtime" "" false []) ActionKind.install "missing selected component"
      ∷ new_action (component "editor" "" false ("runtime" ∷ [])) ActionKind.install
          "missing selected component"
      ∷ new_action (component "grep" "search" true []) ActionKind.install
          "missing selected component"
      ∷ new_action (component "ripgrep" "search" false []) ActionKind.skip_dominated
          "not installed because grep is the active provider for search"
      ∷ [];
  providers = ("search", "grep") ∷ [];
}

built : build 7 catalog machine request ≡ ok plan
unfolding build resolve select include_all exclude_all add_all add remove mem override_providers
    preferred_providers expand_dependencies expand_queue select_dependencies
    reconcile_active_providers reconcile_each selected_by_capability is_active_selected
    drop_unselected lookup insert component_by_id find_component profile_by_id actions_of action_for
    comes_before sort_stable order_by_dependencies visit_each visit visit_marked visit_all
    action_by_id
built = refl

build-DependenciesFirst_example :
    DependenciesFirst catalog [] plan.actions × IsDistinct (ids_of plan.actions)
build-DependenciesFirst_example = build-DependenciesFirst 7 catalog machine request plan built

build-selection_example :
    ((x : String) → mem x request.exclude ≡ true → mem x (ids_of plan.actions) ≡ false)
    × ((x : String) → mem x request.include ≡ true → mem x (ids_of plan.actions) ≡ true)
    × ((x : String)
        → mem x (override_ids request.provider_overrides) ≡ true
        → mem x (ids_of plan.actions) ≡ true)
    × ((p : Profile) (x : String)
        → profile_by_id catalog (profile_id request) ≡ some p
        → mem x p.components ≡ true
        → mem x request.exclude ≡ false
        → mem x (ids_of plan.actions) ≡ true)
build-selection_example = build-selection 7 catalog machine request plan built

build-Justified_example : All (Justified request machine plan.providers catalog) plan.actions
build-Justified_example = build-Justified 7 catalog machine request plan built

build_total_example : build 7 catalog machine request ≢ err out_of_fuel
build_total_example = build_total 7 catalog machine request

expand_editor : expand_dependencies catalog ("editor" ∷ []) [] ≡ ok ("runtime" ∷ "editor" ∷ [])
unfolding expand_dependencies expand_queue select_dependencies mem component_by_id find_component
expand_editor = refl

expand_dependencies-IsClosure_example :
    IsClosure catalog [] ("editor" ∷ []) ("runtime" ∷ "editor" ∷ [])
expand_dependencies-IsClosure_example =
    expand_dependencies-IsClosure catalog ("editor" ∷ []) [] ("runtime" ∷ "editor" ∷ [])
      expand_editor

-- Two components that need one another.
abbrev cyclic : Catalog
cyclic = record catalog {
  components = component "a" "" false ("b" ∷ []) ∷ component "b" "" false ("a" ∷ []) ∷ [];
}

abbrev both : List PlanAction
both =
    new_action (component "a" "" false ("b" ∷ [])) ActionKind.install ""
    ∷ new_action (component "b" "" false ("a" ∷ [])) ActionKind.install ""
    ∷ []

cycle_refused : order_by_dependencies cyclic both ≡ err (dependency_cycle "a")
unfolding order_by_dependencies visit_each visit visit_marked visit_all action_by_id lookup insert
    mem component_by_id find_component
cycle_refused = refl

order_by_dependencies_total_example : order_by_dependencies cyclic both ≢ err out_of_fuel
order_by_dependencies_total_example = order_by_dependencies_total cyclic both

expand_dependencies_total_example : expand_dependencies cyclic ("a" ∷ []) [] ≢ err out_of_fuel
expand_dependencies_total_example = expand_dependencies_total cyclic ("a" ∷ []) []
