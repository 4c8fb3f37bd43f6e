-- ===== src/Planner/Build.antt =====
-- internal/planner/planner.go: `Build`.
use Prim.Native.String.{String}
use text.Mathlib.Text.{◌==◌}
use agent_stack_manager.Prelude.{ℕ, [], Result, ok, ◌>>=◌, if◌then◌else◌}
use agent_stack_manager.Prelude.Maps.{Keys, Map}
use agent_stack_manager.Prelude.Sorting.{sort_stable}
use agent_stack_manager.Model.{Profile, Catalog, Inventory, Plan, profile_by_id}
use agent_stack_manager.Planner.Selection.{
  Request, PlanError, unknown_profile, found, Selection, add_all, include_all, exclude_all,
  expand_dependencies,
}
use agent_stack_manager.Planner.Providers.{
  preferred_providers, override_providers, reconcile_active_providers,
}
use agent_stack_manager.Planner.Actions.{actions_of, comes_before}
use agent_stack_manager.Planner.Visits.{order_by_dependencies}

abbrev pub profile_id : Request → String
profile_id request = if request.profile == "" then "core" else request.profile

-- The selection of the profile, the inclusions and the exclusions.
unfoldable pub select : Catalog → Profile → Request → Result PlanError Selection
select c profile request = do
  s ←
      include_all c request.include
        (record { selected = add_all profile.components []; included = []; excluded = [] })
  exclude_all c request.exclude s

-- The selection closed under dependencies, what is excluded, and the active providers.
pub record Resolved : Type 0 where
  pub selected : Keys
  pub excluded : Keys
  pub active : Map String

unfoldable pub resolve : Catalog → Profile → Request → Result PlanError Resolved
resolve c profile request = do
  s ← select c profile request
  o ←
      override_providers c s.excluded request.provider_overrides
        (s.selected, preferred_providers c.components [])
  selected ← expand_dependencies c o.0 s.excluded
  active ← reconcile_active_providers c selected o.1
  ok (record { selected = selected; excluded = s.excluded; active = active })

-- `Build`. The clock is an argument.
unfoldable pub build : ℕ → Catalog → Inventory → Request → Result PlanError Plan
build now c inventory request = do
  profile ← found (unknown_profile (profile_id request)) (profile_by_id c (profile_id request))
  r ← resolve c profile request
  let actions = actions_of request inventory r.active r.selected c.components
  ordered ← order_by_dependencies c (sort_stable (comes_before c) actions)
  ok (record {
    id = "";
    digest = "";
    profile = profile_id request;
    generated_at = now;
    expires_at = 0;
    catalog_hash = "";
    inventory_hash = "";
    actions = ordered;
    providers = r.active;
  })
