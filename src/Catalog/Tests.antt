-- ===== src/Catalog/Tests.antt =====
-- A small catalog that is accepted, one with a cycle, and a router command.
use Prim.Native.String.{String}
use agent_stack_manager.Prelude.{
  ◌≡◌, refl, true, false, none, List, [], ◌∷◌, ok, err, pos, leb, ◌+◌, ◌&&◌, if◌then◌else◌, ◌⊎◌,
  All,
}
use agent_stack_manager.Prelude.Text.{Text, codes, text_eq, trim_space}
use agent_stack_manager.Prelude.Maps.{mem, lookup, insert}
use agent_stack_manager.Model.{
  recommended, InstallKind, Component, Catalog, Inventory, profile_by_id, component_by_id,
  find_component,
}
use agent_stack_manager.Planner.Selection.{Request, unknown_included, include_all}
use agent_stack_manager.Planner.Build.{build, select, resolve}
use agent_stack_manager.Planner.OnValid.Faults.{build_on_valid}
use agent_stack_manager.Planner.OnValid.{blames_request}
use agent_stack_manager.Catalog.Acquisition.{
  exact_uv_version, Library, inexact_npx, exact_npm_version, is_npx, is_uvx, after_cmd,
  validate_router_acquisition,
}
use agent_stack_manager.Catalog.Pinned.{NpxCommand, NpxPackages, UvxCommand}
use agent_stack_manager.Catalog.Pinned.Npx.{validate_router_acquisition-npx}
use agent_stack_manager.Catalog.Pinned.Uvx.{validate_router_acquisition-uvx}
use agent_stack_manager.Catalog.Grounded.{Grounded, next}
use agent_stack_manager.Catalog.Grounded.Complete.{validate_dependency_cycles_lem}
use agent_stack_manager.Catalog.Cycles.{
  Marks, cycle, validate_dependency_cycles, walk_marked, walk_all, dependencies_of,
}
use agent_stack_manager.Catalog.Lock.{is_npm_locked, validate_supply_chain_lock}
use agent_stack_manager.Catalog.Validate.{
  validate, cyclic, check_component, check_dependencies, check_members,
}
use agent_stack_manager.Catalog.Sound.{IsValid, validate-IsValid}

abbrev ascii : Library
ascii = record {
  lower = λ c. if leb b'A' c && leb c b'Z' then c + 32 else c;
  equal_fold = text_eq;
  npm_package_name_pattern = λ s. true;
  npm_exact_version_pattern = λ s. true;
  uv_package_name_pattern = λ s. true;
  pep440_version_pattern = λ s. true;
}

abbrev npm_tool : String → List String → Component
npm_tool id depends_on = record {
  id = id;
  name = id;
  description = "";
  tier = recommended;
  category = "";
  capability = "edit";
  preferred = false;
  credential_required = false;
  detect_commands = [];
  depends_on = depends_on;
  install = record {
    kind = InstallKind.npm_global;
    package_name = "tool@1.2.3";
    winget_id = "";
    repository = "";
    repository_revision = "";
    manifest_digest = "";
    source = "npm";
    version = "1.2.3";
    publisher = "p";
    digest = "";
    expected_entries = [];
    login_hint = "";
    documentation_url = "";
    description = "";
  };
  router = none;
  version_policy = none;
  platforms = "windows" ∷ [];
  guided_setup = false;
  tags = [];
}

abbrev catalog_of : List Component → Catalog
catalog_of components = record {
  version = pos 1;
  components = components;
  profiles = record { id = "core"; name = ""; description = ""; components = "editor" ∷ [] } ∷ [];
}

abbrev good : Catalog
good = catalog_of (npm_tool "editor" ("runtime" ∷ []) ∷ npm_tool "runtime" [] ∷ [])

abbrev looping : Catalog
looping = catalog_of (npm_tool "editor" ("runtime" ∷ []) ∷ npm_tool "runtime" ("editor" ∷ []) ∷ [])

good_is_accepted : validate ascii good ≡ ok tt
unfolding validate check_component trim_space mem validate_supply_chain_lock is_npm_locked
    exact_npm_version check_dependencies lookup walk_marked walk_all dependencies_of insert
    check_members
good_is_accepted = refl

cycle_is_found :
    validate ascii looping ≡ err (cyclic (cycle ("editor" ∷ "runtime" ∷ "editor" ∷ [])))
unfolding validate check_component trim_space mem validate_supply_chain_lock is_npm_locked
    exact_npm_version check_dependencies lookup walk_marked walk_all dependencies_of insert
    check_members
cycle_is_found = refl

validate-IsValid_example : IsValid ascii good
validate-IsValid_example = validate-IsValid ascii good good_is_accepted

abbrev nothing : Inventory
nothing = record { generated_at = 0; revision = ""; items = []; external = []; raw_sources = [] }

abbrev odd_request : Request
odd_request = record {
  profile = "core";
  include = "debugger" ∷ [];
  exclude = [];
  allow_credentialed = false;
  allow_upgrades = false;
  provider_overrides = [];
}

odd_fails : build 7 good nothing odd_request ≡ err (unknown_included "debugger")
unfolding build profile_by_id resolve select include_all component_by_id find_component
odd_fails = refl

build_on_valid_example : blames_request (unknown_included "debugger") ≡ true
build_on_valid_example =
    build_on_valid ascii 7 good nothing odd_request (unknown_included "debugger") good_is_accepted
      odd_fails

abbrev npx_args : List Text
npx_args = codes "-y" ∷ codes "--package=lib@2.0.0" ∷ codes "tool@1.2.3" ∷ []

npx_is_accepted : validate_router_acquisition ascii (codes "NPX.exe") npx_args ≡ ok tt
unfolding validate_router_acquisition trim_space exact_npm_version
npx_is_accepted = refl

validate_router_acquisition-npx_example : NpxCommand ascii npx_args × NpxPackages ascii npx_args
unfolding is_npx after_cmd trim_space
validate_router_acquisition-npx_example =
    validate_router_acquisition-npx ascii (codes "NPX.exe") npx_args npx_is_accepted refl

-- The package that would run is not exact, whatever follows it.
floating_is_refused :
    validate_router_acquisition ascii (codes "npx") (codes "-y" ∷ codes "evil" ∷ npx_args)
    ≡ err (inexact_npx (codes "evil"))
unfolding validate_router_acquisition trim_space exact_npm_version
floating_is_refused = refl

abbrev uvx_args : List Text
uvx_args = codes "--from" ∷ codes "tool==1.2.3" ∷ codes "-q" ∷ codes "run==1.2.3" ∷ []

uvx_is_accepted :
    validate_router_acquisition ascii (codes "cmd") (codes "/c" ∷ codes "uvx.exe" ∷ uvx_args)
    ≡ ok tt
unfolding validate_router_acquisition trim_space exact_uv_version
uvx_is_accepted = refl

validate_router_acquisition-uvx_example : UvxCommand ascii uvx_args
unfolding is_npx is_uvx after_cmd trim_space
validate_router_acquisition-uvx_example =
    validate_router_acquisition-uvx ascii (codes "cmd") (codes "/c" ∷ codes "uvx.exe" ∷ uvx_args)
      uvx_is_accepted refl refl

validate_dependency_cycles_lem_example :
    (((s : Marks) × (validate_dependency_cycles good.components ≡ ok s))
      × All (λ k. Grounded (next good.components) k.id) good.components)
    ⊎ (((p : List String) × (validate_dependency_cycles good.components ≡ err (cycle p)))
        × ¬ All (λ k. Grounded (next good.components) k.id) good.components)
validate_dependency_cycles_lem_example = validate_dependency_cycles_lem good.components
