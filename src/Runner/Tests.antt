-- ===== src/Runner/Tests.antt =====
-- A plan that installs a runtime and an editor that needs it, on a machine whose npm fails on request.
use Prim.Native.String.{String}
use agent_stack_manager.Prelude.{
  ◌≡◌, arith, refl, Bool, true, false, none, some, List, [], ◌∷◌, pos, if◌then◌else◌, length, MemOf,
  here, there, All, ok,
}
use agent_stack_manager.Prelude.Maps.{lookup, insert, mem}
use agent_stack_manager.Model.{
  recommended, ActionKind, InstallKind, InstallSpec, Component, Catalog, Plan, PlanAction,
  TransactionStatus, component_by_id, find_component,
}
use agent_stack_manager.Runner.Invocations.{Invocation, CommandResult, invocation_for}
use agent_stack_manager.Runner.Engine.{
  Engine, ApplyOptions, action_step, refresh_path, call_installer,
}
use agent_stack_manager.Runner.Apply.{apply}
use agent_stack_manager.Runner.Journal.{AllGuarded, HasNoEmptyDependency, apply-AllGuarded}
use agent_stack_manager.Runner.Status.{IsVerdict, apply-IsVerdict}
use agent_stack_manager.Runner.Effects.{Permits, apply-keeps}

abbrev npm_spec : String → InstallSpec
npm_spec name = record {
  kind = InstallKind.npm_global;
  package_name = name;
  winget_id = "";
  repository = "";
  repository_revision = "";
  manifest_digest = "";
  source = "";
  version = "";
  publisher = "";
  digest = "";
  expected_entries = [];
  login_hint = "";
  documentation_url = "";
  description = "";
}

abbrev tool : String → List String → Component
tool id depends_on = record {
  id = id;
  name = id;
  description = "";
  tier = recommended;
  category = "";
  capability = "";
  preferred = false;
  credential_required = false;
  detect_commands = [];
  depends_on = depends_on;
  install = npm_spec id;
  router = none;
  version_policy = none;
  platforms = [];
  guided_setup = false;
  tags = [];
}

abbrev two_tools : Catalog
two_tools = record {
  version = pos 1;
  components = tool "runtime" [] ∷ tool "editor" ("runtime" ∷ []) ∷ [];
  profiles = [];
}

abbrev install_action : String → PlanAction
install_action id = record {
  component_id = id;
  name = id;
  kind = ActionKind.install;
  reason = "";
  install = npm_spec id;
  selected = true;
  upgrade = false;
}

abbrev two_installs : Plan
two_installs = record {
  id = "plan";
  digest = "";
  profile = "core";
  generated_at = 0;
  expires_at = 0;
  catalog_hash = "";
  inventory_hash = "";
  actions = install_action "runtime" ∷ install_action "editor" ∷ [];
  providers = [];
}

-- The machine is the list of commands that ran.
abbrev npm_result : Bool → CommandResult
npm_result works = record {
  stdout = "";
  stderr = "";
  exit_code = if works then pos 0 else pos 1;
  error = if works then none else some "exit status 1";
  truncated = false;
}

abbrev machine : Bool → Engine (List String)
machine works = record {
  commands = λ i w. (npm_result works, i.command ∷ w);
  skills = none;
  catalog = two_tools;
  path = λ w. (none, w);
  verifier = none;
  now = λ w. length w;
  new_id = λ w. "tx";
  quoted = λ s. s;
}

abbrev once : Bool → ApplyOptions (List String)
once dry = record { dry_run = dry; correlation_id = "plan"; on_update = none }

works_example :
    (apply (machine true) two_installs (once false) []).0.status ≡ TransactionStatus.succeeded
unfolding apply action_step component_by_id find_component lookup refresh_path call_installer
    invocation_for
works_example = refl

-- The editor is not installed once the runtime has failed: npm ran once.
fails_example : (apply (machine false) two_installs (once false) []).1 ≡ "npm" ∷ []
unfolding apply action_step component_by_id find_component lookup refresh_path call_installer
    invocation_for insert
fails_example = refl

two_tools_named : HasNoEmptyDependency two_tools
unfolding component_by_id find_component mem
two_tools_named id k found = ground (arith, found)

apply-AllGuarded_example :
    AllGuarded two_tools [] (apply (machine false) two_installs (once false) []).0.actions
apply-AllGuarded_example =
    apply-AllGuarded (machine false) two_tools_named two_installs (once false) []

apply-IsVerdict_example :
    IsVerdict TransactionStatus.succeeded two_installs.actions
      (apply (machine true) two_installs (once false) []).0
apply-IsVerdict_example = apply-IsVerdict (machine true) two_installs (once false) []

npm_only :
    (a : PlanAction) (i : Invocation)
    → MemOf a two_installs.actions
    → invocation_for (λ s. s) a ≡ ok i
    → i.command ≡ "npm"
unfolding invocation_for
npm_only a i here c = cc
npm_only a i (there here) c = cc
npm_only a i (there (there x)) c = elim x [ ]

only_npm : Permits (machine false) (once false) two_installs.actions (All (λ c. c ≡ "npm"))
only_npm = record {
  journals = λ callback tx w updates h. cc;
  runs = λ a i w wet m k c h. (npm_only a i m c, h);
  installs_skill = λ install k w wet skills h. cc;
  refreshes = λ w wet h. h;
  verifies = λ verify k a result w wet verifier h. cc;
}

-- The plan runs npm and nothing else.
apply-keeps_example : All (λ c. c ≡ "npm") (apply (machine false) two_installs (once false) []).1
apply-keeps_example =
    apply-keeps (machine false) two_installs (once false) (All (λ c. c ≡ "npm")) [] only_npm tt
