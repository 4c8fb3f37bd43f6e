-- ===== src/Runner/Invocations.antt =====
-- internal/runner/runner.go: invocations, their results, and `invocationFor`. Times are nanoseconds.
use Prim.Native.String.{String}
use text.Mathlib.Text.{◌==◌}
use agent_stack_manager.Prelude.{
  ℕ, ◌*◌, Bool, true, false, ◌||◌, Option, List, [], ◌∷◌, ◌++◌, Result, ok, err, ◌>>◌, not, ensure,
  if◌then◌else◌, ℤ,
}
use agent_stack_manager.Prelude.Text.{concatenated}
use agent_stack_manager.Prelude.Maps.{Map}
use agent_stack_manager.Model.{ActionKind, InstallKind, PlanAction, install_kind_text}

pub record Invocation : Type 0 where
  pub command : String
  pub args : List String
  pub env : Map String
  pub timeout : ℕ
  pub max_output_bytes : ℕ
  pub long_running : Bool

-- Go's `Result`. An error is its text.
pub record CommandResult : Type 0 where
  pub stdout : String
  pub stderr : String
  pub exit_code : ℤ
  pub error : Option String
  pub truncated : Bool

abbrev pub minutes : ℕ → ℕ
minutes n = n * 60000000000

abbrev pub invoke : String → List String → ℕ → Invocation
invoke command args timeout = record {
  command = command;
  args = args;
  env = [];
  timeout = timeout;
  max_output_bytes = 0;
  long_running = false;
}

abbrev pub is_repair : ActionKind → Bool
is_repair ActionKind.repair = true
is_repair _ = false

abbrev pub option_args : String → String → List String
option_args name value = if value == "" then [] else name ∷ value ∷ []

unfoldable pub winget_args : PlanAction → List String
winget_args action =
    ((if action.upgrade then "upgrade" else "install")
      ∷ "--id"
      ∷ action.install.winget_id
      ∷ "--exact"
      ∷ "--silent"
      ∷ "--accept-package-agreements"
      ∷ "--accept-source-agreements"
      ∷ "--disable-interactivity"
      ∷ [])
    ++ (if action.upgrade then [] else "--no-upgrade" ∷ [])
    ++ option_args "--source" action.install.source
    ++ option_args "--version" action.install.version

unfoldable pub uv_args : PlanAction → List String
uv_args action =
    ("tool" ∷ "install" ∷ [])
    ++ (if is_repair action.kind || action.upgrade then "--force" ∷ [] else [])
    ++ action.install.package_name ∷ []

-- `invocationFor`, by the kind of the installation. The first argument is Go's `%q`.
unfoldable pub invocation_of :
    (String → String) → InstallKind → PlanAction → Result String Invocation
invocation_of quoted InstallKind.winget action = do
  ensure (not (action.install.winget_id == "")) "winget id is empty"
  ok (invoke "winget" (winget_args action) (minutes 30))
invocation_of quoted InstallKind.npm_global action = do
  ensure (not (action.install.package_name == "")) "npm package is empty"
  ok (invoke "npm" ("install" ∷ "--global" ∷ action.install.package_name ∷ []) (minutes 15))
invocation_of quoted InstallKind.uv_tool action = do
  ensure (not (action.install.package_name == "")) "uv package is empty"
  ok (invoke "uv" (uv_args action) (minutes 15))
invocation_of quoted kind action =
    err (concatenated ("unsupported install kind " ∷ quoted (install_kind_text kind) ∷ []))

unfoldable pub invocation_for : (String → String) → PlanAction → Result String Invocation
unfolding invocation_of
invocation_for quoted action = invocation_of quoted action.install.kind action
