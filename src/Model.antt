-- ===== src/Model.antt =====
-- internal/model/model.go: the catalog, the inventory, plans and transactions. Times are numbers of
-- nanoseconds, and 0 is Go's zero time.
use Prim.Native.String.{String}
use text.Mathlib.Text.{◌==◌}
use agent_stack_manager.Prelude.{
  ℕ, Bool, false, Option, none, some, List, [], ◌∷◌, if◌then◌else◌, ℤ,
}
use agent_stack_manager.Prelude.Maps.{Map}

pub data Tier : Type 0 where
  essential recommended optional_local credential : Tier
  other : String → Tier

-- `none` is Go's `InstallNone`.
pub data InstallKind : Type 0 where
  no_install winget npm_global uv_tool router skill_pack manual : InstallKind
  other : String → InstallKind

-- The text of an install kind.
abbrev pub install_kind_text : InstallKind → String
install_kind_text InstallKind.no_install = "none"
install_kind_text InstallKind.winget = "winget"
install_kind_text InstallKind.npm_global = "npm-global"
install_kind_text InstallKind.uv_tool = "uv-tool"
install_kind_text InstallKind.router = "router"
install_kind_text InstallKind.skill_pack = "skill-pack"
install_kind_text InstallKind.manual = "manual"
install_kind_text (InstallKind.other s) = s

pub record CommandSpec : Type 0 where
  pub command : String
  pub args : List String
  pub env : Map String

pub record InstallSpec : Type 0 where
  pub kind : InstallKind
  pub package_name : String
  pub winget_id : String
  pub repository : String
  pub repository_revision : String
  pub manifest_digest : String
  pub source : String
  pub version : String
  pub publisher : String
  pub digest : String
  pub expected_entries : List String
  pub login_hint : String
  pub documentation_url : String
  pub description : String

pub record VersionPolicy : Type 0 where
  pub minimum : String
  pub maximum : String
  pub probe : CommandSpec
  pub pattern_text : String

pub record ProcessLimits : Type 0 where
  pub memory_bytes : ℕ
  pub cpu_percent : ℕ
  pub active_processes : ℕ

pub record RouterServerSpec : Type 0 where
  pub command : String
  pub args : List String
  pub env : Map String
  pub warm : Option CommandSpec
  pub persistent : Bool
  pub idle_ttl_seconds : ℤ
  pub limits : ProcessLimits

pub record Component : Type 0 where
  pub id : String
  pub name : String
  pub description : String
  pub tier : Tier
  pub category : String
  pub capability : String
  pub preferred : Bool
  pub credential_required : Bool
  pub detect_commands : List String
  pub depends_on : List String
  pub install : InstallSpec
  pub router : Option RouterServerSpec
  pub version_policy : Option VersionPolicy
  pub platforms : List String
  pub guided_setup : Bool
  pub tags : List String

pub record Profile : Type 0 where
  pub id : String
  pub name : String
  pub description : String
  pub components : List String

pub record Catalog : Type 0 where
  pub version : ℤ
  pub components : List Component
  pub profiles : List Profile

unfoldable pub find_component : String → List Component → Option Component
find_component id [] = none
find_component id (k ∷ ks) = if k.id == id then some k else find_component id ks

unfoldable pub component_by_id : Catalog → String → Option Component
component_by_id c id = find_component id c.components

unfoldable pub find_profile : String → List Profile → Option Profile
find_profile id [] = none
find_profile id (p ∷ ps) = if p.id == id then some p else find_profile id ps

unfoldable pub profile_by_id : Catalog → String → Option Profile
unfolding find_profile
profile_by_id c id = find_profile id c.profiles

pub record InventoryItem : Type 0 where
  pub component_id : String
  pub installed : Bool
  pub detected_command : String
  pub executable_path : String
  pub version : String
  pub compatible : Bool
  pub incompatible : Bool
  pub package_source : String
  pub publisher : String
  pub managed : Bool
  pub broken : Bool
  pub health_message : String

-- The item of a component that the inventory does not have.
abbrev pub zero_item : InventoryItem
zero_item = record {
  component_id = "";
  installed = false;
  detected_command = "";
  executable_path = "";
  version = "";
  compatible = false;
  incompatible = false;
  package_source = "";
  publisher = "";
  managed = false;
  broken = false;
  health_message = "";
}

pub record ExternalPackage : Type 0 where
  pub name : String
  pub version : String
  pub id : String
  pub source : String
  pub publisher : String

pub record Inventory : Type 0 where
  pub generated_at : ℕ
  pub revision : String
  pub items : Map InventoryItem
  pub external : Map (List ExternalPackage)
  pub raw_sources : Map String

pub data ActionKind : Type 0 where
  keep install repair configure preserve_inactive consent_required skip_dominated skip : ActionKind
  other : String → ActionKind

pub record PlanAction : Type 0 where
  pub component_id : String
  pub name : String
  pub kind : ActionKind
  pub reason : String
  pub install : InstallSpec
  pub selected : Bool
  pub upgrade : Bool

pub record Plan : Type 0 where
  pub id : String
  pub digest : String
  pub profile : String
  pub generated_at : ℕ
  pub expires_at : ℕ
  pub catalog_hash : String
  pub inventory_hash : String
  pub actions : List PlanAction
  pub providers : Map String

pub data TransactionStatus : Type 0 where
  planned running succeeded failed interrupted partial : TransactionStatus
  other : String → TransactionStatus

pub record TransactionAction : Type 0 where
  pub component_id : String
  pub kind : ActionKind
  pub command : String
  pub args : List String
  pub exit_code : ℤ
  pub output : String
  pub output_truncated : Bool
  pub verified : Bool
  pub verification : String
  pub error : String
  pub started_at : ℕ
  pub finished_at : ℕ

pub record Transaction : Type 0 where
  pub id : String
  pub correlation_id : String
  pub status : TransactionStatus
  pub started_at : ℕ
  pub finished_at : ℕ
  pub dry_run : Bool
  pub actions : List TransactionAction
