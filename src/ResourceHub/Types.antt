-- ===== src/ResourceHub/Types.antt =====
-- internal/resourcehub/types.go: resources, targets, and the plans and reports of a synchronisation.
-- Times are numbers of nanoseconds.
use Prim.Native.String.{String}
use agent_stack_manager.Prelude.{ℕ, Bool, List, ℤ}
use agent_stack_manager.Prelude.Maps.{Map}

pub data Kind : Type 0 where
  skill agent rule command prompt mcp_server context : Kind
  other : String → Kind

pub data Agent : Type 0 where
  codex claude cursor opencode copilot generic : Agent
  other : String → Agent

-- `unset` is the empty text.
pub data SyncMode : Type 0 where
  unset auto copy link : SyncMode
  other : String → SyncMode

pub record Resource : Type 0 where
  pub id : String
  pub kind : Kind
  pub name : String
  pub description : String
  pub digest : String
  pub entry : String
  pub source : String
  pub tags : List String
  pub targets : List Agent
  pub scope : String
  pub enabled : Bool
  pub imported_at : ℕ
  pub updated_at : ℕ
  pub metadata : Map String

pub record Target : Type 0 where
  pub id : String
  pub agent : Agent
  pub root : String
  pub mode : SyncMode
  pub enabled : Bool

pub record Registry : Type 0 where
  pub version : ℤ
  pub resources : Map Resource
  pub targets : Map Target
  pub updated_at : ℕ

pub data SyncAction : Type 0 where
  create update remove noop conflict : SyncAction
  other : String → SyncAction

pub record SyncOperation : Type 0 where
  pub resource_id : String
  pub kind : Kind
  pub action : SyncAction
  pub source : String
  pub destination : String
  pub desired_digest : String
  pub current_digest : String
  pub reason : String

pub record SyncPlan : Type 0 where
  pub id : String
  pub digest : String
  pub target_id : String
  pub generated_at : ℕ
  pub expires_at : ℕ
  pub registry_digest : String
  pub allow_risk : Bool
  pub prune : Bool
  pub operations : List SyncOperation

pub record PlanOptions : Type 0 where
  pub ttl : ℤ
  pub allow_risk : Bool
  pub prune : Bool

pub record SyncReport : Type 0 where
  pub plan_id : String
  pub target_id : String
  pub started_at : ℕ
  pub finished_at : ℕ
  pub applied : List SyncOperation
  pub skipped : List SyncOperation
  pub backups : List String

pub record ManagedEntry : Type 0 where
  pub resource_id : String
  pub destination : String
  pub digest : String
  pub managed_at : ℕ

pub record ManagedState : Type 0 where
  pub version : ℤ
  pub target_id : String
  pub entries : Map ManagedEntry
  pub updated_at : ℕ
