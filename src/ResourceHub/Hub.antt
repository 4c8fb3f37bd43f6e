-- ===== src/ResourceHub/Hub.antt =====
-- internal/resourcehub/sync.go and manager.go: what a synchronisation reads and writes besides
-- resources, and its errors. The machine is a state of type `S`.
use Prim.Native.String.{String}
use text.Mathlib.Text.{◌==◌}
use agent_stack_manager.Prelude.{ℕ, pos, Bool, [], ◌∷◌, Result, ok, err, ◌>>◌, ensure}
use agent_stack_manager.Prelude.Text.{concatenated}
use agent_stack_manager.ResourceHub.Types.{
  Resource, Registry, SyncOperation, SyncPlan, ManagedState,
}
use agent_stack_manager.ResourceHub.Files.{FileError, not_exist, Files, Call, Done}

-- One constructor for each message, with what it names.
pub data SyncError : Type 0 where
  file : FileError → SyncError
  confirmation_required bad_plan_id digest_mismatch bad_stored_digest plan_expired : SyncError
  registry_changed plan_identity state_identity : SyncError
  unknown_target disabled_target unavailable_target unknown_resource blocked : String → SyncError
  unsupported_kind active conflict_at state_missing changed_before_removal : String → SyncError
  resource_gone resource_changed appeared destination_changed : String → SyncError
  unsupported_action installed_mismatch hook_failed : String → SyncError

-- The machine outside `files`: the registry, which is read with the program's own directories in
-- place; the audit of a resource; the stored plans and states; the lock; and the digests, over Go's
-- JSON and SHA-256. `before_operation` is the hook of tests, which says nothing where there is none.
pub record Hub (S : Type 0) : Type 0 where
  pub files : Files S
  pub root : String
  pub load_registry : S → Result FileError Registry
  pub is_blocked : String → S → Result FileError Bool
  pub read_plan : String → S → Result FileError SyncPlan
  pub write_plan : String → SyncPlan → Call S Done
  pub read_state : String → S → Result FileError ManagedState
  pub write_state : String → ManagedState → Call S Done
  pub create_lock : String → Call S Done
  pub remove_file : String → Call S Done
  pub before_operation : SyncOperation → S → Result String Done
  pub registry_json : Registry → Result FileError String
  pub plan_json : SyncPlan → Result FileError String
  pub sync_id : ℕ → String

-- A failed call of the machine, as an error of the synchronisation.
abbrev pub failing : {A : Type 0} → Result FileError A → Result SyncError A
failing (err e) = err (file e)
failing (ok a) = ok a

module _ {S : Type 0} (h : Hub S) where
  abbrev pub resource_source : Resource → String
  resource_source resource = h.files.join (h.root ∷ "resources" ∷ resource.id ∷ resource.entry ∷ [])

  -- The path of the lock, in `acquireLock`.
  abbrev pub lock_path : String → String
  lock_path target_id =
      h.files.join (h.root ∷ "locks" ∷ concatenated (target_id ∷ ".lock" ∷ []) ∷ [])

  abbrev pub json_path : String → String → String
  json_path folder id = h.files.join (h.root ∷ folder ∷ concatenated (id ∷ ".json" ∷ []) ∷ [])

  unfoldable pub load_managed_state : String → S → Result SyncError ManagedState
  load_managed_state target_id s = elim (h.read_state (json_path "sync-state" target_id) s) [
    | err not_exist ↦
        ok (record { version = pos 1; target_id = target_id; entries = []; updated_at = 0 })
    | err e ↦ err (file e)
    | ok state ↦ ensure (state.target_id == target_id) state_identity >> ok state
  ]

  unfoldable pub save_managed_state : ManagedState → Call S Done
  save_managed_state state =
      h.write_state (json_path "sync-state" state.target_id) (record state { version = pos 1 })

  unfoldable pub sync_plan_digest : SyncPlan → Result SyncError String
  sync_plan_digest plan = failing (h.plan_json (record plan { digest = "" }))
