-- ===== src/ResourceHub/Checks.antt =====
-- internal/resourcehub/sync.go: what `ApplySync` tests before it changes a destination.
use Prim.Native.String.{String}
use text.Mathlib.Text.{◌==◌}
use agent_stack_manager.Prelude.{
  ℕ, Bool, ◌&&◌, ◌||◌, not, ltb, none, some, List, [], ◌∷◌, Result, ok, err, ◌>>=◌, ◌>>◌, ensure,
}
use agent_stack_manager.Prelude.Text.{codes, trim_space, text_eq, all, is_empty}
use agent_stack_manager.Prelude.Maps.{lookup}
use agent_stack_manager.State.Store.{is_char, is_record_char}
use agent_stack_manager.ResourceHub.Types.{
  Target, Registry, SyncAction, SyncOperation, SyncPlan, ManagedState,
}
use agent_stack_manager.ResourceHub.Files.{not_exist, Done}
use agent_stack_manager.ResourceHub.Hub.{
  SyncError, file, confirmation_required, bad_plan_id, digest_mismatch, bad_stored_digest,
  plan_expired, registry_changed, plan_identity, unavailable_target, conflict_at, state_missing,
  changed_before_removal, resource_gone, resource_changed, appeared, destination_changed,
  unsupported_action, Hub, failing, resource_source, json_path, sync_plan_digest,
}

-- `validID`.
unfoldable pub valid_id : String → Bool
unfolding is_record_char text_eq
valid_id id =
    let value = trim_space (codes id) in
    not (is_empty value)
    && (all (λ r. is_record_char r || is_char b'.' r) value
        && (not (text_eq value (codes ".")) && not (text_eq value (codes ".."))))

module _ {S : Type 0} (h : Hub S) where
  unfoldable pub load_sync_plan : String → S → Result SyncError SyncPlan
  load_sync_plan id s =
      failing (h.read_plan (json_path h "plans" id) s)
      >>= (λ plan. ensure (plan.id == id) plan_identity >> ok plan)

  -- The target of a plan, unless it is gone or disabled.
  abbrev pub target_of : Registry → String → Result SyncError Target
  target_of registry id = elim (lookup id registry.targets) [
    | none ↦ err (unavailable_target id)
    | some target ↦ ensure target.enabled (unavailable_target id) >> ok target
  ]

  -- The tests before the lock is taken.
  unfoldable pub admit :
      String → String → Bool → ℕ → S → Result SyncError (SyncPlan × Registry × Target)
  unfolding load_sync_plan sync_plan_digest valid_id
  admit plan_id digest confirmed now s = do
    ensure confirmed confirmation_required
    ensure (valid_id plan_id) bad_plan_id
    plan ← load_sync_plan plan_id s
    ensure (digest == plan.digest) digest_mismatch
    actual ← sync_plan_digest h plan
    ensure (actual == plan.digest) bad_stored_digest
    ensure (ltb now plan.expires_at) plan_expired
    registry ← failing (h.load_registry s)
    registry_digest ← failing (h.registry_json registry)
    ensure (registry_digest == plan.registry_digest) registry_changed
    target ← target_of registry plan.target_id
    ok (plan, registry, target)

  -- The revalidation of a removal.
  unfoldable pub check_removal : ManagedState → SyncOperation → S → Result SyncError Done
  check_removal state op s = elim (lookup op.destination state.entries) [
    | none ↦ err (state_missing op.destination)
    | some entry ↦ elim (h.files.tree_digest op.destination s) [
      | err not_exist ↦ ok tt
      | err e ↦ err (file e)
      | ok current ↦ ensure (current == entry.digest) (changed_before_removal op.destination)
    ]
  ]

  -- The source of a creation or an update is still the reviewed one.
  unfoldable pub check_source : Registry → SyncOperation → S → Result SyncError Done
  check_source registry op s = elim (lookup op.resource_id registry.resources) [
    | none ↦ err (resource_gone op.resource_id)
    | some resource ↦ failing (h.files.tree_digest (resource_source h resource) s) >>= (λ current.
        ensure (current == op.desired_digest && current == resource.digest)
          (resource_changed resource.id))
  ]

  unfoldable pub check_absent : SyncOperation → S → Result SyncError Done
  check_absent op s = elim (h.files.lstat op.destination s) [
    | ok info ↦ err (appeared op.destination)
    | err not_exist ↦ ok tt
    | err e ↦ err (file e)
  ]

  unfoldable pub check_unchanged : SyncOperation → S → Result SyncError Done
  check_unchanged op s = elim (h.files.tree_digest op.destination s) [
    | err e ↦ err (destination_changed op.destination)
    | ok current ↦ ensure (current == op.current_digest) (destination_changed op.destination)
  ]

  abbrev pub check_on :
      Registry → ManagedState → SyncAction → SyncOperation → S → Result SyncError Done
  check_on registry state SyncAction.noop op s = ok tt
  check_on registry state SyncAction.conflict op s = err (conflict_at op.destination)
  check_on registry state SyncAction.remove op s = check_removal state op s
  check_on registry state SyncAction.create op s = check_source registry op s >> check_absent op s
  check_on registry state SyncAction.update op s =
      check_source registry op s >> check_unchanged op s
  check_on registry state (SyncAction.other text) op s = err (unsupported_action text)

  unfoldable pub check_operation :
      Registry → ManagedState → SyncOperation → S → Result SyncError Done
  unfolding check_removal check_source check_absent check_unchanged
  check_operation registry state op s = check_on registry state op.action op s

  -- The loop that revalidates all operations.
  unfoldable pub revalidate :
      Registry → ManagedState → List SyncOperation → S → Result SyncError Done
  unfolding check_operation
  revalidate registry state [] s = ok tt
  revalidate registry state (op ∷ ops) s =
      check_operation registry state op s >> revalidate registry state ops s
