-- ===== src/ResourceHub/Syncing.antt =====
-- internal/resourcehub/sync.go: `ApplySync`, over its parts.
use Prim.Native.String.{String}
use agent_stack_manager.Prelude.{ℕ, Bool, [], ◌∷◌, Result, ok, err}
use agent_stack_manager.ResourceHub.Types.{Target, Registry, SyncPlan, ManagedState}
use agent_stack_manager.ResourceHub.Files.{FileError, already_exists, Done}
use agent_stack_manager.ResourceHub.Checks.{admit, revalidate}
use agent_stack_manager.ResourceHub.Applying.{
  SyncProgress, SyncOutcome, Context, no_report, apply_operations, conclude_sync,
}
use agent_stack_manager.ResourceHub.Hub.{
  SyncError, file, active, Hub, lock_path, load_managed_state,
}

abbrev pub refused_with : SyncError → SyncOutcome
refused_with e = record { report = no_report; errors = e ∷ [] }

abbrev pub sync_started : SyncPlan → ManagedState → ℕ → SyncProgress
sync_started plan state now = record {
  state = state;
  rollbacks = [];
  report = record no_report { plan_id = plan.id; target_id = plan.target_id; started_at = now };
}

module _ {S : Type 0} (h : Hub S) where
  -- What the lock covers.
  unfoldable pub apply_locked : SyncPlan → Registry → Target → ℕ → S → SyncOutcome × S
  unfolding load_managed_state revalidate apply_operations conclude_sync
  apply_locked plan registry target now s = elim (load_managed_state h plan.target_id s) [
    | err e ↦ (refused_with e, s)
    | ok state ↦ elim (revalidate h registry state plan.operations s) [
      | err e ↦ (refused_with e, s)
      | ok _ ↦
          let c : Context = record {
            plan_id = plan.id;
            registry = registry;
            target = target;
            now = now;
          } in
          conclude_sync h c (apply_operations h c 0 plan.operations (sync_started plan state now) s)
    ]
  ]

  -- The lock is a file that must not exist, and is removed at the end.
  abbrev pub released : String → SyncOutcome × S → SyncOutcome × S
  released target_id (outcome, s) = (outcome, (h.remove_file (lock_path h target_id) s).1)

  abbrev pub lock_error : String → FileError → SyncError
  lock_error target_id already_exists = active target_id
  lock_error target_id e = file e

  abbrev pub when_locked :
      SyncPlan → Registry → Target → ℕ → Result FileError Done × S → SyncOutcome × S
  when_locked plan registry target now (err e, s) = (refused_with (lock_error plan.target_id e), s)
  when_locked plan registry target now (ok _, s) =
      released plan.target_id (apply_locked plan registry target now s)

  unfoldable pub apply_sync : String → String → Bool → ℕ → S → SyncOutcome × S
  unfolding admit apply_locked
  apply_sync plan_id digest confirmed now s = elim (admit h plan_id digest confirmed now s) [
    | err e ↦ (refused_with e, s)
    | ok (plan, registry, target) ↦
        when_locked plan registry target now (h.create_lock (lock_path h plan.target_id) s)
  ]
