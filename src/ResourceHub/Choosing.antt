-- ===== src/ResourceHub/Choosing.antt =====
-- internal/resourcehub/sync.go: what `PlanSync` does about one resource.
use Prim.Native.String.{String}
use text.Mathlib.Text.{◌==◌}
use agent_stack_manager.Prelude.{
  Bool, true, false, ◌&&◌, not, Option, none, some, Result, ok, err, ◌>>=◌, ensure, if◌then◌else◌,
}
use agent_stack_manager.ResourceHub.Types.{
  SyncMode, Resource, Target, SyncAction, PlanOptions, ManagedEntry,
}
use agent_stack_manager.ResourceHub.Destinations.{effective_target_mode, target_destination}
use agent_stack_manager.ResourceHub.Files.{not_exist, link_destination_matches}
use agent_stack_manager.ResourceHub.Hub.{
  SyncError, file, blocked, unsupported_kind, Hub, failing, resource_source,
}

abbrev pub is_managed_by : String → Option ManagedEntry → Bool
is_managed_by id none = false
is_managed_by id (some managed) = managed.resource_id == id

abbrev pub is_unchanged : String → Option ManagedEntry → Bool
is_unchanged current none = false
is_unchanged current (some managed) = current == managed.digest

abbrev pub is_link_mode : SyncMode → Bool
is_link_mode SyncMode.link = true
is_link_mode _ = false

pub record Choice : Type 0 where
  pub action : SyncAction
  pub current : String
  pub reason : String

module _ {S : Type 0} (h : Hub S) (s : S) where
  -- What to do about a destination that exists.
  unfoldable pub choose_existing :
      Target → Resource → String → String → Option ManagedEntry → String → Choice
  unfolding link_destination_matches effective_target_mode
  choose_existing target resource id destination managed current =
      if is_link_mode (effective_target_mode h.files.on_windows target)
        && (is_managed_by id managed
            && link_destination_matches h.files (resource_source h resource) destination s)
      then record {
        action = SyncAction.noop;
        current = current;
        reason = "managed link still points to the canonical resource";
      }
      else if current == resource.digest
      then record {
        action = SyncAction.noop;
        current = current;
        reason = "destination already matches resource digest";
      }
      else if is_managed_by id managed && is_unchanged current managed
      then record {
        action = SyncAction.update;
        current = current;
        reason = "managed destination is unchanged and the canonical resource advanced";
      }
      else if is_managed_by id managed
      then record {
        action = SyncAction.conflict;
        current = current;
        reason = "managed destination changed outside AgentStack and will not be overwritten";
      }
      else record {
        action = SyncAction.conflict;
        current = current;
        reason = "foreign destination differs and will not be overwritten";
      }

  unfoldable pub choose :
      Target → Resource → String → String → Option ManagedEntry → Result SyncError Choice
  unfolding choose_existing
  choose target resource id destination managed = elim (h.files.tree_digest destination s) [
    | err not_exist ↦
        ok (record { action = SyncAction.create; current = ""; reason = "destination is absent" })
    | err e ↦ err (file e)
    | ok current ↦ ok (choose_existing target resource id destination managed current)
  ]

  abbrev pub audited : PlanOptions → String → Result SyncError (Unit {0})
  audited options id =
      if options.allow_risk
      then ok tt
      else failing (h.is_blocked id s) >>= λ b. ensure (not b) (blocked id)

  abbrev pub destination_of : Target → Resource → Result SyncError String
  destination_of target resource = elim (target_destination h.files.join target resource) [
    | none ↦ err (unsupported_kind resource.id)
    | some destination ↦ ok destination
  ]
