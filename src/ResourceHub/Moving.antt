-- ===== src/ResourceHub/Moving.antt =====
-- internal/resourcehub/sync.go: how `ApplySync` moves a destination aside, installs a resource
-- there, and takes both back.
use Prim.Native.String.{String}
use text.Mathlib.Text.{◌==◌}
use agent_stack_manager.Prelude.{
  ℕ, Bool, true, false, ◌&&◌, not, List, [], ◌∷◌, ◌++◌, Result, ok, err, ◌>>=◌, ◌>>◌, ensure,
  if◌then◌else◌,
}
use agent_stack_manager.ResourceHub.Types.{SyncMode, Resource, Target, SyncAction, SyncOperation}
use agent_stack_manager.ResourceHub.Destinations.{effective_target_mode}
use agent_stack_manager.ResourceHub.Files.{
  FileError, Call, Done, next_sync_rollback_path, remove_managed_path, copy_resource, link_resource,
}
use agent_stack_manager.ResourceHub.Hub.{
  SyncError, file, installed_mismatch, Hub, failing, resource_source,
}

pub record RollbackEntry : Type 0 where
  pub destination : String
  pub backup : String
  pub existed : Bool

abbrev pub is_replacing : SyncAction → Bool
is_replacing SyncAction.update = true
is_replacing SyncAction.remove = true
is_replacing _ = false

abbrev pub is_copy_mode : SyncMode → Bool
is_copy_mode SyncMode.copy = true
is_copy_mode _ = false

abbrev pub errors_of : Result FileError Done → List SyncError
errors_of (ok _) = []
errors_of (err e) = file e ∷ []

module _ {S : Type 0} (h : Hub S) where
  -- `rollbackAll`.
  abbrev pub restored : RollbackEntry → S → Result FileError Done × S
  restored entry s =
      if entry.existed then h.files.rename entry.backup entry.destination s else (ok tt, s)

  unfoldable pub undo_entry : RollbackEntry → S → List SyncError × S
  unfolding remove_managed_path
  undo_entry entry s =
      let removed = remove_managed_path h.files entry.destination s in
      let back = restored entry removed.1 in (errors_of removed.0 ++ errors_of back.0, back.1)

  unfoldable pub rollback_all : List RollbackEntry → S → List SyncError × S
  unfolding undo_entry
  rollback_all [] s = ([], s)
  rollback_all (entry ∷ entries) s =
      let undone = undo_entry entry s in
      let later = rollback_all entries undone.1 in (undone.0 ++ later.0, later.1)

  abbrev pub moved :
      String → String → Result FileError Done × S → Result SyncError RollbackEntry × S
  moved destination backup (err e, s) = (err (file e), s)
  moved destination backup (ok _, s) =
      (ok (record { destination = destination; backup = backup; existed = true }), s)

  -- What is at the destination goes to a backup.
  unfoldable pub move_aside : String → ℕ → SyncOperation → S → Result SyncError RollbackEntry × S
  unfolding next_sync_rollback_path
  move_aside plan_id index op s =
      if is_replacing op.action
      then elim (next_sync_rollback_path h.files op.destination plan_id index s) [
        | err e ↦ (err (file e), s)
        | ok backup ↦ moved op.destination backup (h.files.rename op.destination backup s)
      ]
      else (ok (record { destination = op.destination; backup = ""; existed = false }), s)

  abbrev pub or_copy : String → String → Result FileError Done × S → Result FileError Done × S
  or_copy source destination (ok u, s) = (ok u, s)
  or_copy source destination (err e, s) = copy_resource h.files source destination s

  unfoldable pub transfer : SyncMode → String → String → Call S Done
  unfolding copy_resource link_resource
  transfer mode source destination s = elim mode [
    | SyncMode.link ↦ or_copy source destination (link_resource h.files source destination s)
    | SyncMode.copy ↦ copy_resource h.files source destination s
    | _ ↦ (ok tt, s)
  ]

  -- The digest of what was installed.
  unfoldable pub installed_digest : SyncMode → Resource → String → S → Result SyncError String
  installed_digest mode resource destination s =
      failing (h.files.tree_digest destination s) >>= (λ digest.
        ensure (not (is_copy_mode mode && not (digest == resource.digest)))
          (installed_mismatch resource.id)
        >> ok digest)

  abbrev pub after_transfer :
      SyncMode → Resource → String → Result FileError Done × S → Result SyncError String × S
  after_transfer mode resource destination (err e, s) = (err (file e), s)
  after_transfer mode resource destination (ok _, s) =
      (installed_digest mode resource destination s, s)

  unfoldable pub install : Target → Resource → String → S → Result SyncError String × S
  unfolding transfer installed_digest effective_target_mode
  install target resource destination s =
      let mode = effective_target_mode h.files.on_windows target in
      after_transfer mode resource destination
        (transfer mode (resource_source h resource) destination s)
