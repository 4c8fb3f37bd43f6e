-- ===== src/ResourceHub/Disk.antt =====
-- What a synchronisation relies on of the disk: Go's `os` package on the paths that matter.
use Prim.Native.String.{String}
use agent_stack_manager.Prelude.{ℕ, ◌≡◌, ◌≢◌, ◌⊎◌, Option, none, List, ok, err, MemOf}
use agent_stack_manager.ResourceHub.Files.{
  FileError, not_exist, numbered, rollback_base, replace_backup, staged_in, link_stage,
}
use agent_stack_manager.ResourceHub.Types.{ManagedState}
use agent_stack_manager.ResourceHub.Hub.{Hub, json_path, lock_path}

-- The disk at paths of which none lies inside another: the destinations of a plan, the names of
-- their backups, and all that must not change. Next to them are the scratch paths, where resources
-- are staged. A call changes nothing but its arguments, and a call that fails to rename, nothing.
pub record Disk {S : Type 0} (h : Hub S) (plan_id : String) (destinations : List String)
    : Type 1 where
  pub Content : Type 0
  pub view : S → String → Option Content
  pub Tracked : String → Type 0
  pub Scratch : String → Type 0
  pub apart : (p q : String) → Tracked p → Scratch q → p ≢ q
  pub destination_tracked : (d : String) → MemOf d destinations → Tracked d
  pub backup_tracked :
      (d : String) (index n : ℕ)
      → MemOf d destinations
      → Tracked (numbered h.files (rollback_base h.files d plan_id index) n)
  pub backup_apart :
      (d e : String) (index n : ℕ)
      → MemOf d destinations
      → MemOf e destinations
      → e ≢ numbered h.files (rollback_base h.files d plan_id index) n
  pub link_scratch : (d : String) → MemOf d destinations → Scratch (link_stage h.files d)
  pub replaced_scratch :
      (d : String) (n : ℕ)
      → MemOf d destinations
      → Scratch (numbered h.files (replace_backup h.files d) n)
  pub temp_scratch :
      (d stage : String) (s : S)
      → MemOf d destinations
      → (h.files.mkdir_temp (h.files.dir d) s).0 ≡ ok stage
      → Scratch stage × Scratch (staged_in h.files stage d)
  pub lstat_absent :
      (p : String) (s : S) → Tracked p → h.files.lstat p s ≡ err not_exist → view s p ≡ none
  pub rename_ok :
      (a b : String) (s : S)
      → Tracked a
      → Tracked b
      → a ≢ b
      → (h.files.rename a b s).0 ≡ ok tt
      → (view (h.files.rename a b s).1 b ≡ view s a) × (view (h.files.rename a b s).1 a ≡ none)
  pub rename_failed :
      (a b p : String) (s : S) (e : FileError)
      → Tracked p
      → (h.files.rename a b s).0 ≡ err e
      → view (h.files.rename a b s).1 p ≡ view s p
  pub rename_other :
      (a b p : String) (s : S)
      → Tracked a ⊎ Scratch a
      → Tracked b ⊎ Scratch b
      → Tracked p
      → p ≢ a
      → p ≢ b
      → view (h.files.rename a b s).1 p ≡ view s p
  pub remove_ok :
      (a : String) (s : S)
      → Tracked a
      → (h.files.remove a s).0 ≡ ok tt
      → view (h.files.remove a s).1 a ≡ none
  pub remove_other :
      (a p : String) (s : S)
      → Tracked a ⊎ Scratch a
      → Tracked p
      → p ≢ a
      → view (h.files.remove a s).1 p ≡ view s p
  pub remove_all_ok :
      (a : String) (s : S)
      → Tracked a
      → (h.files.remove_all a s).0 ≡ ok tt
      → view (h.files.remove_all a s).1 a ≡ none
  pub remove_all_other :
      (a p : String) (s : S)
      → Tracked a ⊎ Scratch a
      → Tracked p
      → p ≢ a
      → view (h.files.remove_all a s).1 p ≡ view s p
  pub mkdir_all_keeps :
      (d p : String) (s : S)
      → MemOf d destinations
      → Tracked p
      → view (h.files.mkdir_all (h.files.dir d) s).1 p ≡ view s p
  pub mkdir_temp_keeps :
      (d p : String) (s : S)
      → MemOf d destinations
      → Tracked p
      → view (h.files.mkdir_temp (h.files.dir d) s).1 p ≡ view s p
  pub symlink_keeps :
      (a b p : String) (s : S) → Scratch b → Tracked p → view (h.files.symlink a b s).1 p ≡ view s p
  pub replace_other :
      (a d p : String) (s : S)
      → Scratch a
      → MemOf d destinations
      → Tracked p
      → p ≢ d
      → view (h.files.replace a d s).1 p ≡ view s p
  pub copy_tree_keeps :
      (a b p : String) (s : S)
      → Scratch b
      → Tracked p
      → view (h.files.copy_tree a b s).1 p ≡ view s p
  pub copy_file_keeps :
      (a b p : String) (s : S)
      → Scratch b
      → Tracked p
      → view (h.files.copy_file a b s).1 p ≡ view s p
  pub create_lock_keeps :
      (id p : String) (s : S) → Tracked p → view (h.create_lock (lock_path h id) s).1 p ≡ view s p
  pub remove_lock_keeps :
      (id p : String) (s : S) → Tracked p → view (h.remove_file (lock_path h id) s).1 p ≡ view s p
  pub write_state_keeps :
      (id p : String) (state : ManagedState) (s : S)
      → Tracked p
      → view (h.write_state (json_path h "sync-state" id) state s).1 p ≡ view s p

module _ {S : Type 0} (h : Hub S) (plan_id : String) (destinations : List String)
    (disk : Disk h plan_id destinations) where
  -- No path that matters has changed, or none but one.
  abbrev pub Keeps : S → S → Type 0
  Keeps s t = (p : String) → disk.Tracked p → disk.view t p ≡ disk.view s p

  abbrev pub KeepsBut : String → S → S → Type 0
  KeepsBut d s t = (p : String) → disk.Tracked p → p ≢ d → disk.view t p ≡ disk.view s p
