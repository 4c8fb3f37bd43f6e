-- ===== src/ResourceHub/Files.antt =====
-- internal/resourcehub/fs.go: how a resource is copied or linked to its destination, and how a
-- destination is removed; and internal/resourcehub/sync.go: the name of a backup. The calls of Go's
-- `os` and `filepath` packages are the fields of a record, over a machine of type `S`.
use Prim.Native.String.{String}
use text.Mathlib.Text.{◌==◌}
use agent_stack_manager.Prelude.{
  ℕ, zero, suc, Bool, true, false, ◌&&◌, not, List, [], ◌∷◌, Result, ok, err, ◌>>=◌, if◌then◌else◌,
}
use agent_stack_manager.Prelude.Text.{concatenated}

-- `not_exist` is Go's `os.ErrNotExist`. `out_of_fuel` is no error of the program: the search for a
-- free name has no end there.
pub data FileError : Type 0 where
  not_exist already_exists symlink_source unsupported out_of_fuel : FileError
  refused : String → FileError

pub record FileInfo : Type 0 where
  pub is_dir : Bool
  pub is_symlink : Bool

abbrev pub Call : Type 0 → Type 0 → Type 0
Call S A = S → Result FileError A × S

abbrev pub Done : Type 0
Done = Unit {0}

pub record Files (S : Type 0) : Type 0 where
  pub on_windows : Bool
  pub join : List String → String
  pub dir : String → String
  pub base : String → String
  pub decimal : ℕ → String
  pub attempts : ℕ
  pub lstat : String → S → Result FileError FileInfo
  pub tree_digest : String → S → Result FileError String
  pub rename : String → String → Call S Done
  pub remove : String → Call S Done
  pub remove_all : String → Call S Done
  pub mkdir_all : String → Call S Done
  pub mkdir_temp : String → Call S String
  pub symlink : String → String → Call S Done
  pub replace : String → String → Call S Done
  pub copy_tree : String → String → Call S Done
  pub copy_file : String → String → Call S Done
  pub eval_symlinks : String → S → Result FileError String
  pub abs : String → S → Result FileError String
  pub clean : String → String

-- The next call, unless this one has failed.
abbrev pub and_then :
    {S A B : Type 0} → Result FileError A × S → (A → Call S B) → Result FileError B × S
and_then (err e, s) next = (err e, s)
and_then (ok a, s) next = next a s

module _ {S : Type 0} (f : Files S) where
  abbrev pub is_absent : String → S → Bool
  is_absent path s = elim (f.lstat path s) [ err not_exist ↦ true | _ ↦ false ]

  -- A name, with a number behind it from the second attempt on.
  unfoldable pub numbered : String → ℕ → String
  numbered name zero = name
  numbered name (suc n) = concatenated (name ∷ "-" ∷ f.decimal (suc n) ∷ [])

  -- The loops that look for a free name.
  unfoldable pub free_name : ℕ → String → ℕ → S → Result FileError String
  free_name zero name n s = err out_of_fuel
  free_name (suc fuel) name n s =
      let later = free_name fuel name (suc n) s in
      if is_absent (numbered name n) s then ok (numbered name n) else later

  abbrev pub rollback_base : String → String → ℕ → String
  rollback_base destination plan_id index =
      concatenated (destination ∷ ".agentstack-rollback-" ∷ plan_id ∷ "-" ∷ f.decimal index ∷ [])

  unfoldable pub next_sync_rollback_path : String → String → ℕ → S → Result FileError String
  unfolding free_name
  next_sync_rollback_path destination plan_id index s =
      free_name f.attempts (rollback_base destination plan_id index) 0 s

  unfoldable pub remove_managed_path : String → Call S Done
  remove_managed_path path s = elim (f.lstat path s) [
    | err not_exist ↦ (ok tt, s)
    | err e ↦ (err e, s)
    | ok info ↦ if info.is_dir && not info.is_symlink then f.remove_all path s else f.remove path s
  ]

  -- A second rename that fails is undone, if that is possible.
  abbrev pub restore : String → String → Result FileError Done × S → Result FileError Done × S
  restore backup destination (ok u, s) = (ok u, s)
  restore backup destination (err e, s) = (err e, (f.rename backup destination s).1)

  unfoldable pub replace_dir : String → String → String → Call S Done
  replace_dir source destination backup s = and_then (f.rename destination backup s) λ _ s₁.
      and_then (restore backup destination (f.rename source destination s₁))
        λ _ s₂. f.remove_all backup s₂

  abbrev pub replace_backup : String → String
  replace_backup destination = concatenated (destination ∷ ".agentstack-backup" ∷ [])

  unfoldable pub replace_path : String → String → Call S Done
  unfolding replace_dir free_name
  replace_path source destination s = elim (f.lstat destination s) [
    | err not_exist ↦ f.rename source destination s
    | err e ↦ (err e, s)
    | ok info ↦
        if info.is_dir
        then elim (free_name f.attempts (replace_backup destination) 0 s) [
          | err e ↦ (err e, s)
          | ok backup ↦ replace_dir source destination backup s
        ]
        else f.replace source destination s
  ]

  -- The deferred removal of the staging directory.
  abbrev pub clean_up : String → Result FileError Done × S → Result FileError Done × S
  clean_up stage (r, s) = (r, (f.remove_all stage s).1)

  abbrev pub copy_any : Bool → String → String → Call S Done
  copy_any is_dir source staged s =
      if is_dir then f.copy_tree source staged s else f.copy_file source staged s

  abbrev pub staged_in : String → String → String
  staged_in stage destination = f.join (stage ∷ f.base destination ∷ [])

  unfoldable pub copy_staged : Bool → String → String → String → Call S Done
  unfolding replace_path
  copy_staged is_dir source destination stage s = clean_up stage (
      and_then (copy_any is_dir source (staged_in stage destination) s)
        λ _ s₁. replace_path (staged_in stage destination) destination s₁)

  unfoldable pub copy_resource : String → String → Call S Done
  unfolding copy_staged
  copy_resource source destination s = elim (f.lstat source s) [
    | err e ↦ (err e, s)
    | ok info ↦
        if info.is_symlink
        then (err symlink_source, s)
        else and_then (f.mkdir_all (f.dir destination) s) λ _ s₁.
          and_then (f.mkdir_temp (f.dir destination) s₁)
            λ stage s₂. copy_staged info.is_dir source destination stage s₂
  ]

  abbrev pub link_stage : String → String
  link_stage destination = concatenated (destination ∷ ".agentstack-link" ∷ [])

  unfoldable pub link_resource : String → String → Call S Done
  unfolding replace_path
  link_resource source destination s =
      if f.on_windows
      then (err unsupported, s)
      else and_then (f.mkdir_all (f.dir destination) s) λ _ s₁.
        let s₂ = (f.remove (link_stage destination) s₁).1 in
        and_then (f.symlink source (link_stage destination) s₂)
          λ _ s₃. replace_path (link_stage destination) destination s₃

  -- The path that a path leads to.
  abbrev pub resolved : String → S → Result FileError String
  resolved path s = f.eval_symlinks path s >>= λ real. f.abs real s >>= λ full. ok (f.clean full)

  abbrev pub is_link : String → S → Bool
  is_link path s = elim (f.lstat path s) [ err e ↦ false | ok info ↦ info.is_symlink ]

  abbrev pub is_same_path : Result FileError String → Result FileError String → Bool
  is_same_path (err e) right = false
  is_same_path (ok left) (err e) = false
  is_same_path (ok left) (ok right) = left == right

  unfoldable pub link_destination_matches : String → String → S → Bool
  link_destination_matches source destination s =
      is_link destination s && is_same_path (resolved source s) (resolved destination s)
