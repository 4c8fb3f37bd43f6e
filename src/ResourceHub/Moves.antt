-- ===== src/ResourceHub/Moves.antt =====
-- One operation of a synchronisation, and how to take it back.
use Prim.Native.String.{String}
use text.Mathlib.Text.{◌==◌}
use text.Mathlib.TextEquality.{eq_iff}
use agent_stack_manager.Prelude.{
  ℕ, ◌≡◌, refl, sym, subst, ◌∙◌, ◌≢◌, inl, inr, true, false, Bool-cases, none, List, Result, ok,
  err, Result-cases, MemOf, arith,
}
use agent_stack_manager.ResourceHub.Types.{SyncMode, Resource, Target, SyncOperation}
use agent_stack_manager.ResourceHub.Destinations.{effective_target_mode}
use agent_stack_manager.ResourceHub.Files.{
  FileError, not_exist, Done, numbered, rollback_base, free_name, link_resource,
}
use agent_stack_manager.ResourceHub.Hub.{Hub, SyncError, resource_source}
use agent_stack_manager.ResourceHub.Moving.{
  RollbackEntry, is_replacing, moved, move_aside, or_copy, transfer, after_transfer, install,
}
use agent_stack_manager.ResourceHub.Disk.{Disk, Keeps, KeepsBut}
use agent_stack_manager.ResourceHub.Transfer.{
  free_name-eq-ok, copy_resource-Fixes, link_resource-Fixes,
}
use agent_stack_manager.ResourceHub.Rollback.{Recorded, Same, undone}

module _ {S : Type 0} (h : Hub S) (plan_id : String) (destinations : List String)
    (disk : Disk h plan_id destinations) where
  -- Nothing has changed but a destination and the names that its backup may take.
  abbrev pub Local : String → ℕ → S → S → Type 0
  Local d index s t =
      (p : String)
      → disk.Tracked p
      → p ≢ d
      → ((n : ℕ) → p ≢ numbered h.files (rollback_base h.files d plan_id index) n)
      → disk.view t p ≡ disk.view s p

  -- A destination that was moved aside can be moved back; one that was not has not changed.
  abbrev pub IsMove : String → S → Result SyncError RollbackEntry → S → Type 0
  IsMove d s (err e) t = Keeps h plan_id destinations disk s t
  IsMove d s (ok entry) t =
      (entry.destination ≡ d)
      × Recorded h plan_id destinations disk entry
      × Same h plan_id destinations disk (disk.view s)
          (undone h plan_id destinations disk entry (disk.view t))

  module _ (d : String) (m : MemOf d destinations) where
    or_copy-KeepsBut :
        (source : String) (s : S) (run : Result FileError Done × S)
        → KeepsBut h plan_id destinations disk d s run.1
        → KeepsBut h plan_id destinations disk d s (or_copy h source d run).1
    or_copy-KeepsBut source s (ok u, t) k = k
    or_copy-KeepsBut source s (err e, t) k =
        λ p q o. copy_resource-Fixes h plan_id destinations disk d m source t p q o ∙ k p q o

    transfer-KeepsBut :
        (mode : SyncMode) (source : String) (s : S)
        → KeepsBut h plan_id destinations disk d s (transfer h mode source d s).1
    unfolding transfer
    transfer-KeepsBut SyncMode.link source s =
        or_copy-KeepsBut source s (link_resource h.files source d s)
          (link_resource-Fixes h plan_id destinations disk d m source s)
    transfer-KeepsBut SyncMode.copy source s =
        copy_resource-Fixes h plan_id destinations disk d m source s
    transfer-KeepsBut SyncMode.unset source s = λ p q o. refl
    transfer-KeepsBut SyncMode.auto source s = λ p q o. refl
    transfer-KeepsBut (SyncMode.other text) source s = λ p q o. refl

    after_transfer_state :
        (mode : SyncMode) (resource : Resource) (run : Result FileError Done × S)
        → (after_transfer h mode resource d run).1 ≡ run.1
    after_transfer_state mode resource (err e, s) = refl
    after_transfer_state mode resource (ok u, s) = refl

    pub install-KeepsBut :
        (target : Target) (resource : Resource) (s : S)
        → KeepsBut h plan_id destinations disk d s (install h target resource d s).1
    unfolding install
    install-KeepsBut target resource s =
        let mode = effective_target_mode h.files.on_windows target in
        let run = transfer h mode (resource_source h resource) d s in
        subst (KeepsBut h plan_id destinations disk d s)
          (sym (after_transfer_state mode resource run))
          (transfer-KeepsBut mode (resource_source h resource) s)

    abbrev entry_of : String → RollbackEntry
    entry_of backup = record { destination = d; backup = backup; existed = true }

    moved-IsMove :
        (backup : String) (s : S) (run : Result FileError Done × S)
        → (run.0 ≡ ok tt → IsMove d s (ok (entry_of backup)) run.1)
        → ((e : FileError) → run.0 ≡ err e → Keeps h plan_id destinations disk s run.1)
        → IsMove d s (moved h d backup run).0 (moved h d backup run).1
    moved-IsMove backup s (err e, t) f g = g e refl
    moved-IsMove backup s (ok u, t) f g = f refl

    moved_state :
        (backup : String) (run : Result FileError Done × S) → (moved h d backup run).1 ≡ run.1
    moved_state backup (err e, t) = refl
    moved_state backup (ok u, t) = refl

    -- A free name for the backup of the destination.
    module _ (index n : ℕ) (backup : String) (s : S)
        (named : backup ≡ numbered h.files (rollback_base h.files d plan_id index) n)
        (free : h.files.lstat backup s ≡ err not_exist) where
      tracked : disk.Tracked backup
      tracked = subst disk.Tracked (sym named) (disk.backup_tracked d index n m)

      apart : backup ≢ d
      apart e = disk.backup_apart d d index n m m (sym e ∙ named)

      rename-IsMove :
          (h.files.rename d backup s).0 ≡ ok tt
          → IsMove d s (ok (entry_of backup)) (h.files.rename d backup s).1
      rename-IsMove done =
          let here = disk.destination_tracked d m in
          let both = disk.rename_ok d backup s here tracked (λ e. apart (sym e)) done in
          (
            refl,
            (here, λ e. (tracked, apart)),
            λ p q.
                unfold undone in
                elim (Bool-cases (d == p)) [
                  | inl same ↦ ground (arith, same, both.0, eq_iff d p)
                  | inr other ↦ elim (Bool-cases (backup == p)) [
                    | inl same ↦ ground (
                      arith,
                      other,
                      same,
                      disk.lstat_absent backup s tracked free,
                      eq_iff backup p,
                    )
                    | inr elsewhere ↦ ground (
                      arith,
                      other,
                      elsewhere,
                      disk.rename_other d backup p s (inl here) (inl tracked) q
                          (λ e. ground (arith, other, e, eq_iff d p))
                          (λ e. ground (arith, elsewhere, e, eq_iff backup p)),
                    )
                  ]
                ],
          )

  module _ (op : SyncOperation) (m : MemOf op.destination destinations) (index : ℕ) (s : S) where
    abbrev d : String
    d = op.destination

    abbrev base : String
    base = rollback_base h.files d plan_id index

    pub move_aside-IsMove :
        (is_replacing op.action ≡ false → disk.view s op.destination ≡ none)
        → IsMove op.destination s
            (move_aside h plan_id index op s).0
            (move_aside h plan_id index op s).1
    unfolding move_aside
    move_aside-IsMove absent = elim (Bool-cases (is_replacing op.action)) [
      | inr fresh ↦
          rw (move_aside, fresh)
            (
              refl,
              (disk.destination_tracked d m, λ e. cc),
              λ p q. unfold undone in ground (arith, absent fresh, eq_iff d p),
            )
      | inl replacing ↦ elim (Result-cases (free_name h.files h.files.attempts base 0 s)) [
        | inr (e, full) ↦ rw (move_aside, replacing, full) (λ p q. refl)
        | inl (backup, found) ↦
            let (n, named, free) =
              free_name-eq-ok h plan_id destinations disk h.files.attempts base backup 0 s found in
            rw (move_aside, replacing, found)
              (moved-IsMove d m backup s (h.files.rename d backup s)
                (rename-IsMove d m index n backup s named free)
                (λ e failed p q. disk.rename_failed d backup p s e q failed))
      ]
    ]

    pub move_aside-Local : Local op.destination index s (move_aside h plan_id index op s).1
    unfolding move_aside
    move_aside-Local p q o apart = elim (Bool-cases (is_replacing op.action)) [
      | inr fresh ↦ rw (move_aside, fresh) refl
      | inl replacing ↦ elim (Result-cases (free_name h.files h.files.attempts base 0 s)) [
        | inr (e, full) ↦ rw (move_aside, replacing, full) refl
        | inl (backup, found) ↦
            let (n, named, free) =
              free_name-eq-ok h plan_id destinations disk h.files.attempts base backup 0 s found in
            rw (move_aside, replacing, found, moved_state d m backup (h.files.rename d backup s))
              (disk.rename_other d backup p s (inl (disk.destination_tracked d m))
                (inl (tracked d m index n backup s named free)) q o (λ e. apart n (e ∙ named)))
      ]
    ]
