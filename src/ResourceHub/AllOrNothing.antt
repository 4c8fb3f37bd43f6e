-- ===== src/ResourceHub/AllOrNothing.antt =====
-- What a synchronisation that reports one error leaves on a disk as `Disk` describes it: internal/
-- resourcehub/sync.go, `ApplySync` with its rollback.
use Prim.Native.String.{String}
use agent_stack_manager.Prelude.{
  pos, ℕ, ◌≡◌, refl, sym, ◌∙◌, inl, inr, Bool, false, Option, none, Option-cases, List, [], ◌∷◌,
  Result, ok, err, Result-cases, with_ok, ok-subst, MemOf, here, there, arith, All, All-imp, map,
}
use agent_stack_manager.ResourceHub.Types.{
  Target, Registry, SyncAction, SyncOperation, SyncPlan, ManagedState,
}
use agent_stack_manager.ResourceHub.Files.{FileError, not_exist, Done}
use agent_stack_manager.ResourceHub.Hub.{
  Hub, SyncError, file, lock_path, save_managed_state, load_managed_state,
}
use agent_stack_manager.ResourceHub.Moving.{is_replacing}
use agent_stack_manager.ResourceHub.Applying.{
  SyncProgress, Attempt, SyncOutcome, Context, is_noop, apply_operations, rolled_back, saved,
  conclude_sync,
}
use agent_stack_manager.ResourceHub.Checks.{
  check_source, check_absent, check_on, check_operation, revalidate, admit, load_sync_plan,
}
use agent_stack_manager.ResourceHub.Syncing.{
  apply_locked, apply_sync, sync_started, released, when_locked,
}
use agent_stack_manager.ResourceHub.Admission.{admit-Admitted}
use agent_stack_manager.ResourceHub.Disk.{Disk, Keeps}
use agent_stack_manager.ResourceHub.Rollback.{Same, LeadsTo, LeadsTo-Same, rollback_all_lem}
use agent_stack_manager.ResourceHub.Atomic.{Unique, IsFree, apply_operations-Leads}

module _ {S : Type 0} (h : Hub S) (c : Context) (destinations : List String)
    (disk : Disk h c.plan_id destinations) where
  abbrev UndoneBy : (String → Option disk.Content) → SyncOutcome × S → Type 0
  UndoneBy start run =
      (e : SyncError)
      → run.0.errors ≡ e ∷ []
      → Same h c.plan_id destinations disk start (disk.view run.1)

  rolled_back-UndoneBy :
      (start : String → Option disk.Content) (p : SyncProgress) (e : SyncError) (s : S)
      → LeadsTo h c.plan_id destinations disk start p.rollbacks (disk.view s)
      → UndoneBy start (rolled_back h c p e s)
  rolled_back-UndoneBy start p e s l x only =
      rollback_all_lem h c.plan_id destinations disk start p.rollbacks s l (cc)

  saved-UndoneBy :
      (start : String → Option disk.Content) (p : SyncProgress) (run : Result FileError Done × S)
      → LeadsTo h c.plan_id destinations disk start p.rollbacks (disk.view run.1)
      → UndoneBy start (saved h c p run)
  saved-UndoneBy start p (err e, s) l = rolled_back-UndoneBy start p (file e) s l
  saved-UndoneBy start p (ok u, s) l = λ x only. absurd (cc)

  conclude_sync-UndoneBy :
      (start : String → Option disk.Content) (run : Attempt × S)
      → LeadsTo h c.plan_id destinations disk start run.0.progress.rollbacks (disk.view run.1)
      → UndoneBy start (conclude_sync h c run)
  unfolding conclude_sync
  conclude_sync-UndoneBy start run l = elim (Option-cases run.0.error) [
    | inr (e, failed) ↦
        rw (conclude_sync, failed) (rolled_back-UndoneBy start run.0.progress e run.1 l)
    | inl fine ↦
        let p = run.0.progress in
        let state = record p.state { updated_at = c.now } in
        let wrote = save_managed_state h state run.1 in
        rw (conclude_sync, fine)
          (saved-UndoneBy start p wrote (
            LeadsTo-Same h c.plan_id destinations disk start p.rollbacks (disk.view run.1)
              (disk.view wrote.1)
              (λ x t.
                unfold save_managed_state in
                disk.write_state_keeps state.target_id x (record state { version = pos 1 }) run.1 t)
              l))
  ]

  check_absent-eq-ok :
      (op : SyncOperation) (s : S)
      → disk.Tracked op.destination
      → check_absent h op s ≡ ok tt
      → disk.view s op.destination ≡ none
  unfolding check_absent
  check_absent-eq-ok op s m e = elim (Result-cases (h.files.lstat op.destination s)) [
    | inl (info, present) ↦ absurd (ground (arith, present, e))
    | inr (not_exist, gone) ↦ disk.lstat_absent op.destination s m gone
    | inr (_, refused) ↦ absurd (ground (arith, refused, e))
  ]

  check_on-IsFree :
      (state : ManagedState) (action : SyncAction) (op : SyncOperation) (s : S)
      → disk.Tracked op.destination
      → check_on h c.registry state action op s ≡ ok tt
      → is_noop action ≡ false
      → is_replacing action ≡ false
      → disk.view s op.destination ≡ none
  check_on-IsFree state SyncAction.create op s m e acting fresh =
      with_ok {m = check_source h c.registry op s} e λ u source last. check_absent-eq-ok op s m last
  check_on-IsFree state SyncAction.update op s m e acting fresh = absurd (cc)
  check_on-IsFree state SyncAction.remove op s m e acting fresh = absurd (cc)
  check_on-IsFree state SyncAction.noop op s m e acting fresh = absurd (cc)
  check_on-IsFree state SyncAction.conflict op s m e acting fresh = absurd (cc)
  check_on-IsFree state (SyncAction.other text) op s m e acting fresh = absurd (cc)

  revalidate-IsFree :
      (state : ManagedState) (ops : List SyncOperation) (s : S)
      → All (λ op. MemOf op.destination destinations) ops
      → revalidate h c.registry state ops s ≡ ok tt
      → All (IsFree h c destinations disk s) ops
  unfolding revalidate
  revalidate-IsFree state [] s m e = tt
  revalidate-IsFree state (op ∷ ops) s m e =
      with_ok {m = check_operation h c.registry state op s} e λ u first rest. (
        unfold check_operation in
            check_on-IsFree state op.action op s (disk.destination_tracked op.destination m.0)
              first,
        revalidate-IsFree state ops s m.1 rest,
      )

abbrev pub destinations_of : List SyncOperation → List String
destinations_of = map (λ op. op.destination)

All-listed : (ops : List SyncOperation) → All (λ op. MemOf op.destination (destinations_of ops)) ops
All-listed [] = tt
All-listed (op ∷ ops) = (here, All-imp ops (λ other m. there m) (All-listed ops))

module _ {S : Type 0} (h : Hub S) (plan : SyncPlan)
    (disk : Disk h plan.id (destinations_of plan.operations))
    (unique : Unique plan.operations) where
  -- If there is but one error, so none of the rollback, nothing has changed.
  abbrev pub Undone : S → SyncOutcome × S → Type 0
  Undone s run =
      (e : SyncError)
      → run.0.errors ≡ e ∷ []
      → Keeps h plan.id (destinations_of plan.operations) disk s run.1

  module _ (registry : Registry) (target : Target) (now : ℕ) where
    abbrev context : Context
    context = record { plan_id = plan.id; registry = registry; target = target; now = now }

    apply_locked-Undone : (s : S) → Undone s (apply_locked h plan registry target now s)
    unfolding apply_locked
    apply_locked-Undone s = elim (Result-cases (load_managed_state h plan.target_id s)) [
      | inr (e, failed) ↦ rw (apply_locked, failed) (λ x only p t. refl)
      | inl (state, loaded) ↦ elim (Result-cases (revalidate h registry state plan.operations s)) [
        | inr (e, failed) ↦ rw (apply_locked, loaded, failed) (λ x only p t. refl)
        | inl (u, fine) ↦
            rw (apply_locked, loaded, fine)
              (conclude_sync-UndoneBy h context (destinations_of plan.operations) disk (disk.view s)
                (apply_operations h context 0 plan.operations (sync_started plan state now) s)
                (apply_operations-Leads h context (destinations_of plan.operations) disk
                  (disk.view s) 0 plan.operations (sync_started plan state now) s
                  (All-listed plan.operations) unique
                  (revalidate-IsFree h context (destinations_of plan.operations) disk state
                    plan.operations s (All-listed plan.operations) fine)
                  (unfold LeadsTo in λ p t. refl)))
      ]
    ]

    released-Undone :
        (id : String) (s : S) (run : SyncOutcome × S) → Undone s run → Undone s (released h id run)
    released-Undone id s (outcome, t) undone x only p m =
        disk.remove_lock_keeps id p t m ∙ undone x only p m

    when_locked-Undone :
        (s : S) (run : Result FileError Done × S)
        → Keeps h plan.id (destinations_of plan.operations) disk s run.1
        → Undone s (when_locked h plan registry target now run)
    when_locked-Undone s (err e, t) kept = λ x only. kept
    when_locked-Undone s (ok u, t) kept =
        released-Undone plan.target_id s (apply_locked h plan registry target now t)
          λ x only p m. apply_locked-Undone t x only p m ∙ kept p m

apply_sync-Undone :
    {S : Type 0} (h : Hub S) (plan_id digest : String) (confirmed : Bool) (now : ℕ) (s : S)
    (plan : SyncPlan) (disk : Disk h plan.id (destinations_of plan.operations))
    → load_sync_plan h plan_id s ≡ ok plan
    → (unique : Unique plan.operations)
    → Undone h plan disk unique s (apply_sync h plan_id digest confirmed now s)
unfolding apply_sync
apply_sync-Undone h plan_id digest confirmed now s plan disk loaded unique =
    elim (Result-cases (admit h plan_id digest confirmed now s)) [
      | inr (e, failed) ↦ rw (apply_sync, failed) (λ x only p t. refl)
      | inl ((plan', registry, target), admitted) ↦
          let admission =
            admit-Admitted h plan_id digest confirmed now s plan' registry target admitted in
          let same : plan' ≡ plan =
            ok-subst (λ q. plan' ≡ q) (sym admission.loaded ∙ loaded) refl in
          rw (apply_sync, admitted)
            (rw same (
              when_locked-Undone h plan disk unique registry target now s
                (h.create_lock (lock_path h plan.target_id) s)
                (λ p t. disk.create_lock_keeps plan.target_id p s t)))
    ]

-- On a disk that is as `Disk` describes it, if the stored plan is read and its operations have
-- different destinations: a synchronisation that reports one error, and so none of its
-- rollback, leaves every destination, and every other path that the disk tracks, as it was,
-- wherever it failed.
pub apply_sync-Keeps :
    {S : Type 0} (h : Hub S) (plan_id digest : String) (confirmed : Bool) (now : ℕ) (s : S)
    (plan : SyncPlan) (disk : Disk h plan.id (destinations_of plan.operations))
    → load_sync_plan h plan_id s ≡ ok plan
    → Unique plan.operations
    → (e : SyncError) → (apply_sync h plan_id digest confirmed now s).0.errors ≡ e ∷ []
    → Keeps h plan.id
        (destinations_of plan.operations)
        disk
        s
        (apply_sync h plan_id digest confirmed now s).1
apply_sync-Keeps h plan_id digest confirmed now s plan disk loaded unique =
    apply_sync-Undone h plan_id digest confirmed now s plan disk loaded unique
