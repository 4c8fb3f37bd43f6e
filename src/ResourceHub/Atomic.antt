-- ===== src/ResourceHub/Atomic.antt =====
-- internal/resourcehub/sync.go: the loop of a synchronisation, and what its rollback needs.
use Prim.Native.String.{String}
use agent_stack_manager.Prelude.{
  ℕ, suc, ◌≡◌, refl, sym, subst, ◌∙◌, ◌≢◌, inl, inr, false, Bool-cases, Option, none, Option-cases,
  List, [], ◌∷◌, Result, ok, err, Result-cases, MemOf, All,
}
use agent_stack_manager.ResourceHub.Types.{Resource, SyncAction, SyncOperation}
use agent_stack_manager.ResourceHub.Hub.{Hub, SyncError}
use agent_stack_manager.ResourceHub.Moving.{RollbackEntry, is_replacing, move_aside, install}
use agent_stack_manager.ResourceHub.Applying.{
  SyncProgress, Attempt, Context, is_noop, resource_of, with_rollback, installed, act_on, act,
  after_move, apply_operation, unless_failed, apply_operations,
}
use agent_stack_manager.ResourceHub.Disk.{Disk, KeepsBut}
use agent_stack_manager.ResourceHub.Rollback.{undone, undone-KeepsBut, LeadsTo, LeadsTo-Same}
use agent_stack_manager.ResourceHub.Moves.{
  Local, IsMove, install-KeepsBut, move_aside-IsMove, move_aside-Local,
}

-- No two operations have the same destination.
abbrev pub Unique : List SyncOperation → Type 0
Unique [] = Unit
Unique (op ∷ ops) = All (λ other. other.destination ≢ op.destination) ops × Unique ops

module _ {S : Type 0} (h : Hub S) (c : Context) (destinations : List String)
    (disk : Disk h c.plan_id destinations) where
  abbrev Leads : (String → Option disk.Content) → SyncProgress → S → Type 0
  Leads start p s = LeadsTo h c.plan_id destinations disk start p.rollbacks (disk.view s)

  -- Where an operation is to create something, there is nothing.
  abbrev pub IsFree : S → SyncOperation → Type 0
  IsFree s op =
      is_noop op.action ≡ false → is_replacing op.action ≡ false → disk.view s op.destination ≡ none

  installed_state :
      (op : SyncOperation) (resource : Resource) (p : SyncProgress)
      (run : Result SyncError String × S)
      → ((installed h c op resource p run).1 ≡ run.1)
        × ((installed h c op resource p run).0.progress.rollbacks ≡ p.rollbacks)
  installed_state op resource p (err e, s) = (refl, refl)
  installed_state op resource p (ok digest, s) = (refl, refl)

  module _ (op : SyncOperation) (m : MemOf op.destination destinations) where
    abbrev Acts : SyncProgress → S → Attempt × S → Type 0
    Acts p s run =
        KeepsBut h c.plan_id destinations disk op.destination s run.1
        × (run.0.progress.rollbacks ≡ p.rollbacks)

    install-Acts :
        (p : SyncProgress) (s : S)
        → Acts p s (
            installed h c op
              (resource_of c.registry op.resource_id)
              p
              (install h c.target (resource_of c.registry op.resource_id) op.destination s))
    install-Acts p s =
        let resource = resource_of c.registry op.resource_id in
        let run = install h c.target resource op.destination s in
        let same = installed_state op resource p run in
        (
          subst (KeepsBut h c.plan_id destinations disk op.destination s) (sym same.0)
              (install-KeepsBut h c.plan_id destinations disk op.destination m c.target resource s),
          same.1,
        )

    act_on-Acts :
        (action : SyncAction) (p : SyncProgress) (s : S) → Acts p s (act_on h c action op p s)
    act_on-Acts SyncAction.create p s = install-Acts p s
    act_on-Acts SyncAction.update p s = install-Acts p s
    act_on-Acts SyncAction.remove p s = (λ q t o. refl, refl)
    act_on-Acts SyncAction.noop p s = (λ q t o. refl, refl)
    act_on-Acts SyncAction.conflict p s = (λ q t o. refl, refl)
    act_on-Acts (SyncAction.other text) p s = (λ q t o. refl, refl)

    act-Acts : (p : SyncProgress) (s : S) → Acts p s (act h c op p s)
    unfolding act
    act-Acts p s = act_on-Acts op.action p s

    abbrev Steps : (String → Option disk.Content) → ℕ → S → Attempt × S → Type 0
    Steps start index s run =
        Leads start run.0.progress run.1
        × Local h c.plan_id destinations disk op.destination index s run.1

    after_move-Steps :
        (start : String → Option disk.Content) (index : ℕ) (p : SyncProgress) (s : S)
        (run : Result SyncError RollbackEntry × S)
        → Leads start p s
        → IsMove h c.plan_id destinations disk op.destination s run.0 run.1
        → Local h c.plan_id destinations disk op.destination index s run.1
        → Steps start index s (after_move h c op p run)
    after_move-Steps start index p s (err e, t) l move near = (
      LeadsTo-Same h c.plan_id destinations disk start p.rollbacks (disk.view s) (disk.view t) move
          l,
      near,
    )
    after_move-Steps start index p s (ok entry, t) l (same, recorded, back) near =
        let q = with_rollback entry p in
        let run = act h c op q t in
        let acts = act-Acts q t in
        let l' =
          LeadsTo-Same h c.plan_id destinations disk start p.rollbacks (disk.view s)
            (undone h c.plan_id destinations disk entry (disk.view t)) back l in
        let kept =
          undone-KeepsBut h c.plan_id destinations disk entry t run.1 recorded
            (subst (λ d. KeepsBut h c.plan_id destinations disk d t run.1) (sym same) acts.0) in
        unfold LeadsTo in
        (
          rw acts.1 (
            recorded,
            LeadsTo-Same h c.plan_id destinations disk start p.rollbacks
                (undone h c.plan_id destinations disk entry (disk.view t))
                (undone h c.plan_id destinations disk entry (disk.view run.1)) kept l',
          ),
          λ x tracked o apart. acts.0 x tracked o ∙ near x tracked o apart,
        )

    apply_operation-Steps :
        (start : String → Option disk.Content) (index : ℕ) (p : SyncProgress) (s : S)
        → Leads start p s
        → IsFree s op
        → Steps start index s (apply_operation h c index op p s)
    unfolding apply_operation
    apply_operation-Steps start index p s l free = elim (Bool-cases (is_noop op.action)) [
      | inl skipped ↦ rw (apply_operation, skipped) (l, λ x t o a. refl)
      | inr acting ↦ elim (Result-cases (h.before_operation op s)) [
        | inr (text, failed) ↦ rw (apply_operation, acting, failed) (l, λ x t o a. refl)
        | inl (u, fine) ↦
            rw (apply_operation, acting, fine)
              (after_move-Steps start index p s (move_aside h c.plan_id index op s) l
                (move_aside-IsMove h c.plan_id destinations disk op m index s (free acting))
                (move_aside-Local h c.plan_id destinations disk op m index s))
      ]
    ]

  abbrev IsPlanned : SyncOperation → Type 0
  IsPlanned op = MemOf op.destination destinations

  -- What an operation does leaves the destinations of the others free.
  Local-IsFree :
      (op : SyncOperation) (index : ℕ) (s t : S)
      → IsPlanned op
      → Local h c.plan_id destinations disk op.destination index s t
      → (ops : List SyncOperation) → All IsPlanned ops
      → All (λ other. other.destination ≢ op.destination) ops
      → All (IsFree s) ops
      → All (IsFree t) ops
  Local-IsFree op index s t m near [] planned apart free = tt
  Local-IsFree op index s t m near (other ∷ ops) planned apart free = (
    λ acting fresh.
        near other.destination (disk.destination_tracked other.destination planned.0) apart.0
          (λ n. disk.backup_apart op.destination other.destination index n m planned.0)
        ∙ free.0 acting fresh,
    Local-IsFree op index s t m near ops planned.1 apart.1 free.1,
  )

  unless_failed-Leads :
      (start : String → Option disk.Content) (next : SyncProgress → S → Attempt × S)
      (run : Attempt × S)
      → Leads start run.0.progress run.1
      → (Leads start (next run.0.progress run.1).0.progress (next run.0.progress run.1).1)
      → Leads start (unless_failed h c next run).0.progress (unless_failed h c next run).1
  unless_failed-Leads start next (attempt, s) l k = elim (Option-cases attempt.error) [
    | inl fine ↦ rw fine k
    | inr (e, failed) ↦ rw failed l
  ]

  pub apply_operations-Leads :
      (start : String → Option disk.Content) (index : ℕ) (ops : List SyncOperation)
      (p : SyncProgress) (s : S)
      → All IsPlanned ops
      → Unique ops
      → All (IsFree s) ops
      → Leads start p s
      → Leads start
          (apply_operations h c index ops p s).0.progress
          (apply_operations h c index ops p s).1
  unfolding apply_operations
  apply_operations-Leads start index [] p s planned unique free l = l
  apply_operations-Leads start index (op ∷ ops) p s planned unique free l =
      let run = apply_operation h c index op p s in
      let steps = apply_operation-Steps op planned.0 start index p s l free.0 in
      unless_failed-Leads start (apply_operations h c (suc index) ops) run steps.0 (
        apply_operations-Leads start (suc index) ops run.0.progress run.1 planned.1 unique.1
          (Local-IsFree op index s run.1 planned.0 steps.1 ops planned.1 unique.0 free.1) steps.0)
