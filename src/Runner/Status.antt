-- ===== src/Runner/Status.antt =====
-- What the status of an applied plan says.
use Prim.Native.String.{String}
use mathlib.Core.List.{append-nil, append_assoc}
use agent_stack_manager.Prelude.{
  ℕ, subst, ◌≡◌, refl, sym, ap, ◌⊎◌, inl, inr, Bool, true, false, not, ◌||◌, Option, none, some,
  List, [], ◌∷◌, ◌++◌, Bool-cases, if◌then◌else◌, arith,
}
use agent_stack_manager.Model.{Plan, PlanAction, Transaction, TransactionAction, TransactionStatus}
use agent_stack_manager.Runner.Engine.{Engine, ApplyOptions, action_step, journal_failure_action}
use agent_stack_manager.Runner.Apply.{
  Progress, settle, published, checkpoint, apply_each, conclude_apply, close_journal, complete,
  apply_published, apply, publish, new_transaction, continue_with-keeps, journal_failed,
}
use agent_stack_manager.Runner.Steps.{action_step-IsStep}

-- A verified record of each action, in the actions' order.
abbrev pub AllDone : List PlanAction → List TransactionAction → Type 0
AllDone [] [] = Unit
AllDone (a ∷ actions) (r ∷ rs) =
    (r.component_id ≡ a.component_id)
    × (r.kind ≡ a.kind)
    × (r.verified ≡ true)
    × (r.error ≡ "")
    × AllDone actions rs
AllDone _ _ = ⊥

abbrev pub has_unverified : List TransactionAction → Bool
has_unverified [] = false
has_unverified (r ∷ rs) = not r.verified || has_unverified rs

-- The transaction failed, and a record shows it; or it has the status `s` and all is done.
abbrev pub IsVerdict : TransactionStatus → List PlanAction → Transaction → Type 0
IsVerdict s actions tx =
    ((tx.status ≡ TransactionStatus.failed) × (has_unverified tx.actions ≡ true))
    ⊎ ((tx.status ≡ s) × AllDone actions tx.actions)

AllDone-snoc :
    (actions : List PlanAction) (rs : List TransactionAction) (a : PlanAction)
    (r : TransactionAction)
    → AllDone actions rs
    → (r.component_id ≡ a.component_id) × (r.kind ≡ a.kind) × (r.verified ≡ true) × (r.error ≡ "")
    → AllDone (actions ++ a ∷ []) (rs ++ r ∷ [])
AllDone-snoc [] [] a r h g = (g.0, g.1, g.2, g.3, tt)
AllDone-snoc [] (x ∷ rs) a r h g = absurd h
AllDone-snoc (b ∷ actions) [] a r h g = absurd h
AllDone-snoc (b ∷ actions) (x ∷ rs) a r h g =
    (h.0, h.1, h.2, h.3, AllDone-snoc actions rs a r h.4 g)

has_unverified-snoc :
    (rs : List TransactionAction) (r : TransactionAction)
    → has_unverified (rs ++ r ∷ []) ≡ (has_unverified rs || not r.verified)
has_unverified-snoc [] r = ground arith
has_unverified-snoc (x ∷ rs) r = ground (arith, has_unverified-snoc rs r)

module _ {W : Type 0} (e : Engine W) where
  settle-IsVerdict :
      (dry_run : Bool) (s : TransactionStatus) (done : List PlanAction) (action : PlanAction)
      (p : Progress W)
      → IsVerdict s done p.tx
      → IsVerdict s
          (done ++ action ∷ [])
          (settle e (action_step e dry_run p.failed action p.world) p).tx
  unfolding settle
  settle-IsVerdict dry_run s done action p h =
      let step = action_step e dry_run p.failed action p.world in
      let ok = action_step-IsStep e dry_run p.failed action p.world in
      let more = has_unverified-snoc p.tx.actions step.entry in
      elim (Bool-cases step.has_failed) [
        | inl f ↦ inl (ground (arith, f), ground (arith, more, ok.verified_lem, f))
        | inr t ↦ elim h [
          | inl (failed, bad) ↦ inl (ground (arith, t, failed), ground (arith, more, bad))
          | inr (same, all) ↦ inr (
            ground (arith, t, same),
            AllDone-snoc done p.tx.actions action step.entry all
                (ok.about, ok.alike, ground (arith, ok.verified_lem, t), ok.silent t),
          )
        ]
      ]

  published-IsVerdict :
      (s : TransactionStatus) (done : List PlanAction) (p : Progress W) (o : Option String × W)
      → IsVerdict s done p.tx
      → (published e p o).1 ≡ true
      → IsVerdict s done (published e p o).0.tx
  unfolding published
  published-IsVerdict s done p (none, w) h t = h
  published-IsVerdict s done p (some message, w) h t = cc

  journal_failed-IsVerdict :
      (s : TransactionStatus) (done : List PlanAction) (tx : Transaction) (message : String) (w : W)
      → IsVerdict s done (journal_failed e tx message w)
  unfolding journal_failure_action
  journal_failed-IsVerdict s done tx message w = inl (
    refl,
    ground (arith, has_unverified-snoc tx.actions (journal_failure_action (e.now w) message)),
  )

  broken-IsVerdict :
      (s : TransactionStatus) (done : List PlanAction) (p : Progress W) (o : Option String × W)
      → (published e p o).1 ≡ false
      → IsVerdict s done (published e p o).0.tx
  unfolding published
  broken-IsVerdict s done p (none, w) f = cc
  broken-IsVerdict s done p (some message, w) f = journal_failed-IsVerdict s done p.tx message w

  apply_each-IsVerdict :
      (options : ApplyOptions W) (s : TransactionStatus) (done actions : List PlanAction)
      (p : Progress W)
      → IsVerdict s done p.tx
      → IsVerdict s (done ++ actions) (apply_each e options actions p).tx
  unfolding apply_each checkpoint
  apply_each-IsVerdict options s done [] p h =
      subst (λ l. IsVerdict s l p.tx) (sym (append-nil done)) h
  apply_each-IsVerdict options s done (action ∷ actions) p h =
      let q = settle e (action_step e options.dry_run p.failed action p.world) p in
      let k = settle-IsVerdict options.dry_run s done action p h in
      let o = publish options.on_update q.tx q.world in
      continue_with-keeps e (λ r. IsVerdict s (done ++ action ∷ actions) r.tx)
        (apply_each e options actions) (published e q o)
        (λ f. broken-IsVerdict s (done ++ action ∷ actions) q o f)
        (λ t.
          subst (λ l. IsVerdict s l (apply_each e options actions (published e q o).0).tx)
            (append_assoc done (action ∷ []) actions)
            (apply_each-IsVerdict options s (done ++ action ∷ []) actions (published e q o).0
              (published-IsVerdict s (done ++ action ∷ []) q o k t)))

  close_journal-IsVerdict :
      (s : TransactionStatus) (done : List PlanAction) (tx : Transaction) (o : Option String × W)
      → IsVerdict s done tx
      → IsVerdict s done (close_journal e tx o).0
  unfolding close_journal
  close_journal-IsVerdict s done tx (none, w) h = h
  close_journal-IsVerdict s done tx (some message, w) h =
      journal_failed-IsVerdict s done tx message w

  complete-IsVerdict :
      (s : TransactionStatus) (done : List PlanAction) (tx : Transaction) (now : ℕ)
      → IsVerdict s done tx
      → IsVerdict
          (complete e s)
          done
          (record tx { status = complete e tx.status; finished_at = now })
  unfolding complete
  complete-IsVerdict s done tx now (inl (f, bad)) = inl (rw f refl, bad)
  complete-IsVerdict s done tx now (inr (same, all)) = inr (ap (complete e) same, all)

  abbrev started : ApplyOptions W → TransactionStatus
  started options = if options.dry_run then TransactionStatus.planned else TransactionStatus.running

  apply_published-IsVerdict :
      (options : ApplyOptions W) (actions : List PlanAction) (tx : Transaction)
      (o : Option String × W)
      → tx.actions ≡ []
      → tx.status ≡ started options
      → IsVerdict (complete e (started options)) actions (apply_published e options actions tx o).0
  unfolding apply_published conclude_apply
  apply_published-IsVerdict options actions tx (none, w) n same =
      let p = apply_each e options actions (record { tx = tx; failed = []; world = w }) in
      close_journal-IsVerdict _ actions _ _ (
        complete-IsVerdict (started options) actions p.tx (e.now p.world)
          (apply_each-IsVerdict options (started options) [] actions _ (inr (same, rw n tt))))
  apply_published-IsVerdict options actions tx (some message, w) n same =
      journal_failed-IsVerdict _ actions tx message w

  -- An applied plan has failed, and a record of its journal is not verified; or it has succeeded, or
  -- is planned if the run was dry, and its journal has one verified record without an error for
  -- each action of the plan, in the plan's order, and no other.
  pub apply-IsVerdict :
      (plan : Plan) (options : ApplyOptions W) (w : W)
      → IsVerdict
          (if options.dry_run then TransactionStatus.planned else TransactionStatus.succeeded)
          plan.actions
          (apply e plan options w).0
  unfolding apply complete
  apply-IsVerdict plan options w =
      let tx = new_transaction e options w in
      subst (λ s. IsVerdict s plan.actions (apply e plan options w).0) (ground arith)
        (apply_published-IsVerdict options plan.actions tx (publish options.on_update tx w) refl
          refl)
