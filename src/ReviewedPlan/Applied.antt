-- ===== src/ReviewedPlan/Applied.antt =====
-- internal/reviewedplan/executor.go: what `Execute` does once a request is authorized.
use Prim.Native.String.{String}
use agent_stack_manager.Prelude.{
  ◌≡◌, refl, ap, sym, subst, ◌⊎◌, inl, inr, true, false, Option, none, some, Option-cases, arith,
  ◌∙◌,
}
use agent_stack_manager.Model.{Transaction, TransactionStatus}
use agent_stack_manager.Runner.Engine.{ApplyOptions}
use agent_stack_manager.Runner.Apply.{apply}
use agent_stack_manager.Runner.Status.{AllDone, has_unverified, IsVerdict, apply-IsVerdict}
use agent_stack_manager.State.Store.{SavedPlan, save_transaction}
use agent_stack_manager.ReviewedPlan.Executor.{
  Request, Executor, Execution, ExecuteError, other, installations_failed, execute, apply_plan,
  options_of, save_touched, finish_saved, finish_recorded, report,
}
use agent_stack_manager.ReviewedPlan.Authorized.{Authorized}
use agent_stack_manager.ReviewedPlan.Passed.{execute-eq-apply_plan}

module _ {W : Type 0} (e : Executor W) (lease : e.leases.Lease) (saved : SavedPlan) where
  -- The journal's callback: a transaction is saved if the lease could be touched.
  abbrev save_under_lease : Transaction → W → Option String × W
  save_under_lease tx w =
      let t = e.leases.touch lease w in
      elim t.0 [ some message ↦ (some message, t.1) | none ↦ save_transaction e.store tx t.1 ]

  -- A real run, under the id of the plan.
  abbrev pub real_run : ApplyOptions W
  real_run = record {
    dry_run = false;
    correlation_id = saved.plan.id;
    on_update = some save_under_lease;
  }

  -- The installations are recorded, if there is a record of them, once the transaction is saved.
  abbrev recorded : Transaction → Option String × W → Option String × W
  recorded tx o = elim o.0 [
    | some message ↦ o
    | none ↦ elim e.record_successful_installs [
      | none ↦ o
      | some record_installs ↦ record_installs saved.plan tx o.1
    ]
  ]

  -- What is returned when the last write has gone as `written` says: its error; or the transaction
  -- has failed and shows a record that is not verified; or it has succeeded, all its records are
  -- verified, one for each action in the plan's order, and there is no error.
  abbrev IsOutcome : Transaction → Option String → Option ExecuteError → Type 0
  IsOutcome tx written error =
      ((message : String) × (written ≡ some message) × (error ≡ some (other message)))
      ⊎ ((written ≡ none)
          × (tx.status ≡ TransactionStatus.failed)
          × (has_unverified tx.actions ≡ true)
          × (error ≡ some (installations_failed tx.id)))
      ⊎ ((written ≡ none)
          × (tx.status ≡ TransactionStatus.succeeded)
          × AllDone saved.plan.actions tx.actions
          × (error ≡ none))

  -- The plan is applied once, in a real run from the machine `before`; then the transaction is saved
  -- and the installations are recorded; then the lease is closed.
  pub record Applied (before : W) (out : Execution × W) : Type 0 where
    pub transaction : Transaction
    pub ran : W
    pub written : Option String
    pub finished : W
    pub run_ok : apply e.installer saved.plan real_run before ≡ (transaction, ran)
    pub write_ok :
        recorded transaction (save_transaction e.store transaction ran) ≡ (written, finished)
    pub result : out.0.result ≡ some (saved, transaction)
    pub outcome : IsOutcome transaction written out.0.error
    pub machine : out.1 ≡ e.leases.close lease finished

  save_touched-eq :
      (tx : Transaction) (t : Option String × W)
      → save_touched e tx t
        ≡ elim t.0 [ some message ↦ (some message, t.1) | none ↦ save_transaction e.store tx t.1 ]
  unfolding save_touched
  save_touched-eq tx (some message, w) = refl
  save_touched-eq tx (none, w) = refl

  options_of-eq : options_of e lease saved.plan ≡ real_run
  options_of-eq =
      ap (λ call. record { dry_run = false; correlation_id = saved.plan.id; on_update = some call })
        (λ i tx w. save_touched-eq tx (e.leases.touch lease w) i)

  finish_saved-eq :
      (tx : Transaction) (o : Option String × W)
      → finish_saved e saved tx o ≡ finish_recorded e saved tx (recorded tx o)
  unfolding finish_saved finish_recorded
  finish_saved-eq tx (some message, w) = refl
  finish_saved-eq tx (none, w) = elim (Option-cases e.record_successful_installs) [
    | inl unrecorded ↦ ground (arith, unrecorded)
    | inr (record_installs, has) ↦ ground (arith, has)
  ]

  finish_recorded-result :
      (tx : Transaction) (o : Option String × W)
      → (finish_recorded e saved tx o).0.result ≡ some (saved, tx)
  unfolding finish_recorded report
  finish_recorded-result tx (none, w) = refl
  finish_recorded-result tx (some message, w) = refl

  finish_recorded-machine :
      (tx : Transaction) (o : Option String × W) → (finish_recorded e saved tx o).1 ≡ o.1
  unfolding finish_recorded
  finish_recorded-machine tx (none, w) = refl
  finish_recorded-machine tx (some message, w) = refl

  finish_recorded-IsOutcome :
      (tx : Transaction) (o : Option String × W)
      → IsVerdict TransactionStatus.succeeded saved.plan.actions tx
      → IsOutcome tx o.0 (finish_recorded e saved tx o).0.error
  unfolding finish_recorded report
  finish_recorded-IsOutcome tx (some message, w) v = inl (message, refl, refl)
  finish_recorded-IsOutcome tx (none, w) (inl (failed, bad)) =
      inr (inl (refl, failed, bad, ground (arith, failed)))
  finish_recorded-IsOutcome tx (none, w) (inr (succeeded, all)) =
      inr (inr (refl, succeeded, all, ground (arith, succeeded)))

  apply_plan-eq :
      (before : W)
      → let a = apply e.installer saved.plan real_run before in
        apply_plan e lease saved before
        ≡ finish_recorded e saved a.0 (recorded a.0 (save_transaction e.store a.0 a.1))
  unfolding apply_plan
  apply_plan-eq before =
      ap
        (λ options.
          let a = apply e.installer saved.plan options before in
          finish_saved e saved a.0 (save_transaction e.store a.0 a.1))
        options_of-eq
      ∙ (let a = apply e.installer saved.plan real_run before in
          finish_saved-eq a.0 (save_transaction e.store a.0 a.1))

  apply_plan-Applied :
      (before : W)
      → let r = apply_plan e lease saved before in Applied before (r.0, e.leases.close lease r.1)
  apply_plan-Applied before =
      let a = apply e.installer saved.plan real_run before in
      let o = recorded a.0 (save_transaction e.store a.0 a.1) in
      subst (λ r. Applied before (r.0, e.leases.close lease r.1)) (sym (apply_plan-eq before))
        (record {
          transaction = a.0;
          ran = a.1;
          written = o.0;
          finished = o.1;
          run_ok = refl;
          write_ok = refl;
          result = finish_recorded-result a.0 o;
          outcome =
              finish_recorded-IsOutcome a.0 o
                (apply-IsVerdict e.installer saved.plan real_run before);
          machine = ap (e.leases.close lease) (finish_recorded-machine a.0 o);
        })

-- An execution of an authorized request applies the plan that the store had for it once, in a run
-- that is not dry and saves each state of the transaction if the lease can be touched; then it
-- saves the transaction, records the installations and closes the lease. It returns the plan with
-- the transaction of that run, and no error exactly if the last write has gone well and the
-- transaction has succeeded, with one verified record for each action, in the plan's order.
pub execute-Applied :
    {W : Type 0} (e : Executor W) (request : Request) (w : W) (a : Authorized e request w)
    → Applied e a.lease a.saved a.removed (execute e request w)
execute-Applied e request w a =
    subst (Applied e a.lease a.saved a.removed) (sym (execute-eq-apply_plan e request w a))
      (apply_plan-Applied e a.lease a.saved a.removed)
