-- ===== src/ReviewedPlan/Gone.antt =====
-- internal/reviewedplan/executor.go: which calls of `Execute` leave the files of plans that are gone.
use Prim.Native.String.{String}
use agent_stack_manager.Prelude.{
  ℕ, ◌≡◌, refl, sym, subst, inl, inr, Option, none, some, ok, Result, Option-cases, Bool-cases,
  arith,
}
use agent_stack_manager.Prelude.Text.{Text}
use agent_stack_manager.Model.{Component, Inventory, Plan, PlanAction, Transaction}
use agent_stack_manager.Runner.Invocations.{Invocation, CommandResult}
use agent_stack_manager.Runner.Engine.{VerificationResult}
use agent_stack_manager.Runner.Apply.{apply}
use agent_stack_manager.Runner.Effects.{Permits, apply-keeps}
use agent_stack_manager.State.Store.{
  removed, not_exist, SavedPlan, safe_name, valid_record_id, delete_plan, save_transaction,
  minimized_transaction,
}
use agent_stack_manager.ReviewedPlan.Executor.{
  Request, Executor, execute, apply_plan, emit, options_of, save_touched, finish_saved,
  finish_recorded, ttl_of,
}
use agent_stack_manager.ReviewedPlan.Authorized.{Authorized, Harmless, execute-Authorized}
use agent_stack_manager.ReviewedPlan.Passed.{execute-eq-apply_plan}

-- No file of that name can be read in the directory of plans.
abbrev pub IsGone : {W : Type 0} → Executor W → Text → W → Type 0
IsGone e name w = (saved : SavedPlan) → ¬ (e.store.files.read_plan name w ≡ ok saved)

-- The name of the file that keeps the plan with the id.
abbrev pub file_of : {W : Type 0} → Executor W → String → Text
file_of e id = safe_name e.store.lower id

-- A file that `os.Remove` has removed, or has not found, cannot be read; and no call that the
-- executor makes brings the file back: not the removal of a plan or the writing of a transaction,
-- not the lease, the log, the inventory, the record of installations, nor a command, the skill
-- installer, the refresh of the path or the verifier.
pub record Forgets {W : Type 0} (e : Executor W) (name : Text) : Type 0 where
  pub removes :
      (w : W)
      → (e.store.files.remove_plan name w).0 ≡ removed
      → IsGone e name (e.store.files.remove_plan name w).1
  pub misses :
      (w : W)
      → (e.store.files.remove_plan name w).0 ≡ not_exist
      → IsGone e name (e.store.files.remove_plan name w).1
  pub removes_others :
      (other : Text) (w : W) → IsGone e name w → IsGone e name (e.store.files.remove_plan other w).1
  pub writes :
      (other : Text) (tx : Transaction) (w : W)
      → IsGone e name w
      → IsGone e name (e.store.files.write_transaction other tx w).1
  pub acquires : (ttl : ℕ) (w : W) → IsGone e name w → IsGone e name (e.leases.acquire ttl w).1
  pub touches :
      (lease : e.leases.Lease) (w : W) → IsGone e name w → IsGone e name (e.leases.touch lease w).1
  pub closes :
      (lease : e.leases.Lease) (w : W) → IsGone e name w → IsGone e name (e.leases.close lease w)
  pub logs :
      (log : String → W → W) (id : String) (w : W)
      → e.log_event ≡ some log
      → IsGone e name w
      → IsGone e name (log id w)
  pub takes :
      (load : W → Result String Inventory × W) (w : W)
      → e.inventory ≡ some load
      → IsGone e name w
      → IsGone e name (load w).1
  pub records :
      (record_installs : Plan → Transaction → W → Option String × W) (plan : Plan)
      (tx : Transaction) (w : W)
      → e.record_successful_installs ≡ some record_installs
      → IsGone e name w
      → IsGone e name (record_installs plan tx w).1
  pub runs : (i : Invocation) (w : W) → IsGone e name w → IsGone e name (e.installer.commands i w).1
  pub installs_skill :
      (install : Component → W → CommandResult × W) (k : Component) (w : W)
      → e.installer.skills ≡ some install
      → IsGone e name w
      → IsGone e name (install k w).1
  pub refreshes : (w : W) → IsGone e name w → IsGone e name (e.installer.path w).1
  pub verifies :
      (verify : Component → PlanAction → CommandResult → W → VerificationResult × W) (k : Component)
      (a : PlanAction) (result : CommandResult) (w : W)
      → e.installer.verifier ≡ some verify
      → IsGone e name w
      → IsGone e name (verify k a result w).1

module _ {W : Type 0} (e : Executor W) (name : Text) (forgets : Forgets e name) where
  pub moved :
      {A : Type 0} {o : A × W} {a : A} {w : W} → o ≡ (a, w) → IsGone e name o.1 → IsGone e name w
  moved same h = subst (λ o. IsGone e name o.1) same h

  pub held : {x y : W} → y ≡ x → IsGone e name x → IsGone e name y
  held same h = subst (IsGone e name) (sym same) h

  save_transaction-forgets :
      (tx : Transaction) (w : W) → IsGone e name w → IsGone e name (save_transaction e.store tx w).1
  unfolding save_transaction
  save_transaction-forgets tx w h = elim (Bool-cases (valid_record_id tx.id)) [
    | inr invalid ↦ held (ground (arith, invalid)) h
    | inl valid ↦ held (ground (arith, valid)) (
        forgets.writes (safe_name e.store.lower tx.id) (minimized_transaction e.store.redact tx) w
          h)
  ]

  pub delete_plan-forgets :
      (id : String) (w : W) → IsGone e name w → IsGone e name (delete_plan e.store id w).1
  unfolding delete_plan
  delete_plan-forgets id w h = elim (Bool-cases (valid_record_id id)) [
    | inr invalid ↦ held (ground (arith, invalid)) h
    | inl valid ↦
        held (ground (arith, valid)) (forgets.removes_others (safe_name e.store.lower id) w h)
  ]

  pub emit-forgets : (id : String) (w : W) → IsGone e name w → IsGone e name (emit e id w)
  unfolding emit
  emit-forgets id w h = elim (Option-cases e.log_event) [
    | inl silent ↦ held (ground (arith, silent)) h
    | inr (log, has) ↦ held (ground (arith, has)) (forgets.logs log id w has h)
  ]

  gone-Harmless : Harmless e (IsGone e name)
  gone-Harmless = record {
    acquires = forgets.acquires;
    touches = forgets.touches;
    closes = forgets.closes;
    logs = forgets.logs;
    takes = forgets.takes;
    refuses = λ id message w r h. delete_plan-forgets id w h;
  }

  save_touched-forgets :
      (tx : Transaction) (o : Option String × W)
      → IsGone e name o.1
      → IsGone e name (save_touched e tx o).1
  unfolding save_touched
  save_touched-forgets tx (some message, w) h = h
  save_touched-forgets tx (none, w) h = save_transaction-forgets tx w h

  apply_permits :
      (lease : e.leases.Lease) (plan : Plan)
      → Permits e.installer (options_of e lease plan) plan.actions (IsGone e name)
  apply_permits lease plan = record {
    journals = λ callback tx w has h.
        subst (λ o. elim o [ none ↦ Unit | some call ↦ IsGone e name (call tx w).1 ]) has
          (save_touched-forgets tx (e.leases.touch lease w) (forgets.touches lease w h));
    runs = λ a i w wet m k c h. forgets.runs i w h;
    installs_skill = λ install k w wet has h. forgets.installs_skill install k w has h;
    refreshes = λ w wet h. forgets.refreshes w h;
    verifies = λ verify k a result w wet has h. forgets.verifies verify k a result w has h;
  }

  finish_recorded-world :
      (saved : SavedPlan) (tx : Transaction) (o : Option String × W)
      → (finish_recorded e saved tx o).1 ≡ o.1
  unfolding finish_recorded
  finish_recorded-world saved tx (none, w) = refl
  finish_recorded-world saved tx (some message, w) = refl

  finish_saved-forgets :
      (saved : SavedPlan) (tx : Transaction) (o : Option String × W)
      → IsGone e name o.1
      → IsGone e name (finish_saved e saved tx o).1
  unfolding finish_saved
  finish_saved-forgets saved tx (some message, w) h = h
  finish_saved-forgets saved tx (none, w) h = elim (Option-cases e.record_successful_installs) [
    | inl unrecorded ↦
        subst (IsGone e name) (ground (arith, unrecorded, finish_recorded-world saved tx (none, w)))
          h
    | inr (record_installs, has) ↦
        subst (IsGone e name)
          (ground (arith, has, finish_recorded-world saved tx (record_installs saved.plan tx w)))
          (forgets.records record_installs saved.plan tx w has h)
  ]

  apply_plan-forgets :
      (lease : e.leases.Lease) (saved : SavedPlan) (w : W)
      → IsGone e name w
      → IsGone e name (apply_plan e lease saved w).1
  unfolding apply_plan
  apply_plan-forgets lease saved w h =
      let options = options_of e lease saved.plan in
      let a = apply e.installer saved.plan options w in
      finish_saved-forgets saved a.0 (save_transaction e.store a.0 a.1) (
        save_transaction-forgets a.0 a.1 (
          apply-keeps e.installer saved.plan options (IsGone e name) w
            (apply_permits lease saved.plan) h))

  -- From where the plan is applied to the end.
  pub execute-forgets :
      (request : Request) (w : W) (a : Authorized e request w)
      → IsGone e name a.removed
      → IsGone e name (execute e request w).1
  execute-forgets request w a h =
      subst (λ x. IsGone e name x.1) (sym (execute-eq-apply_plan e request w a))
        (forgets.closes a.lease (apply_plan e a.lease a.saved a.removed).1
          (apply_plan-forgets a.lease a.saved a.removed h))

  -- A file that is gone stays away, whatever is executed.
  pub execute-gone :
      (request : Request) (w : W) → IsGone e name w → IsGone e name (execute e request w).1
  execute-gone request w h = elim (execute-Authorized e request (IsGone e name) w gone-Harmless h) [
    | inr k ↦ k
    | inl a ↦
        let acquired = moved a.acquire_ok (forgets.acquires (ttl_of e.lease_ttl) w h) in
        let logged = emit-forgets request.plan_id a.acquired acquired in
        let taken =
          moved a.take_ok
            (forgets.takes a.load (emit e request.plan_id a.acquired) a.has_inventory logged) in
        let touched = moved a.touch_ok (forgets.touches a.lease a.taken taken) in
        let gone = moved a.removal_ok (delete_plan-forgets request.plan_id a.touched touched) in
        execute-forgets request w a gone
  ]
