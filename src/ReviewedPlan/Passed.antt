-- ===== src/ReviewedPlan/Passed.antt =====
-- internal/reviewedplan/executor.go: the way of an authorized request through the guards.
use Prim.Native.String.{String}
use text.Mathlib.TextEquality.{eq_iff}
use agent_stack_manager.Prelude.{◌∙◌, ◌≡◌, refl, ap, true, Option, none, Result, ok, arith}
use agent_stack_manager.Model.{Inventory}
use agent_stack_manager.ReviewedPlan.Executor.{
  Request, Executor, plan_digest, inventory_digest, check_plan, check_inventory, execute,
  execute_leased, close_after, check_saved, check_current, keep_lease, consume, apply_plan, emit,
  is_ok_with,
}
use agent_stack_manager.ReviewedPlan.Authorized.{Authorized}

module _ {W : Type 0} (e : Executor W) (request : Request) (w : W)
    (a : Authorized e request w) where
  abbrev loaded_in : W
  loaded_in = emit e request.plan_id a.acquired

  is_ok_with-ok :
      (digest : String) (r : Result String String) → r ≡ ok digest → is_ok_with digest r ≡ true
  is_ok_with-ok digest r h = rw h ((eq_iff digest digest).1 refl)

  check_plan-ok : check_plan e request a.saved.plan (e.now loaded_in) ≡ ok tt
  unfolding check_plan
  check_plan-ok =
      let id = (eq_iff a.saved.plan.id request.plan_id).1 a.same_id in
      let same = (eq_iff request.digest a.saved.plan.digest).1 a.same_digest in
      let unchanged =
        is_ok_with-ok a.saved.plan.digest (plan_digest e.digests a.saved.plan) a.unchanged in
      let catalog =
        is_ok_with-ok a.saved.plan.catalog_hash (e.digests.catalog_digest e.catalog)
          a.same_catalog in
      let given = eq_iff request.digest "" in
      let timely = a.unexpired in
      ground (arith, id, same, unchanged, catalog, given, a.digest_given, timely)

  check_inventory-ok : check_inventory e a.saved.plan a.current ≡ ok tt
  unfolding check_inventory
  check_inventory-ok =
      let same =
        is_ok_with-ok a.saved.plan.inventory_hash (inventory_digest e.digests a.current)
          a.same_inventory in
      ground (arith, same)

  keep_lease-applies :
      (o : Option String × W)
      → o ≡ (none, a.touched)
      → keep_lease e request a.lease a.saved o ≡ apply_plan e a.lease a.saved a.removed
  unfolding keep_lease consume
  keep_lease-applies o h =
      ap (keep_lease e request a.lease a.saved) h
      ∙ ap (consume e request a.lease a.saved) a.removal_ok

  check_current-applies :
      (o : Result String Inventory × W)
      → o ≡ (ok a.current, a.taken)
      → check_current e request a.lease a.saved o ≡ apply_plan e a.lease a.saved a.removed
  unfolding check_current
  check_current-applies o h =
      ap (check_current e request a.lease a.saved) h
      ∙ ground (arith, check_inventory-ok)
      ∙ keep_lease-applies (e.leases.touch a.lease a.taken) a.touch_ok

  check_saved-applies :
      check_saved e request a.lease a.saved loaded_in ≡ apply_plan e a.lease a.saved a.removed
  unfolding check_saved
  check_saved-applies =
      let inner = check_current-applies (a.load loaded_in) a.take_ok in
      ground (arith, check_plan-ok, a.has_inventory, inner)

  execute_leased-applies :
      execute_leased e request a.lease a.acquired ≡ apply_plan e a.lease a.saved a.removed
  unfolding execute_leased
  execute_leased-applies = ground (arith, a.load_ok, check_saved-applies)

-- All guards are passed.
pub execute-eq-apply_plan :
    {W : Type 0} (e : Executor W) (request : Request) (w : W) (a : Authorized e request w)
    → let r = apply_plan e a.lease a.saved a.removed in
      execute e request w ≡ (r.0, e.leases.close a.lease r.1)
unfolding execute close_after
execute-eq-apply_plan e request w a =
    ground (arith, a.confirmed)
    ∙ ap (close_after e request) a.acquire_ok
    ∙ ap (λ r. (r.0, e.leases.close a.lease r.1)) (execute_leased-applies e request w a)
