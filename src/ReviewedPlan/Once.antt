-- ===== src/ReviewedPlan/Once.antt =====
-- internal/reviewedplan/executor.go and internal/state/store.go: requests for a plan that was executed.
use Prim.Native.String.{String}
use agent_stack_manager.Prelude.{
  ◌≡◌, refl, sym, ap, inl, inr, none, List, [], ◌∷◌, Bool-cases, arith,
}
use agent_stack_manager.Prelude.Text.{Text}
use agent_stack_manager.State.Store.{
  Removal, removed, not_exist, refused, valid_record_id, load_plan, consumed, delete_plan,
}
use agent_stack_manager.ReviewedPlan.Executor.{Request, Executor, execute, ttl_of}
use agent_stack_manager.ReviewedPlan.Authorized.{Authorized}
use agent_stack_manager.ReviewedPlan.Gone.{
  IsGone, file_of, Forgets, moved, held, emit-forgets, execute-forgets, execute-gone,
}

module _ {W : Type 0} (e : Executor W) (name : Text) (forgets : Forgets e name) where
  -- A request for the plan in that file is not authorized while it is gone.
  gone-not_authorized :
      (request : Request) (w : W)
      → file_of e request.plan_id ≡ name
      → IsGone e name w
      → ¬ Authorized e request w
  unfolding load_plan
  gone-not_authorized request w same h a =
      let acquired =
        moved e name forgets a.acquire_ok (forgets.acquires (ttl_of e.lease_ttl) w h) in
      let logged = emit-forgets e name forgets request.plan_id a.acquired acquired in
      elim (Bool-cases (valid_record_id request.plan_id)) [
        | inr invalid ↦ absurd (ground (arith, invalid, a.load_ok))
        | inl valid ↦ logged a.saved (rw same at (rw valid at a.load_ok))
      ]

  removal_gone :
      (w after : W) (o : Removal × W)
      → e.store.files.remove_plan name w ≡ o
      → consumed e.store o ≡ (none, after)
      → IsGone e name after
  removal_gone w after (removed, t) r h =
      held e name forgets (sym (ap (λ o. o.1) h))
        (moved e name forgets r (forgets.removes w (ap (λ o. o.0) r)))
  removal_gone w after (not_exist, t) r h =
      held e name forgets (sym (ap (λ o. o.1) h))
        (moved e name forgets r (forgets.misses w (ap (λ o. o.0) r)))
  removal_gone w after (refused message, t) r h = absurd (cc)

  delete_plan-gone :
      (id : String) (w after : W)
      → file_of e id ≡ name
      → delete_plan e.store id w ≡ (none, after)
      → IsGone e name after
  unfolding delete_plan
  delete_plan-gone id w after same h = elim (Bool-cases (valid_record_id id)) [
    | inr invalid ↦ absurd (ground (arith, invalid, h))
    | inl valid ↦
        removal_gone w after (e.store.files.remove_plan name w) refl (rw same at (rw valid at h))
  ]

-- Any executions, one after the other.
abbrev pub execute_all : {W : Type 0} → Executor W → List Request → W → W
execute_all e [] w = w
execute_all e (request ∷ requests) w = execute_all e requests (execute e request w).1

execute_all-gone :
    {W : Type 0} (e : Executor W) (name : Text) (forgets : Forgets e name) (requests : List Request)
    (w : W)
    → IsGone e name w
    → IsGone e name (execute_all e requests w)
execute_all-gone e name forgets [] w h = h
execute_all-gone e name forgets (request ∷ requests) w h =
    execute_all-gone e name forgets requests (execute e request w).1
      (execute-gone e name forgets request w h)

-- If a plan's file that the operating system has removed, or has not found, stays away until it is
-- written again, which no call of the executor does: once a request was authorized and executed, no
-- request for the plan in that file is authorized again, whatever requests are executed in between.
-- So a reviewed plan is applied at most once, whatever its actions did and however they ended.
pub execute_once :
    {W : Type 0} (e : Executor W) (request : Request) (w : W)
    → Forgets e (file_of e request.plan_id)
    → Authorized e request w
    → (later : List Request) (again : Request) → file_of e again.plan_id ≡ file_of e request.plan_id
    → ¬ Authorized e again (execute_all e later (execute e request w).1)
execute_once e request w forgets a later again same =
    let name = file_of e request.plan_id in
    let gone =
      delete_plan-gone e name forgets request.plan_id a.touched a.removed refl a.removal_ok in
    let left = execute-forgets e name forgets request w a gone in
    gone-not_authorized e name forgets again (execute_all e later (execute e request w).1) same
      (execute_all-gone e name forgets later (execute e request w).1 left)
