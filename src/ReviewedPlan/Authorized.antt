-- ===== src/ReviewedPlan/Authorized.antt =====
-- internal/reviewedplan/executor.go: when `Execute` applies a reviewed plan.
use Prim.Native.String.{String}
use text.Mathlib.TextEquality.{eq_iff}
use agent_stack_manager.Prelude.{
  ℕ, ◌≡◌, ◌≢◌, refl, ap, sym, subst, ◌⊎◌, inl, inr, ◌≤◌, true, Option, none, some, Result, ok, err,
  Option-cases, Result-cases, Bool-cases, arith,
}
use agent_stack_manager.Model.{Inventory, Plan}
use agent_stack_manager.State.Store.{SavedPlan, load_plan, delete_plan}
use agent_stack_manager.ReviewedPlan.Executor.{
  Request, Executor, plan_digest, inventory_digest, check_plan, check_inventory, execute,
  execute_leased, close_after, check_saved, check_current, keep_lease, consume, emit, ttl_of,
  is_ok_with,
}

-- The request is confirmed; the plan that the store has for it, once the lease is acquired, is the
-- one of the request, unchanged and not expired; the catalog is the one it was made for, and so is
-- the inventory that is then taken; and the plan is removed, under the lease, before it is applied.
pub record Authorized {W : Type 0} (e : Executor W) (request : Request) (start : W) : Type 0 where
  pub confirmed : request.confirmed ≡ true
  pub lease : e.leases.Lease
  pub acquired : W
  pub acquire_ok : e.leases.acquire (ttl_of e.lease_ttl) start ≡ (ok lease, acquired)
  pub saved : SavedPlan
  pub load_ok : load_plan e.store request.plan_id (emit e request.plan_id acquired) ≡ ok saved
  pub same_id : saved.plan.id ≡ request.plan_id
  pub same_digest : request.digest ≡ saved.plan.digest
  pub digest_given : request.digest ≢ ""
  pub unchanged : plan_digest e.digests saved.plan ≡ ok saved.plan.digest
  pub unexpired : e.now (emit e request.plan_id acquired) ≤ saved.plan.expires_at
  pub same_catalog : e.digests.catalog_digest e.catalog ≡ ok saved.plan.catalog_hash
  pub load : W → Result String Inventory × W
  pub has_inventory : e.inventory ≡ some load
  pub current : Inventory
  pub taken : W
  pub take_ok : load (emit e request.plan_id acquired) ≡ (ok current, taken)
  pub same_inventory : inventory_digest e.digests current ≡ ok saved.plan.inventory_hash
  pub touched : W
  pub touch_ok : e.leases.touch lease taken ≡ (none, touched)
  pub removed : W
  pub removal_ok : delete_plan e.store request.plan_id touched ≡ (none, removed)

module _ {W : Type 0} (e : Executor W) where
  is_ok_with-eq :
      (digest : String) (r : Result String String) → is_ok_with digest r ≡ true → r ≡ ok digest
  is_ok_with-eq digest (ok computed) h = ap ok ((eq_iff computed digest).0 h)
  is_ok_with-eq digest (err message) h = cc

  check_plan-passed :
      (request : Request) (plan : Plan) (now : ℕ)
      → check_plan e request plan now ≡ ok tt
      → (plan.id ≡ request.plan_id)
        × (request.digest ≡ plan.digest)
        × (request.digest ≢ "")
        × (plan_digest e.digests plan ≡ ok plan.digest)
        × (now ≤ plan.expires_at)
        × (e.digests.catalog_digest e.catalog ≡ ok plan.catalog_hash)
  unfolding check_plan
  check_plan-passed request plan now h = (
    ground (arith, h, eq_iff plan.id request.plan_id),
    ground (arith, h, eq_iff request.digest plan.digest),
    (λ n. ground (arith, h, n, eq_iff request.digest "")),
    ground (arith, h, is_ok_with-eq plan.digest (plan_digest e.digests plan)),
    ground (arith, h),
    ground (arith, h, is_ok_with-eq plan.catalog_hash (e.digests.catalog_digest e.catalog)),
  )

-- `P` survives the lease's calls, the event log, the inventory and a removal that is refused.
pub record Harmless {ℓ} {W : Type 0} (e : Executor W) (P : W → Type ℓ) : Type ℓ where
  pub acquires : (ttl : ℕ) (w : W) → P w → P (e.leases.acquire ttl w).1
  pub touches : (lease : e.leases.Lease) (w : W) → P w → P (e.leases.touch lease w).1
  pub closes : (lease : e.leases.Lease) (w : W) → P w → P (e.leases.close lease w)
  pub logs :
      (log : String → W → W) (id : String) (w : W) → e.log_event ≡ some log → P w → P (log id w)
  pub takes :
      (load : W → Result String Inventory × W) (w : W)
      → e.inventory ≡ some load
      → P w
      → P (load w).1
  pub refuses :
      (id message : String) (w : W)
      → (delete_plan e.store id w).0 ≡ some message
      → P w
      → P (delete_plan e.store id w).1

module _ {ℓ} {W : Type 0} (e : Executor W) (request : Request) (P : W → Type ℓ)
    (safe : Harmless e P) (given : request.confirmed ≡ true) where
  held : {x y : W} → y ≡ x → P x → P y
  held same h = subst P (sym same) h

  module _ (start : W) (lease : e.leases.Lease) (acquired : W)
      (acquire_ok : e.leases.acquire (ttl_of e.lease_ttl) start ≡ (ok lease, acquired)) where
    abbrev logged : W
    logged = emit e request.plan_id acquired

    -- What the checks of the plan have found.
    record Checked (saved : SavedPlan) : Type 0 where
      load_ok : load_plan e.store request.plan_id logged ≡ ok saved
      check_ok : check_plan e request saved.plan (e.now logged) ≡ ok tt
      load : W → Result String Inventory × W
      has_inventory : e.inventory ≡ some load

    -- What the inventory adds.
    record CheckedInventory (saved : SavedPlan) (c : Checked saved) : Type 0 where
      current : Inventory
      taken : W
      take_ok : c.load logged ≡ (ok current, taken)
      check_ok : check_inventory e saved.plan current ≡ ok tt

    Checked-Authorized :
        (saved : SavedPlan) (c : Checked saved) (i : CheckedInventory saved c) (touched removed : W)
        → e.leases.touch lease i.taken ≡ (none, touched)
        → delete_plan e.store request.plan_id touched ≡ (none, removed)
        → Authorized e request start
    unfolding check_inventory
    Checked-Authorized saved c i touched removed t d =
        let p = check_plan-passed e request saved.plan (e.now logged) c.check_ok in
        record {
          confirmed = given;
          lease = lease;
          acquired = acquired;
          acquire_ok = acquire_ok;
          saved = saved;
          load_ok = c.load_ok;
          same_id = p.0;
          same_digest = p.1;
          digest_given = p.2;
          unchanged = p.3;
          unexpired = p.4;
          same_catalog = p.5;
          load = c.load;
          has_inventory = c.has_inventory;
          current = i.current;
          taken = i.taken;
          take_ok = i.take_ok;
          same_inventory =
              is_ok_with-eq e saved.plan.inventory_hash (inventory_digest e.digests i.current)
                (ground (arith, i.check_ok));
          touched = touched;
          touch_ok = t;
          removed = removed;
          removal_ok = d;
        }

    consume-safe :
        (saved : SavedPlan) (c : Checked saved) (i : CheckedInventory saved c) (touched : W)
        (o : Option String × W)
        → e.leases.touch lease i.taken ≡ (none, touched)
        → delete_plan e.store request.plan_id touched ≡ o
        → P touched
        → Authorized e request start ⊎ P (consume e request lease saved o).1
    unfolding consume
    consume-safe saved c i touched (none, w) t d h =
        inl (Checked-Authorized saved c i touched w t d)
    consume-safe saved c i touched (some message, w) t d h = inr (
        subst P (ap (λ o. o.1) d)
          (safe.refuses request.plan_id message touched (ap (λ o. o.0) d) h))

    keep_lease-safe :
        (saved : SavedPlan) (c : Checked saved) (i : CheckedInventory saved c)
        (o : Option String × W)
        → e.leases.touch lease i.taken ≡ o
        → P o.1
        → Authorized e request start ⊎ P (keep_lease e request lease saved o).1
    unfolding keep_lease
    keep_lease-safe saved c i (some message, w) t h = inr h
    keep_lease-safe saved c i (none, w) t h =
        consume-safe saved c i w (delete_plan e.store request.plan_id w) t refl h

    check_current-safe :
        (saved : SavedPlan) (c : Checked saved) (o : Result String Inventory × W)
        → c.load logged ≡ o
        → P o.1
        → Authorized e request start ⊎ P (check_current e request lease saved o).1
    unfolding check_current
    check_current-safe saved c (err message, w) t h = inr h
    check_current-safe saved c (ok current, w) t h =
        elim (Result-cases (check_inventory e saved.plan current)) [
          | inr (x, differs) ↦ inr (held (ground (arith, differs)) h)
          | inl (u, same) ↦
              subst (λ v. Authorized e request start ⊎ P v) (ground (arith, same))
                (keep_lease-safe saved c
                  (record { current = current; taken = w; take_ok = t; check_ok = same })
                  (e.leases.touch lease w) refl (safe.touches lease w h))
        ]

    check_saved-safe :
        (saved : SavedPlan)
        → load_plan e.store request.plan_id logged ≡ ok saved
        → P logged
        → Authorized e request start ⊎ P (check_saved e request lease saved logged).1
    unfolding check_saved
    check_saved-safe saved loaded h =
        elim (Result-cases (check_plan e request saved.plan (e.now logged))) [
          | inr (x, differs) ↦ inr (held (ground (arith, differs)) h)
          | inl (u, same) ↦ elim (Option-cases e.inventory) [
            | inl missing ↦ inr (held (ground (arith, same, missing)) h)
            | inr (load, has) ↦
                subst (λ v. Authorized e request start ⊎ P v) (ground (arith, same, has))
                  (check_current-safe saved
                    (record { load_ok = loaded; check_ok = same; load = load; has_inventory = has })
                    (load logged) refl (safe.takes load logged has h))
          ]
        ]

    emit-safe : P acquired → P logged
    unfolding emit
    emit-safe h = elim (Option-cases e.log_event) [
      | inl silent ↦ held (ground (arith, silent)) h
      | inr (log, has) ↦ held (ground (arith, has)) (safe.logs log request.plan_id acquired has h)
    ]

    execute_leased-safe :
        P acquired → Authorized e request start ⊎ P (execute_leased e request lease acquired).1
    unfolding execute_leased
    execute_leased-safe h = elim (Result-cases (load_plan e.store request.plan_id logged)) [
      | inr (message, missing) ↦ inr (held (ground (arith, missing)) (emit-safe h))
      | inl (saved, loaded) ↦
          subst (λ v. Authorized e request start ⊎ P v) (ground (arith, loaded))
            (check_saved-safe saved loaded (emit-safe h))
    ]

  close_after-safe :
      (start : W) (o : Result String e.leases.Lease × W)
      → e.leases.acquire (ttl_of e.lease_ttl) start ≡ o
      → P o.1
      → Authorized e request start ⊎ P (close_after e request o).1
  unfolding close_after
  close_after-safe start (err message, w) a h = inr h
  close_after-safe start (ok lease, w) a h = elim (execute_leased-safe start lease w a h) [
    | inl k ↦ inl k
    | inr k ↦ inr (safe.closes lease _ k)
  ]

-- An execution applies nothing unless the request is authorized: it is confirmed, and the plan that
-- the store has under its id is the reviewed one, unchanged and not expired, made for the catalog
-- and for the inventory just taken, and removed under the lease. Without that, the execution
-- changes the machine by nothing but the calls of the lease, the event log, the inventory and a
-- refused removal: what these keep holds at the end, if it held at the start.
pub execute-Authorized {ℓ} :
    {W : Type 0} (e : Executor W) (request : Request) (P : W → Type ℓ) (w : W)
    → Harmless e P
    → P w
    → Authorized e request w ⊎ P (execute e request w).1
unfolding execute
execute-Authorized e request P w safe h = elim (Bool-cases request.confirmed) [
  | inr refused ↦ inr (subst P (ground (arith, refused)) h)
  | inl given ↦
      subst (λ v. Authorized e request w ⊎ P v) (ground (arith, given))
        (close_after-safe e request P safe given w (e.leases.acquire (ttl_of e.lease_ttl) w) refl
          (safe.acquires (ttl_of e.lease_ttl) w h))
]
