-- ===== src/ReviewedPlan/Executor.antt =====
-- internal/reviewedplan/executor.go: `Executor.Execute`, and the digests of
-- internal/planner/planner.go. The machine, with all files, is a state of type `W`.
use Prim.Native.String.{String}
use text.Mathlib.Text.{◌==◌}
use agent_stack_manager.Prelude.{
  ℕ, suc, zero, Bool, false, ◌&&◌, Option, none, some, [], Result, ok, err, ◌>>◌, ensure, not, ltb,
  if◌then◌else◌, ℤ, pos, negsuc,
}
use agent_stack_manager.Model.{Catalog, Inventory, Plan, Transaction, TransactionStatus}
use agent_stack_manager.Runner.Engine.{Engine, ApplyOptions}
use agent_stack_manager.Runner.Apply.{apply}
use agent_stack_manager.State.Store.{Store, SavedPlan, load_plan, delete_plan, save_transaction}

pub record Request : Type 0 where
  pub plan_id : String
  pub digest : String
  pub confirmed : Bool

pub data ExecuteError : Type 0 where
  confirmation_required plan_stale plan_mismatch inventory_unavailable : ExecuteError
  not_consumed : String → ExecuteError
  installations_failed : String → ExecuteError
  other : String → ExecuteError

-- Go's `Result` with its error.
pub record Execution : Type 0 where
  pub result : Option (SavedPlan × Transaction)
  pub error : Option ExecuteError

-- `integrity.DigestJSON`, over Go's JSON and SHA-256, at the three types that it is called with.
pub record Digests : Type 0 where
  pub catalog_digest : Catalog → Result String String
  pub plan_json : Plan → Result String String
  pub inventory_json : Inventory → Result String String

unfoldable pub plan_digest : Digests → Plan → Result String String
plan_digest d plan = d.plan_json (record plan { digest = "" })

unfoldable pub inventory_digest : Digests → Inventory → Result String String
inventory_digest d inventory =
    d.inventory_json (record inventory { generated_at = 0; revision = ""; raw_sources = [] })

-- The mutation lease of internal/state/lease.go, as the executor sees it.
pub record Leases (W : Type 0) : Type 1 where
  pub Lease : Type 0
  pub acquire : ℕ → W → Result String Lease × W
  pub touch : Lease → W → Option String × W
  pub close : Lease → W → W

pub record Executor (W : Type 0) : Type 1 where
  pub catalog : Catalog
  pub store : Store W
  pub leases : Leases W
  pub installer : Engine W
  pub digests : Digests
  pub inventory : Option (W → Result String Inventory × W)
  pub record_successful_installs : Option (Plan → Transaction → W → Option String × W)
  pub log_event : Option (String → W → W)
  pub lease_ttl : ℤ
  pub now : W → ℕ

abbrev pub six_hours : ℕ
six_hours = 21600000000000

abbrev pub ttl_of : ℤ → ℕ
ttl_of (pos zero) = six_hours
ttl_of (pos (suc n)) = suc n
ttl_of (negsuc n) = six_hours

abbrev pub stopped : ExecuteError → Execution
stopped e = record { result = none; error = some e }

abbrev pub is_ok_with : String → Result String String → Bool
is_ok_with digest (err message) = false
is_ok_with digest (ok computed) = computed == digest

module _ {W : Type 0} (e : Executor W) where
  -- The checks that need no inventory.
  unfoldable pub check_plan : Request → Plan → ℕ → Result ExecuteError (Unit {0})
  unfolding plan_digest
  check_plan request plan now = do
    ensure (plan.id == request.plan_id) plan_mismatch
    ensure (not (request.digest == "") && request.digest == plan.digest) plan_mismatch
    ensure (is_ok_with plan.digest (plan_digest e.digests plan)) plan_mismatch
    ensure (not (ltb plan.expires_at now)) plan_stale
    ensure (is_ok_with plan.catalog_hash (e.digests.catalog_digest e.catalog)) plan_stale

  unfoldable pub check_inventory : Plan → Inventory → Result ExecuteError (Unit {0})
  unfolding inventory_digest
  check_inventory plan current =
      ensure (is_ok_with plan.inventory_hash (inventory_digest e.digests current)) plan_stale

  -- `OnUpdate`: the lease is touched before the transaction is saved.
  unfoldable pub save_touched : Transaction → Option String × W → Option String × W
  save_touched tx (some message, w) = (some message, w)
  save_touched tx (none, w) = save_transaction e.store tx w

  abbrev pub options_of : e.leases.Lease → Plan → ApplyOptions W
  options_of lease plan = record {
    dry_run = false;
    correlation_id = plan.id;
    on_update = some (λ tx w. save_touched tx (e.leases.touch lease w));
  }

  -- The status, once all is recorded.
  unfoldable pub report : SavedPlan → Transaction → Execution
  report saved tx = record {
    result = some (saved, tx);
    error = elim tx.status [
      | TransactionStatus.failed ↦ some (installations_failed tx.id)
      | _ ↦ none
    ];
  }

  unfoldable pub finish_recorded : SavedPlan → Transaction → Option String × W → Execution × W
  unfolding report
  finish_recorded saved tx (none, w) = (report saved tx, w)
  finish_recorded saved tx (some message, w) =
      (record { result = some (saved, tx); error = some (other message) }, w)

  unfoldable pub finish_saved : SavedPlan → Transaction → Option String × W → Execution × W
  unfolding finish_recorded
  finish_saved saved tx (none, w) = elim e.record_successful_installs [
    | none ↦ finish_recorded saved tx (none, w)
    | some record_installs ↦ finish_recorded saved tx (record_installs saved.plan tx w)
  ]
  finish_saved saved tx (some message, w) =
      (record { result = some (saved, tx); error = some (other message) }, w)

  unfoldable pub apply_plan : e.leases.Lease → SavedPlan → W → Execution × W
  unfolding finish_saved
  apply_plan lease saved w =
      let a = apply e.installer saved.plan (options_of lease saved.plan) w in
      finish_saved saved a.0 (save_transaction e.store a.0 a.1)

  -- The plan is consumed, then applied.
  unfoldable pub consume : Request → e.leases.Lease → SavedPlan → Option String × W → Execution × W
  consume request lease saved (some message, w) = (stopped (not_consumed message), w)
  consume request lease saved (none, w) = apply_plan lease saved w

  unfoldable pub keep_lease :
      Request → e.leases.Lease → SavedPlan → Option String × W → Execution × W
  unfolding consume
  keep_lease request lease saved (some message, w) = (stopped (other message), w)
  keep_lease request lease saved (none, w) =
      consume request lease saved (delete_plan e.store request.plan_id w)

  unfoldable pub check_current :
      Request → e.leases.Lease → SavedPlan → Result String Inventory × W → Execution × W
  unfolding keep_lease
  check_current request lease saved (err message, w) = (stopped (other message), w)
  check_current request lease saved (ok current, w) = elim (check_inventory saved.plan current) [
    | err x ↦ (stopped x, w)
    | ok _ ↦ keep_lease request lease saved (e.leases.touch lease w)
  ]

  unfoldable pub check_saved : Request → e.leases.Lease → SavedPlan → W → Execution × W
  unfolding check_current
  check_saved request lease saved w = elim (check_plan request saved.plan (e.now w)) [
    | err x ↦ (stopped x, w)
    | ok _ ↦ elim e.inventory [
      | none ↦ (stopped inventory_unavailable, w)
      | some load ↦ check_current request lease saved (load w)
    ]
  ]

  unfoldable pub emit : String → W → W
  emit id w = elim e.log_event [ none ↦ w | some log ↦ log id w ]

  unfoldable pub execute_leased : Request → e.leases.Lease → W → Execution × W
  unfolding check_saved emit
  execute_leased request lease w =
      let logged = emit request.plan_id w in
      elim (load_plan e.store request.plan_id logged) [
        | err message ↦ (stopped (other message), logged)
        | ok saved ↦ check_saved request lease saved logged
      ]

  -- `defer lease.Close()`.
  unfoldable pub close_after : Request → Result String e.leases.Lease × W → Execution × W
  unfolding execute_leased
  close_after request (err message, w) = (stopped (other message), w)
  close_after request (ok lease, w) =
      let r = execute_leased request lease w in (r.0, e.leases.close lease r.1)

  unfoldable pub execute : Request → W → Execution × W
  unfolding close_after
  execute request w =
      if request.confirmed
      then close_after request (e.leases.acquire (ttl_of e.lease_ttl) w)
      else (stopped confirmation_required, w)
