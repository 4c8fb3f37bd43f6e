-- ===== src/ReviewedPlan/Tests.antt =====
-- A machine that keeps one plan file, and a plan with one action.
use Prim.Native.String.{String}
use agent_stack_manager.Prelude.{
  subst, ◌≡◌, ◌⊎◌, refl, arith, true, false, Option, none, some, [], ◌∷◌, ok, err, pos,
}
use agent_stack_manager.Prelude.Text.{trim_space, trim, trim_left}
use agent_stack_manager.Model.{Catalog, Inventory, InstallKind, InstallSpec, ActionKind, PlanAction}
use agent_stack_manager.Runner.Engine.{Engine}
use agent_stack_manager.State.Store.{
  Store, SavedPlan, removed, load_plan, delete_plan, valid_record_id, is_record_char,
}
use agent_stack_manager.ReviewedPlan.Executor.{
  Request, Executor, execute, plan_digest, inventory_digest, emit,
}
use agent_stack_manager.ReviewedPlan.Applied.{Applied, execute-Applied}
use agent_stack_manager.ReviewedPlan.Gone.{IsGone, file_of, Forgets}
use agent_stack_manager.ReviewedPlan.Once.{execute_all, execute_once}
use agent_stack_manager.ReviewedPlan.Authorized.{Authorized, Harmless, execute-Authorized}

abbrev no_catalog : Catalog
no_catalog = record { version = pos 1; components = []; profiles = [] }

abbrev no_inventory : Inventory
no_inventory = record {
  generated_at = 3;
  revision = "";
  items = [];
  external = [];
  raw_sources = [];
}

abbrev no_install : InstallSpec
no_install = record {
  kind = InstallKind.manual;
  package_name = "";
  winget_id = "";
  repository = "";
  repository_revision = "";
  manifest_digest = "";
  source = "";
  version = "";
  publisher = "";
  digest = "";
  expected_entries = [];
  login_hint = "";
  documentation_url = "";
  description = "";
}

abbrev keep_tool : PlanAction
keep_tool = record {
  component_id = "tool";
  name = "tool";
  kind = ActionKind.keep;
  reason = "";
  install = no_install;
  selected = true;
  upgrade = false;
}

abbrev reviewed : SavedPlan
reviewed = record {
  plan = record {
    id = "plan-1";
    digest = "core";
    profile = "core";
    generated_at = 0;
    expires_at = 9;
    catalog_hash = "c";
    inventory_hash = "i";
    actions = keep_tool ∷ [];
    providers = [];
  };
  request = record {
    profile = "core";
    include = [];
    exclude = [];
    allow_credentialed = false;
    allow_upgrades = false;
    provider_overrides = [];
  };
  created_at = 0;
}

-- The machine is its plan file.
abbrev Machine : Type 0
Machine = Option SavedPlan

abbrev idle : Engine Machine
idle = record {
  commands = λ i w.
      (record { stdout = ""; stderr = ""; exit_code = pos 0; error = none; truncated = false }, w);
  skills = none;
  catalog = no_catalog;
  path = λ w. (none, w);
  verifier = none;
  now = λ w. 5;
  new_id = λ w. "tx";
  quoted = λ s. s;
}

abbrev store : Store Machine
store = record {
  files = record {
    read_plan = λ name w. elim w [ none ↦ err "no such file" | some saved ↦ ok saved ];
    remove_plan = λ name w. (removed, none);
    write_transaction = λ name tx w. (none, w);
  };
  lower = λ c. c;
  redact = λ s. s;
}

abbrev executor : Executor Machine
executor = record {
  catalog = no_catalog;
  store = store;
  leases = record {
    Lease = Unit;
    acquire = λ ttl w. (ok tt, w);
    touch = λ lease w. (none, w);
    close = λ lease w. w;
  };
  installer = idle;
  digests = record {
    catalog_digest = λ c. ok "c";
    plan_json = λ p. ok p.profile;
    inventory_json = λ i. ok "i";
  };
  inventory = some (λ w. (ok no_inventory, w));
  record_successful_installs = none;
  log_event = none;
  lease_ttl = pos 0;
  now = λ w. 5;
}

abbrev confirmed_request : String → Request
confirmed_request digest = record { plan_id = "plan-1"; digest = digest; confirmed = true }

still_there : Harmless executor (λ w. w ≡ some reviewed)
unfolding delete_plan
still_there = record {
  acquires = λ ttl w h. h;
  touches = λ lease w h. h;
  closes = λ lease w h. h;
  logs = λ log id w silent h. cc;
  takes =
      λ load w has h. subst (λ o. elim o [ none ↦ Unit | some l ↦ (l w).1 ≡ some reviewed ]) has h;
  refuses = λ id message w r h. ground (arith, r, h);
}

-- A request with another digest.
execute-Authorized_example :
    Authorized executor (confirmed_request "other") (some reviewed)
    ⊎ ((execute executor (confirmed_request "other") (some reviewed)).1 ≡ some reviewed)
execute-Authorized_example =
    execute-Authorized executor (confirmed_request "other") (λ w. w ≡ some reviewed) (some reviewed)
      still_there refl

authorized : Authorized executor (confirmed_request "core") (some reviewed)
unfolding load_plan delete_plan valid_record_id emit plan_digest inventory_digest trim_space trim
    trim_left is_record_char
authorized = record {
  confirmed = refl;
  lease = tt;
  acquired = some reviewed;
  acquire_ok = refl;
  saved = reviewed;
  load_ok = refl;
  same_id = refl;
  same_digest = refl;
  digest_given = λ n. cc;
  unchanged = refl;
  unexpired = omega arith;
  same_catalog = refl;
  load = λ w. (ok no_inventory, w);
  has_inventory = refl;
  current = no_inventory;
  taken = some reviewed;
  take_ok = refl;
  same_inventory = refl;
  touched = some reviewed;
  touch_ok = refl;
  removed = none;
  removal_ok = refl;
}

execute-Applied_example :
    Applied executor authorized.lease authorized.saved authorized.removed
      (execute executor (confirmed_request "core") (some reviewed))
execute-Applied_example =
    execute-Applied executor (confirmed_request "core") (some reviewed) authorized

-- What is removed is `none`, and nothing else changes the plan file.
forgets : Forgets executor (file_of executor "plan-1")
forgets = record {
  removes = λ w r saved found. cc;
  misses = λ w r saved found. cc;
  removes_others = λ other w h saved found. cc;
  writes = λ other tx w h. h;
  acquires = λ ttl w h. h;
  touches = λ lease w h. h;
  closes = λ lease w h. h;
  logs = λ log id w has h. cc;
  takes = λ load w has h.
      subst
        (λ o. elim o [ none ↦ Unit | some l ↦ IsGone executor (file_of executor "plan-1") (l w).1 ])
        has h;
  records = λ record_installs plan tx w has h. cc;
  runs = λ i w h. h;
  installs_skill = λ install k w has h. cc;
  refreshes = λ w h. h;
  verifies = λ verify k a result w has h. cc;
}

execute_once_example : ¬ Authorized executor (confirmed_request "core") (
    execute_all executor
      (confirmed_request "other" ∷ [])
      (execute executor (confirmed_request "core") (some reviewed)).1)
execute_once_example =
    execute_once executor (confirmed_request "core") (some reviewed) forgets authorized
      (confirmed_request "other" ∷ []) (confirmed_request "core") refl
