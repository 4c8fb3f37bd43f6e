-- ===== src/ResourceHub/Planning.antt =====
-- internal/resourcehub/sync.go: `PlanSync`.
use Prim.Native.String.{String}
use text.Mathlib.Text.{◌==◌}
use agent_stack_manager.Prelude.{
  ℕ, zero, suc, ◌+◌, ℤ, pos, negsuc, Bool, ◌&&◌, none, some, List, [], ◌∷◌, ◌++◌, Result, ok, err,
  ◌>>=◌, ◌>>◌, ensure, if◌then◌else◌,
}
use agent_stack_manager.Prelude.Text.{is_empty, is_before, string_trim_space}
use agent_stack_manager.Prelude.Maps.{Keys, Map, mem, add, lookup}
use agent_stack_manager.Prelude.Sorting.{sort_stable}
use agent_stack_manager.ResourceHub.Types.{
  Kind, Resource, Target, Registry, SyncAction, SyncOperation, SyncPlan, PlanOptions, ManagedEntry,
  ManagedState,
}
use agent_stack_manager.ResourceHub.Destinations.{supports_agent}
use agent_stack_manager.ResourceHub.Files.{not_exist, FileError}
use agent_stack_manager.ResourceHub.Choosing.{choose, audited, destination_of}
use agent_stack_manager.ResourceHub.Hub.{
  SyncError, file, unknown_target, disabled_target, unknown_resource, Hub, failing, resource_source,
  json_path, load_managed_state, sync_plan_digest,
}

abbrev pub quarter_hour : ℕ
quarter_hour = 900000000000

abbrev pub plan_ttl : ℤ → ℕ
plan_ttl (pos zero) = quarter_hour
plan_ttl (pos (suc n)) = suc n
plan_ttl (negsuc n) = quarter_hour

-- The loop of `uniqueStrings`, over the items seen.
unfoldable pub unique_from : Keys → List String → List String
unfolding mem
unique_from seen [] = []
unique_from seen (item ∷ items) =
    let name = string_trim_space item in
    let kept = name ∷ unique_from (name ∷ seen) items in
    let skipped = unique_from seen items in
    if name == "" then skipped else if mem name seen then skipped else kept

unfoldable pub unique_strings : List String → List String
unfolding unique_from sort_stable
unique_strings items = sort_stable is_before (unique_from [] items)

abbrev pub find_target : Map Target → String → Result SyncError Target
find_target targets id = elim (lookup id targets) [
  | none ↦ err (unknown_target id)
  | some target ↦ ensure target.enabled (disabled_target id) >> ok target
]

-- The ids of the resources that a target takes, in the order of one walk of the map.
unfoldable pub eligible_ids : Target → Map Resource → List String
unfolding supports_agent
eligible_ids target [] = []
eligible_ids target ((id, resource) ∷ resources) =
    let rest = eligible_ids target resources in
    if resource.enabled && supports_agent resource target.agent then id ∷ rest else rest

unfoldable pub selected_ids : Target → Map Resource → List String → List String
unfolding unique_strings eligible_ids
selected_ids target resources asked =
    if is_empty (unique_strings asked)
    then sort_stable is_before (eligible_ids target resources)
    else unique_strings asked

-- The operations so far, and the destinations that they select.
pub record Planned : Type 0 where
  pub operations : List SyncOperation
  pub selected : Keys

module _ {S : Type 0} (h : Hub S) (s : S) where
  -- The operation for a resource that the target takes.
  unfoldable pub plan_resource :
      Target → PlanOptions → ManagedState → String → Resource → Result SyncError SyncOperation
  unfolding choose
  plan_resource target options state id resource = do
    audited h s options id
    destination ← destination_of h s target resource
    choice ← choose h s target resource id destination (lookup destination state.entries)
    ok (record {
      resource_id = id;
      kind = resource.kind;
      action = choice.action;
      source = resource_source h resource;
      destination = destination;
      desired_digest = resource.digest;
      current_digest = choice.current;
      reason = choice.reason;
    })

  abbrev pub with_operation : Planned → SyncOperation → Planned
  with_operation p operation = record {
    operations = p.operations ++ operation ∷ [];
    selected = add operation.destination p.selected;
  }

  -- The body of the loop over the ids.
  unfoldable pub plan_id :
      Registry → Target → PlanOptions → ManagedState → String → Planned → Result SyncError Planned
  unfolding plan_resource supports_agent add
  plan_id registry target options state id p = elim (lookup id registry.resources) [
    | none ↦ err (unknown_resource id)
    | some resource ↦
        if resource.enabled && supports_agent resource target.agent
        then plan_resource target options state id resource
          >>= (λ operation. ok (with_operation p operation))
        else ok p
  ]

  unfoldable pub plan_ids :
      Registry
      → Target
      → PlanOptions
      → ManagedState
      → List String
      → Planned
      → Result SyncError Planned
  plan_ids registry target options state [] p = ok p
  plan_ids registry target options state (id ∷ ids) p =
      plan_id registry target options state id p >>= plan_ids registry target options state ids

  abbrev pub removal : String → ManagedEntry → String → SyncOperation
  removal destination managed current = record {
    resource_id = managed.resource_id;
    kind = Kind.other "";
    action = if current == managed.digest then SyncAction.remove else SyncAction.conflict;
    source = "";
    destination = destination;
    desired_digest = "";
    current_digest = current;
    reason =
        if current == managed.digest
        then "managed resource is no longer selected"
        else "managed destination changed outside AgentStack and will not be removed";
  }

  -- The operation for a managed destination that is no longer selected.
  unfoldable pub plan_removal : Keys → String → ManagedEntry → Result SyncError (List SyncOperation)
  plan_removal selected destination managed =
      if mem destination selected then ok [] else elim (h.files.tree_digest destination s) [
        | err not_exist ↦ ok []
        | err e ↦ err (file e)
        | ok current ↦ ok (removal destination managed current ∷ [])
      ]

  unfoldable pub plan_removals : Keys → Map ManagedEntry → Result SyncError (List SyncOperation)
  unfolding plan_removal
  plan_removals selected [] = ok []
  plan_removals selected ((destination, managed) ∷ entries) = do
    first ← plan_removal selected destination managed
    later ← plan_removals selected entries
    ok (first ++ later)

  unfoldable pub pruned : Bool → Planned → Map ManagedEntry → Result SyncError (List SyncOperation)
  unfolding plan_removals
  pruned prune p entries =
      if prune
      then plan_removals p.selected entries >>= (λ removals. ok (p.operations ++ removals))
      else ok p.operations

  abbrev pub by_destination : SyncOperation → SyncOperation → Bool
  by_destination a b = is_before a.destination b.destination

  -- All operations, in the order of their destinations.
  unfoldable pub plan_operations :
      Registry
      → Target
      → PlanOptions
      → ManagedState
      → List String
      → Result SyncError (List SyncOperation)
  unfolding plan_ids selected_ids pruned sort_stable
  plan_operations registry target options state asked = do
    p ←
        plan_ids registry target options state (selected_ids target registry.resources asked)
          (record { operations = []; selected = [] })
    operations ← pruned options.prune p state.entries
    ok (sort_stable by_destination operations)

  unfoldable pub signed : SyncPlan → Result SyncError SyncPlan
  unfolding sync_plan_digest
  signed plan = sync_plan_digest h plan >>= (λ digest. ok (record plan { digest = digest }))

  -- The plan before its digest.
  abbrev pub draft : String → PlanOptions → ℕ → String → List SyncOperation → SyncPlan
  draft target_id options now registry_digest operations = record {
    id = h.sync_id now;
    digest = "";
    target_id = target_id;
    generated_at = now;
    expires_at = now + plan_ttl options.ttl;
    registry_digest = registry_digest;
    allow_risk = options.allow_risk;
    prune = options.prune;
    operations = operations;
  }

  -- The plan, which is not stored yet.
  unfoldable pub prepare : String → List String → PlanOptions → ℕ → Result SyncError SyncPlan
  unfolding plan_operations load_managed_state signed
  prepare target_id asked options now = do
    registry ← failing (h.load_registry s)
    target ← find_target registry.targets target_id
    state ← load_managed_state h target_id s
    operations ← plan_operations registry target options state asked
    registry_digest ← failing (h.registry_json registry)
    signed (draft target_id options now registry_digest operations)

abbrev pub stored :
    {S : Type 0} → SyncPlan → Result FileError (Unit {0}) × S → Result SyncError SyncPlan × S
stored plan (err e, s) = (err (file e), s)
stored plan (ok _, s) = (ok plan, s)

unfoldable pub plan_sync :
    {S : Type 0}
    → Hub S
    → String
    → List String
    → PlanOptions
    → ℕ
    → S
    → Result SyncError SyncPlan × S
unfolding prepare
plan_sync h target_id asked options now s = elim (prepare h s target_id asked options now) [
  | err e ↦ (err e, s)
  | ok plan ↦ stored plan (h.write_plan (json_path h "plans" plan.id) plan s)
]
