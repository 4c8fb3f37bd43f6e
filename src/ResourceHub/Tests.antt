-- ===== src/ResourceHub/Tests.antt =====
-- A synchronisation that updates one destination and fails at the next, on a small disk.
use Prim.Native.String.{String}
use text.Mathlib.TextEquality.{eq_iff}
use agent_stack_manager.Prelude.{pos, ◌≡◌, refl, ◌≢◌, true, false, [], ◌∷◌, ok}
use agent_stack_manager.Prelude.Text.{trim_space}
use agent_stack_manager.Prelude.Maps.{lookup, insert, delete}
use agent_stack_manager.ResourceHub.Types.{Kind, SyncAction, SyncPlan, PlanOptions, ManagedState}
use agent_stack_manager.ResourceHub.Files.{numbered}
use agent_stack_manager.ResourceHub.Hub.{load_managed_state, hook_failed}
use agent_stack_manager.ResourceHub.Checks.{load_sync_plan}
use agent_stack_manager.ResourceHub.Syncing.{apply_sync}
use agent_stack_manager.ResourceHub.Planning.{plan_sync, plan_id}
use agent_stack_manager.ResourceHub.Planned.{IsJustifiedBy, plan_sync-Justified}
use agent_stack_manager.ResourceHub.SmallDisk.{
  Paths, small_hub, small_plan, start, places, small_disk,
}
use agent_stack_manager.ResourceHub.Destinations.{target_destination, place_of}
use agent_stack_manager.ResourceHub.Disk.{Keeps}
use agent_stack_manager.ResourceHub.Atomic.{Unique}
use agent_stack_manager.ResourceHub.AllOrNothing.{apply_sync-Keeps}

second_fails : (apply_sync small_hub "sync" "plan" true 3 start).0.errors ≡ hook_failed "stop" ∷ []
unfolding apply_sync trim_space lookup numbered insert delete
second_fails = refl

loaded : load_sync_plan small_hub "sync" start ≡ ok small_plan
unfolding load_sync_plan
loaded = refl

other_place : ◌≢◌ {A = String} "e" "d"
other_place e = let x : false ≡ true = (eq_iff "e" "d").1 e in absurd (cc)

unique : Unique small_plan.operations
unique = ((other_place, tt), (tt, tt))

apply_sync-Keeps_example :
    Keeps small_hub "sync" places small_disk start
      (apply_sync small_hub "sync" "plan" true 3 start).1
apply_sync-Keeps_example =
    apply_sync-Keeps small_hub "sync" "plan" true 3 start small_plan small_disk loaded unique
      (hook_failed "stop") second_fails

abbrev pruning : PlanOptions
pruning = record { ttl = pos 0; allow_risk = false; prune = true }

-- Somebody else's file stands where the first resource is to go.
abbrev taken : Paths
taken = (".agentsskillsone", "foreign") ∷ start

abbrev mixed_plan : SyncPlan
mixed_plan = record {
  id = "sync";
  digest = "plan";
  target_id = "here";
  generated_at = 3;
  expires_at = 900000000003;
  registry_digest = "registry";
  allow_risk = false;
  prune = true;
  operations =
      record {
        resource_id = "one";
        kind = Kind.skill;
        action = SyncAction.conflict;
        source = "resourcesone";
        destination = ".agentsskillsone";
        desired_digest = "new";
        current_digest = "foreign";
        reason = "foreign destination differs and will not be overwritten";
      }
      ∷ record {
        resource_id = "two";
        kind = Kind.skill;
        action = SyncAction.create;
        source = "resourcestwo";
        destination = ".agentsskillstwo";
        desired_digest = "other";
        current_digest = "";
        reason = "destination is absent";
      }
      ∷ record {
        resource_id = "one";
        kind = Kind.other "";
        action = SyncAction.remove;
        source = "";
        destination = "d";
        desired_digest = "";
        current_digest = "old";
        reason = "managed resource is no longer selected";
      }
      ∷ [];
}

mixed_is_planned : plan_sync small_hub "here" [] pruning 3 taken ≡ (ok mixed_plan, taken)
unfolding plan_sync lookup plan_id target_destination place_of
mixed_is_planned = refl

plan_sync-Justified_example :
    (state : ManagedState) × (load_managed_state small_hub "here" taken ≡ ok state)
    × IsJustifiedBy small_hub taken pruning mixed_plan state
plan_sync-Justified_example =
    plan_sync-Justified small_hub "here" [] pruning 3 taken taken mixed_plan mixed_is_planned
