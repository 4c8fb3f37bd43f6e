-- ===== src/ResourceHub/Applying.antt =====
-- internal/resourcehub/sync.go: the operations of `ApplySync`, one after the other, and their
-- rollback.
use Prim.Native.String.{String}
use mathlib.Core.List.{reverse}
use agent_stack_manager.Prelude.{
  ℕ, suc, Bool, true, false, Option, none, some, List, [], ◌∷◌, ◌++◌, Result, ok, err,
  if◌then◌else◌,
}
use agent_stack_manager.Prelude.Maps.{Map, lookup, insert, delete}
use agent_stack_manager.ResourceHub.Types.{
  Kind, Resource, Target, Registry, SyncAction, SyncOperation, SyncReport, ManagedEntry,
  ManagedState,
}
use agent_stack_manager.ResourceHub.Files.{FileError, Done}
use agent_stack_manager.ResourceHub.Moving.{RollbackEntry, rollback_all, move_aside, install}
use agent_stack_manager.ResourceHub.Hub.{
  SyncError, file, hook_failed, Hub, json_path, save_managed_state,
}

-- The managed state, the rollback entries, the newest first, and the report, in the loop.
pub record SyncProgress : Type 0 where
  pub state : ManagedState
  pub rollbacks : List RollbackEntry
  pub report : SyncReport

pub record Attempt : Type 0 where
  pub progress : SyncProgress
  pub error : Option SyncError

-- Go's report and its joined errors.
pub record SyncOutcome : Type 0 where
  pub report : SyncReport
  pub errors : List SyncError

abbrev pub no_report : SyncReport
no_report = record {
  plan_id = "";
  target_id = "";
  started_at = 0;
  finished_at = 0;
  applied = [];
  skipped = [];
  backups = [];
}

-- Go's zero value of a resource.
abbrev pub zero_resource : Resource
zero_resource = record {
  id = "";
  kind = Kind.other "";
  name = "";
  description = "";
  digest = "";
  entry = "";
  source = "";
  tags = [];
  targets = [];
  scope = "";
  enabled = false;
  imported_at = 0;
  updated_at = 0;
  metadata = [];
}

abbrev pub resource_of : Registry → String → Resource
resource_of registry id = elim (lookup id registry.resources) [
  | none ↦ zero_resource
  | some resource ↦ resource
]

abbrev pub backups_of : List RollbackEntry → List String
backups_of [] = []
backups_of (entry ∷ entries) =
    let rest = backups_of entries in if entry.existed then entry.backup ∷ rest else rest

-- The operations that a plan applies are one loop over all that stays the same in it.
pub record Context : Type 0 where
  pub plan_id : String
  pub registry : Registry
  pub target : Target
  pub now : ℕ

abbrev pub failed : SyncProgress → SyncError → Attempt
failed p e = record { progress = p; error = some e }

abbrev pub went_on : SyncProgress → Attempt
went_on p = record { progress = p; error = none }

abbrev pub is_noop : SyncAction → Bool
is_noop SyncAction.noop = true
is_noop _ = false

abbrev pub with_skipped : SyncOperation → SyncProgress → SyncProgress
with_skipped op p = record p { report = record p.report { skipped = p.report.skipped ++ op ∷ [] } }

abbrev pub with_rollback : RollbackEntry → SyncProgress → SyncProgress
with_rollback entry p = record p { rollbacks = entry ∷ p.rollbacks }

abbrev pub with_applied : SyncOperation → Map ManagedEntry → SyncProgress → SyncProgress
with_applied op entries p = record {
  state = record p.state { entries = entries };
  rollbacks = p.rollbacks;
  report = record p.report { applied = p.report.applied ++ op ∷ [] };
}

module _ {S : Type 0} (h : Hub S) (c : Context) where
  abbrev pub installed :
      SyncOperation → Resource → SyncProgress → Result SyncError String × S → Attempt × S
  installed op resource p (err e, s) = (failed p e, s)
  installed op resource p (ok digest, s) = (
    went_on (
        with_applied op
          (insert op.destination
            (record {
              resource_id = resource.id;
              destination = op.destination;
              digest = digest;
              managed_at = c.now;
            })
            p.state.entries)
          p),
    s,
  )

  abbrev pub put_in_place : SyncOperation → SyncProgress → S → Attempt × S
  put_in_place op p s =
      let resource = resource_of c.registry op.resource_id in
      installed op resource p (install h c.target resource op.destination s)

  abbrev pub act_on : SyncAction → SyncOperation → SyncProgress → S → Attempt × S
  act_on SyncAction.remove op p s =
      (went_on (with_applied op (delete op.destination p.state.entries) p), s)
  act_on SyncAction.create op p s = put_in_place op p s
  act_on SyncAction.update op p s = put_in_place op p s
  act_on _ op p s = (went_on (with_applied op p.state.entries p), s)

  -- The second half of an operation, once its destination has been moved aside.
  unfoldable pub act : SyncOperation → SyncProgress → S → Attempt × S
  unfolding install
  act op p s = act_on op.action op p s

  abbrev pub after_move :
      SyncOperation → SyncProgress → Result SyncError RollbackEntry × S → Attempt × S
  after_move op p (err e, s) = (failed p e, s)
  after_move op p (ok entry, s) = act op (with_rollback entry p) s

  -- The body of the loop over the operations.
  unfoldable pub apply_operation : ℕ → SyncOperation → SyncProgress → S → Attempt × S
  unfolding act move_aside
  apply_operation index op p s =
      if is_noop op.action
      then (went_on (with_skipped op p), s)
      else elim (h.before_operation op s) [
        | err text ↦ (failed p (hook_failed text), s)
        | ok _ ↦ after_move op p (move_aside h c.plan_id index op s)
      ]

  abbrev pub unless_failed : (SyncProgress → S → Attempt × S) → Attempt × S → Attempt × S
  unless_failed next (attempt, s) = elim attempt.error [
    | some e ↦ (attempt, s)
    | none ↦ next attempt.progress s
  ]

  unfoldable pub apply_operations : ℕ → List SyncOperation → SyncProgress → S → Attempt × S
  unfolding apply_operation
  apply_operations index [] p s = (went_on p, s)
  apply_operations index (op ∷ ops) p s =
      unless_failed (apply_operations (suc index) ops) (apply_operation index op p s)

  -- What the errors of the loop and of the last write come to.
  abbrev pub rolled_back : SyncProgress → SyncError → S → SyncOutcome × S
  rolled_back p e s =
      let undone = rollback_all h p.rollbacks s in
      (record { report = p.report; errors = e ∷ undone.0 }, undone.1)

  abbrev pub with_backups : SyncProgress → SyncReport
  with_backups p = record p.report {
    finished_at = c.now;
    backups = reverse (backups_of p.rollbacks);
  }

  abbrev pub saved : SyncProgress → Result FileError Done × S → SyncOutcome × S
  saved p (err e, s) = rolled_back p (file e) s
  saved p (ok _, s) = (
    record { report = with_backups p; errors = [] },
    (h.remove_file (json_path h "plans" c.plan_id) s).1,
  )

  unfoldable pub conclude_sync : Attempt × S → SyncOutcome × S
  unfolding rollback_all save_managed_state
  conclude_sync (attempt, s) = elim attempt.error [
    | some e ↦ rolled_back attempt.progress e s
    | none ↦
        let p = attempt.progress in
        saved p (save_managed_state h (record p.state { updated_at = c.now }) s)
  ]
