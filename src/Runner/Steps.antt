-- ===== src/Runner/Steps.antt =====
-- What one action of the engine does to its record.
use Prim.Native.String.{String}
use text.Mathlib.TextEquality.{eq_iff}
use agent_stack_manager.Prelude.{
  ◌≡◌, refl, ℕ, Bool, true, false, not, none, some, List, [], ◌∷◌, arith,
}
use agent_stack_manager.Prelude.Maps.{Map, mem, lookup}
use agent_stack_manager.Model.{Catalog, Component, PlanAction, TransactionAction, component_by_id}
use agent_stack_manager.Runner.Invocations.{CommandResult}
use agent_stack_manager.Runner.Engine.{
  with_result, Engine, Step, VerificationResult, installs, first_failed, failed_dependency,
  dry_step, call_installer, refresh_path, new_record, judged, conclude, install_step, action_step,
}

-- The record is of the action, and it is verified exactly when the action has not failed.
pub record IsStep {W : Type 0} (action : PlanAction) (s : Step W) : Type 0 where
  pub about : s.entry.component_id ≡ action.component_id
  pub alike : s.entry.kind ≡ action.kind
  pub verified_lem : s.entry.verified ≡ not s.has_failed
  pub silent : s.has_failed ≡ false → s.entry.error ≡ ""

pub record IsFresh (action : PlanAction) (entry : TransactionAction) : Type 0 where
  pub about : entry.component_id ≡ action.component_id
  pub alike : entry.kind ≡ action.kind
  pub unverified : entry.verified ≡ false
  pub silent : entry.error ≡ ""

module _ {W : Type 0} (e : Engine W) where
  judged-IsStep :
      (action : PlanAction) (entry : TransactionAction) (v : VerificationResult × W)
      → IsFresh action entry
      → IsStep action (judged e entry v)
  unfolding judged
  judged-IsStep action entry (v, w) f = record {
    about = ground (arith, f.about);
    alike = ground (arith, f.alike);
    verified_lem = ground (arith, f.unverified);
    silent = ground (arith, f.silent);
  }

  conclude-IsStep :
      (action : PlanAction) (entry : TransactionAction) (result : CommandResult) (w : W)
      → IsFresh action entry
      → IsStep action (conclude e action entry result w)
  unfolding conclude judged
  conclude-IsStep action entry result w f = record {
    about = ground (arith, f.about);
    alike = ground (arith, f.alike);
    verified_lem = ground (arith, f.unverified);
    silent = ground (arith, f.silent);
  }

  call_installer-IsFresh :
      (action : PlanAction) (entry : TransactionAction) (w : W)
      → IsFresh action entry
      → IsFresh action (call_installer e action entry w).0
  unfolding call_installer
  call_installer-IsFresh action entry w f = record {
    about = ground (arith, f.about);
    alike = ground (arith, f.alike);
    unverified = ground (arith, f.unverified);
    silent = ground (arith, f.silent);
  }

  install_step-IsStep :
      (action : PlanAction) (entry : TransactionAction) (w : W)
      → IsFresh action entry
      → IsStep action (install_step e action entry w)
  unfolding install_step
  install_step-IsStep action entry w f =
      let g = call_installer-IsFresh action entry w f in
      let called = call_installer e action entry w in
      let refreshed = refresh_path e action called.1 called.2 in
      conclude-IsStep action (with_result called.0 refreshed.0) refreshed.0 refreshed.1
        (record { about = g.about; alike = g.alike; unverified = g.unverified; silent = g.silent })

  dry_step-IsStep :
      (action : PlanAction) (entry : TransactionAction) (w : W)
      → IsFresh action entry
      → IsStep action (dry_step e action entry w)
  unfolding dry_step
  dry_step-IsStep action entry w f = record {
    about = ground (arith, f.about);
    alike = ground (arith, f.alike);
    verified_lem = ground (arith, f.unverified);
    silent = ground (arith, f.silent);
  }

  new_record-IsFresh : (action : PlanAction) (n : ℕ) → IsFresh action (new_record action n)
  new_record-IsFresh action n = record {
    about = refl;
    alike = refl;
    unverified = refl;
    silent = refl;
  }

  pub action_step-IsStep :
      (dry_run : Bool) (failed : Map String) (action : PlanAction) (w : W)
      → IsStep action (action_step e dry_run failed action w)
  unfolding action_step
  action_step-IsStep dry_run failed action w =
      let f = new_record-IsFresh action (e.now w) in
      let dry = dry_step-IsStep action _ w f in
      let wet = install_step-IsStep action _ w f in
      record {
        about = ground (arith, dry.about, wet.about);
        alike = ground (arith, dry.alike, wet.alike);
        verified_lem = ground (arith, dry.verified_lem, wet.verified_lem);
        silent = ground (arith, dry.silent, wet.silent);
      }

  -- An action that would install is verified only if none of its dependencies has failed.
  pub action_step-guarded :
      (dry_run : Bool) (failed : Map String) (action : PlanAction) (w : W)
      → installs action.kind ≡ true
      → (action_step e dry_run failed action w).entry.verified ≡ true
      → (failed_dependency e.catalog action.component_id failed).0 ≡ ""
  unfolding action_step
  action_step-guarded dry_run failed action w i v =
      let d = (failed_dependency e.catalog action.component_id failed).0 in
      ground (arith, eq_iff d "")

first_failed-none :
    (ds : List String) (failed : Map String) (d : String)
    → mem "" ds ≡ false
    → (first_failed ds failed).0 ≡ ""
    → mem d ds ≡ true
    → lookup d failed ≡ none
unfolding first_failed mem
first_failed-none [] failed d e h m = cc
first_failed-none (x ∷ ds) failed d e h m =
    ground (arith, eq_iff x d, eq_iff x "", first_failed-none ds failed d)

pub failed_dependency-none :
    (c : Catalog) (id : String) (failed : Map String) (k : Component) (d : String)
    → mem "" k.depends_on ≡ false
    → (failed_dependency c id failed).0 ≡ ""
    → component_by_id c id ≡ some k
    → mem d k.depends_on ≡ true
    → lookup d failed ≡ none
unfolding failed_dependency
failed_dependency-none c id failed k d n h e m =
    first_failed-none k.depends_on failed d n (ground (arith, h, e)) m
