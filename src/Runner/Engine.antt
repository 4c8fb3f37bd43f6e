-- ===== src/Runner/Engine.antt =====
-- internal/runner/runner.go: `Engine.Apply`. All that the engine calls changes a state of type `W`:
-- the machine, with what the callback keeps.
use Prim.Native.String.{String}
use text.Mathlib.Text.{◌==◌}
use agent_stack_manager.Prelude.{
  ℕ, Bool, true, false, not, Option, none, some, List, [], ◌∷◌, ok, err, if◌then◌else◌, ℤ, negsuc,
  pos,
}
use agent_stack_manager.Prelude.Text.{concatenated}
use agent_stack_manager.Prelude.Maps.{Map, lookup}
use agent_stack_manager.Model.{
  InstallKind, ActionKind, Catalog, Component, PlanAction, Transaction, TransactionAction,
  component_by_id,
}
use agent_stack_manager.Runner.Invocations.{Invocation, CommandResult, invocation_for}

pub record VerificationResult : Type 0 where
  pub is_ok : Bool
  pub message : String

-- `Commands` and `Path` are those that `Apply` works with, its defaults put in. The last three
-- fields are the clock, the random id and the `%q` of Go's library.
pub record Engine (W : Type 0) : Type 0 where
  pub commands : Invocation → W → CommandResult × W
  pub skills : Option (Component → W → CommandResult × W)
  pub catalog : Catalog
  pub path : W → Option String × W
  pub verifier : Option (Component → PlanAction → CommandResult → W → VerificationResult × W)
  pub now : W → ℕ
  pub new_id : W → String
  pub quoted : String → String

abbrev pub Callback : Type 0 → Type 0
Callback W = Transaction → W → Option String × W

pub record ApplyOptions (W : Type 0) : Type 0 where
  pub dry_run : Bool
  pub correlation_id : String
  pub on_update : Option (Callback W)

unfoldable pub installs : ActionKind → Bool
installs ActionKind.install = true
installs ActionKind.repair = true
installs _ = false

abbrev pub is_skill_pack : InstallKind → Bool
is_skill_pack InstallKind.skill_pack = true
is_skill_pack _ = false

abbrev pub is_winget : InstallKind → Bool
is_winget InstallKind.winget = true
is_winget _ = false

abbrev pub minus_one : ℤ
minus_one = negsuc 0

abbrev pub new_record : PlanAction → ℕ → TransactionAction
new_record action now = record {
  component_id = action.component_id;
  kind = action.kind;
  command = "";
  args = [];
  exit_code = pos 0;
  output = "";
  output_truncated = false;
  verified = false;
  verification = "";
  error = "";
  started_at = now;
  finished_at = 0;
}

unfoldable pub journal_failure_action : ℕ → String → TransactionAction
journal_failure_action now message = record {
  component_id = "agentstack-state";
  kind = ActionKind.configure;
  command = "";
  args = [];
  exit_code = pos 0;
  output = "";
  output_truncated = false;
  verified = false;
  verification = "transaction state could not be durably recorded";
  error = concatenated ("persist transaction journal: " ∷ message ∷ []);
  started_at = now;
  finished_at = now;
}

-- The loop over the dependencies: the first that has failed, and its message.
unfoldable pub first_failed : List String → Map String → String × String
first_failed [] failed = ("", "")
first_failed (d ∷ ds) failed =
    let rest = first_failed ds failed in
    elim (lookup d failed) [ none ↦ rest | some message ↦ (d, message) ]

unfoldable pub failed_dependency : Catalog → String → Map String → String × String
unfolding first_failed
failed_dependency c id failed = elim (component_by_id c id) [
  | none ↦ ("", "")
  | some k ↦ first_failed k.depends_on failed
]

abbrev pub with_result : TransactionAction → CommandResult → TransactionAction
with_result entry result = record entry {
  exit_code = result.exit_code;
  output = result.stdout;
  output_truncated = result.truncated;
}

-- What has become of an action: its record, whether it has failed, and the state.
pub record Step (W : Type 0) : Type 0 where
  pub entry : TransactionAction
  pub has_failed : Bool
  pub world : W

abbrev pub failure : String → CommandResult
failure message = record {
  stdout = "";
  stderr = "";
  exit_code = minus_one;
  error = some message;
  truncated = false;
}

module _ {W : Type 0} (e : Engine W) where
  abbrev pub failed_step : TransactionAction → String → W → Step W
  failed_step entry message w = record {
    entry = record entry { error = message; finished_at = e.now w };
    has_failed = true;
    world = w;
  }

  abbrev pub verified_step : TransactionAction → String → W → Step W
  verified_step entry message w = record {
    entry = record entry { verified = true; verification = message; finished_at = e.now w };
    has_failed = false;
    world = w;
  }

  -- The branch of a dry run.
  unfoldable pub dry_step : PlanAction → TransactionAction → W → Step W
  dry_step action entry w = elim (invocation_for e.quoted action) [
    | err message ↦
        failed_step
          (record entry {
            exit_code = minus_one;
            verification = "dry-run action could not be resolved";
          })
          message w
    | ok i ↦
        verified_step (record entry { command = i.command; args = i.args })
          "dry-run action resolved" w
  ]

  unfoldable pub install_skill : PlanAction → W → CommandResult × W
  install_skill action w = elim (component_by_id e.catalog action.component_id) [
    | none ↦ (
      failure (concatenated ("component " ∷ action.component_id ∷ " missing from catalog" ∷ [])),
      w,
    )
    | some k ↦ elim e.skills [
      | none ↦ (failure "skill installer unavailable", w)
      | some install ↦ install k w
    ]
  ]

  -- The call that installs, and the record with its command.
  unfoldable pub call_installer :
      PlanAction → TransactionAction → W → TransactionAction × CommandResult × W
  call_installer action entry w =
      if is_skill_pack action.install.kind
      then (entry, (install_skill action w).0, (install_skill action w).1)
      else elim (invocation_for e.quoted action) [
        | err message ↦ (entry, failure message, w)
        | ok i ↦ (
          record entry { command = i.command; args = i.args },
          (e.commands i w).0,
          (e.commands i w).1,
        )
      ]

  unfoldable pub refresh_path : PlanAction → CommandResult → W → CommandResult × W
  refresh_path action result w = elim result.error [
    | some _ ↦ (result, w)
    | none ↦
        if is_winget action.install.kind
        then (
          elim (e.path w).0 [
            | none ↦ result
            | some message ↦ record result {
              error = some (concatenated ("refresh process PATH: " ∷ message ∷ []));
              exit_code = minus_one;
            }
          ],
          (e.path w).1,
        )
        else (result, w)
  ]

  unfoldable pub judged : TransactionAction → VerificationResult × W → Step W
  judged entry (v, w) =
      if v.is_ok
      then verified_step entry v.message w
      else failed_step (record entry { verification = v.message })
          (concatenated ("postcondition verification failed: " ∷ v.message ∷ [])) w

  -- What follows the call: the error, or the verification.
  unfoldable pub conclude : PlanAction → TransactionAction → CommandResult → W → Step W
  unfolding judged
  conclude action entry result w = elim result.error [
    | some message ↦
        failed_step entry
          (if result.stderr == ""
            then message
            else concatenated (message ∷ ": " ∷ result.stderr ∷ []))
          w
    | none ↦ elim e.verifier [
      | none ↦ verified_step entry "command completed; no verifier configured" w
      | some verify ↦ elim (component_by_id e.catalog action.component_id) [
        | none ↦
            failed_step entry "component missing from catalog during postcondition verification" w
        | some k ↦ judged entry (verify k action result w)
      ]
    ]
  ]

  -- The record takes the result's fields; a failed refresh changes the exit codes of both.
  unfoldable pub install_step : PlanAction → TransactionAction → W → Step W
  unfolding conclude
  install_step action entry w =
      let called = call_installer action entry w in
      let refreshed = refresh_path action called.1 called.2 in
      conclude action (with_result called.0 refreshed.0) refreshed.0 refreshed.1

  -- The body of the loop, up to the checkpoint.
  unfoldable pub action_step : Bool → Map String → PlanAction → W → Step W
  unfolding installs failed_dependency dry_step install_step
  action_step dry_run failed action w =
      let entry = new_record action (e.now w) in
      if not (installs action.kind)
      then verified_step entry "no installer action required" w
      else let (dependency, message) = failed_dependency e.catalog action.component_id failed in
        if not (dependency == "")
        then failed_step (record entry { exit_code = minus_one })
            (concatenated ("dependency " ∷ dependency ∷ " failed: " ∷ message ∷ [])) w
        else if dry_run
        then dry_step action entry w
        else install_step action entry w
