-- ===== src/State/Tests.antt =====
-- Ids of records, and a transaction whose action has printed a secret.
use Prim.Native.String.{String}
use text.Mathlib.Text.{◌==◌}
use agent_stack_manager.Prelude.{◌≡◌, refl, true, false, [], ◌∷◌, All, pos, if◌then◌else◌}
use agent_stack_manager.Prelude.Text.{codes, trim_space, trim, trim_left}
use agent_stack_manager.Model.{ActionKind, Transaction, TransactionStatus}
use agent_stack_manager.State.Store.{
  valid_record_id, is_record_char, safe_name, minimized_transaction,
}
use agent_stack_manager.State.Persisted.{IsPrivate, minimized_transaction_lem}

valid_example : valid_record_id " Plan-1" ≡ true
unfolding valid_record_id is_record_char trim_space trim trim_left
valid_example = refl

invalid_example : valid_record_id "../plan" ≡ false
unfolding valid_record_id is_record_char trim_space trim trim_left
invalid_example = refl

safe_example : safe_name (λ c. c) "../plan x" ≡ codes "plan-x"
unfolding safe_name trim_space trim trim_left
safe_example = refl

abbrev hide : String → String
hide s = if s == "token" then "[REDACTED]" else s

abbrev leaky : Transaction
leaky = record {
  id = "tx";
  correlation_id = "";
  status = TransactionStatus.failed;
  started_at = 0;
  finished_at = 1;
  dry_run = false;
  actions =
      record {
        component_id = "editor";
        kind = ActionKind.install;
        command = "npm";
        args = "token" ∷ [];
        exit_code = pos 1;
        output = "token";
        output_truncated = false;
        verified = false;
        verification = "token";
        error = "token";
        started_at = 0;
        finished_at = 1;
      }
      ∷ [];
}

minimized_transaction_lem_example :
    All (IsPrivate hide) (minimized_transaction hide leaky).actions
    × (minimized_transaction hide (minimized_transaction hide leaky)
        ≡ minimized_transaction hide leaky)
minimized_transaction_lem_example = minimized_transaction_lem hide leaky refl
