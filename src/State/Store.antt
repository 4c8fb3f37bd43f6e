-- ===== src/State/Store.antt =====
-- internal/state/store.go: saved plans and transactions. Files are Go's `os` package, a parameter.
use Prim.Native.String.{String}
use text.Mathlib.Text.{◌==◌}
use agent_stack_manager.Prelude.{
  ℕ, leb, Bool, ◌&&◌, ◌||◌, Option, none, some, [], map, Result, err, not, if◌then◌else◌,
}
use agent_stack_manager.Prelude.Text.{Text, codes, trim, trim_space, all, is_empty}
use agent_stack_manager.Model.{Plan, Transaction, TransactionAction}
use agent_stack_manager.Planner.Selection.{Request}

pub record SavedPlan : Type 0 where
  pub plan : Plan
  pub request : Request
  pub created_at : ℕ

pub data Removal : Type 0 where
  removed not_exist : Removal
  refused : String → Removal

-- The calls that `readJSON`, `writeJSON` and `os.Remove` make on the files of the directories
-- `plans` and `transactions`, by the name without `.json`.
pub record Files (W : Type 0) : Type 0 where
  pub read_plan : Text → W → Result String SavedPlan
  pub remove_plan : Text → W → Removal × W
  pub write_transaction : Text → Transaction → W → Option String × W

abbrev pub is_between : ℕ → ℕ → ℕ → Bool
is_between low high r = leb low r && leb r high

abbrev pub is_char : ℕ → ℕ → Bool
is_char c r = is_between c c r

unfoldable pub is_record_char : ℕ → Bool
is_record_char r =
    is_between b'a' b'z' r
    || is_between b'A' b'Z' r
    || is_between b'0' b'9' r
    || is_char b'-' r
    || is_char b'_' r

-- `validRecordID`.
unfoldable pub valid_record_id : String → Bool
unfolding is_record_char
valid_record_id id =
    let value = trim_space (codes id) in not (is_empty value) && all is_record_char value

-- `safeName`. The first argument is Go's lower case of a code point.
abbrev pub safe_char : ℕ → ℕ
safe_char r =
    if is_between b'a' b'z' r || is_between b'0' b'9' r || is_char b'-' r || is_char b'_' r
    then r
    else b'-'

unfoldable pub safe_name : (ℕ → ℕ) → String → Text
safe_name lower value =
    trim (λ r. is_char b'-' r) (map safe_char (map lower (trim_space (codes value))))

-- `redactPersistedText`. The first argument is `redact.Text`, regular expressions of Go's library.
unfoldable pub redact_persisted_text : (String → String) → String → String
redact_persisted_text redact value = if redact value == value then value else "[REDACTED]"

abbrev pub persisted_error : String
persisted_error = "action failed; detailed process error output was not persisted"

unfoldable pub minimized_action : (String → String) → TransactionAction → TransactionAction
unfolding redact_persisted_text
minimized_action redact a = record a {
  args = [];
  output = "";
  output_truncated = a.output_truncated || not (a.output == "");
  error = if a.error == "" then "" else persisted_error;
  verification = redact_persisted_text redact a.verification;
}

unfoldable pub minimized_transaction : (String → String) → Transaction → Transaction
minimized_transaction redact value = record value {
  actions = map (minimized_action redact) value.actions;
}

-- The store: its files, and the functions of Go's library and of `redact` that it calls.
pub record Store (W : Type 0) : Type 0 where
  pub files : Files W
  pub lower : ℕ → ℕ
  pub redact : String → String

module _ {W : Type 0} (s : Store W) where
  unfoldable pub load_plan : String → W → Result String SavedPlan
  load_plan id w =
      if valid_record_id id
      then s.files.read_plan (safe_name s.lower id) w
      else err "plan id is empty or invalid"

  abbrev pub removal_error : Removal → Option String
  removal_error removed = none
  removal_error not_exist = none
  removal_error (refused message) = some message

  abbrev pub consumed : Removal × W → Option String × W
  consumed (r, w) = (removal_error r, w)

  unfoldable pub delete_plan : String → W → Option String × W
  delete_plan id w =
      if valid_record_id id
      then consumed (s.files.remove_plan (safe_name s.lower id) w)
      else (some "plan id is empty or invalid", w)

  unfoldable pub save_transaction : Transaction → W → Option String × W
  save_transaction value w =
      if valid_record_id value.id
      then s.files.write_transaction (safe_name s.lower value.id)
          (minimized_transaction s.redact value) w
      else (some "transaction id is empty or invalid", w)
