-- ===== src/State/Persisted.antt =====
-- What a transaction leaves on disk.
use Prim.Native.String.{String}
use text.Mathlib.Text.{◌==◌}
use text.Mathlib.TextEquality.{eq_iff}
use agent_stack_manager.Prelude.{
  ◌≡◌, Bool, not, ◌||◌, false, if◌then◌else◌, refl, ap, ◌∙◌, ◌⊎◌, inl, inr, Bool-cases, List, [],
  ◌∷◌, map, All, arith,
}
use agent_stack_manager.Model.{Transaction, TransactionAction}
use agent_stack_manager.State.Store.{
  minimized_action, minimized_transaction, redact_persisted_text, persisted_error,
}

-- No output, no arguments, no error text, and nothing that `redact` would change.
abbrev pub IsPrivate : (String → String) → TransactionAction → Type 0
IsPrivate redact a =
    (a.args ≡ [])
    × (a.output ≡ "")
    × ((a.error ≡ "") ⊎ (a.error ≡ persisted_error))
    × (redact a.verification ≡ a.verification)

redact_persisted_text-fixed :
    (redact : String → String) (value : String)
    → redact "[REDACTED]" ≡ "[REDACTED]"
    → redact (redact_persisted_text redact value) ≡ redact_persisted_text redact value
unfolding redact_persisted_text
redact_persisted_text-fixed redact value fixed = elim (Bool-cases (redact value == value)) [
  | inl same ↦ rw same ((eq_iff (redact value) value).0 same)
  | inr differs ↦ rw differs fixed
]

minimized_action-IsPrivate :
    (redact : String → String) (a : TransactionAction)
    → redact "[REDACTED]" ≡ "[REDACTED]"
    → IsPrivate redact (minimized_action redact a)
unfolding minimized_action
minimized_action-IsPrivate redact a fixed = (
  refl,
  refl,
  elim (Bool-cases (a.error == "")) [
    | inl silent ↦ inl (ground (arith, silent))
    | inr told ↦ inr (ground (arith, told))
  ],
  redact_persisted_text-fixed redact a.verification fixed,
)

minimized_action-twice :
    (redact : String → String) (a : TransactionAction)
    → redact "[REDACTED]" ≡ "[REDACTED]"
    → minimized_action redact (minimized_action redact a) ≡ minimized_action redact a
unfolding minimized_action redact_persisted_text
minimized_action-twice redact a fixed =
    let v = redact_persisted_text redact a.verification in
    let t = a.output_truncated || not (a.output == "") in
    let x = if a.error == "" then "" else persisted_error in
    let marked = redact_persisted_text-fixed redact a.verification fixed in
    let same_truncated : (t || false) ≡ t = ground arith in
    let same_error : (if x == "" then "" else persisted_error) ≡ x =
      elim (Bool-cases (a.error == "")) [ inl silent ↦ rw silent refl | inr told ↦ rw told refl ] in
    let same_text : redact_persisted_text redact v ≡ v = rw ((eq_iff (redact v) v).1 marked) refl in
    ap (λ b. shown b (if x == "" then "" else persisted_error) (redact_persisted_text redact v))
      same_truncated
    ∙ ap (λ m. shown t m (redact_persisted_text redact v)) same_error
    ∙ ap (λ m. shown t x m) same_text
  where
    shown : Bool → String → String → TransactionAction
    shown truncated message text = record a {
      args = [];
      output = "";
      output_truncated = truncated;
      error = message;
      verification = text;
    }

-- If redaction leaves its own marker as it is, a stored transaction has no arguments, no output and
-- no error text of a child process in any action, and no verification message that redaction would
-- change; and storing what was stored changes nothing more.
pub minimized_transaction_lem :
    (redact : String → String) (tx : Transaction)
    → redact "[REDACTED]" ≡ "[REDACTED]"
    → All (IsPrivate redact) (minimized_transaction redact tx).actions
      × (minimized_transaction redact (minimized_transaction redact tx)
          ≡ minimized_transaction redact tx)
unfolding minimized_transaction
minimized_transaction_lem redact tx fixed =
    (each tx.actions, ap (λ actions. record tx { actions = actions }) (again tx.actions))
  where
    each : (rs : List TransactionAction) → All (IsPrivate redact) (map (minimized_action redact) rs)
    each [] = tt
    each (a ∷ rs) = (minimized_action-IsPrivate redact a fixed, each rs)

    again :
        (rs : List TransactionAction)
        → map (minimized_action redact) (map (minimized_action redact) rs)
          ≡ map (minimized_action redact) rs
    again [] = refl
    again (a ∷ rs) =
        ap (λ b. b ∷ map (minimized_action redact) (map (minimized_action redact) rs))
          (minimized_action-twice redact a fixed)
        ∙ ap (λ bs. minimized_action redact a ∷ bs) (again rs)
