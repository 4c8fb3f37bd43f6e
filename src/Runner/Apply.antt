-- ===== src/Runner/Apply.antt =====
-- internal/runner/runner.go: the journal of `Engine.Apply` and its loop.
use Prim.Native.String.{String}
use agent_stack_manager.Prelude.{
  ◌≡◌, refl, Bool, true, false, Option, none, some, List, [], ◌∷◌, ◌++◌, if◌then◌else◌,
}
use agent_stack_manager.Prelude.Maps.{Map, insert}
use agent_stack_manager.Model.{Plan, PlanAction, Transaction, TransactionStatus}
use agent_stack_manager.Runner.Engine.{
  Engine, Callback, ApplyOptions, Step, journal_failure_action, action_step,
}

unfoldable pub publish : {W : Type 0} → Option (Callback W) → Callback W
publish none tx w = (none, w)
publish (some callback) tx w = callback tx w

-- The transaction, the messages of what has failed, and the state.
pub record Progress (W : Type 0) : Type 0 where
  pub tx : Transaction
  pub failed : Map String
  pub world : W

module _ {W : Type 0} (e : Engine W) where
  -- What follows a failed publication.
  abbrev pub journal_failed : Transaction → String → W → Transaction
  journal_failed tx message w = record tx {
    status = TransactionStatus.failed;
    actions = tx.actions ++ journal_failure_action (e.now w) message ∷ [];
  }

  -- The transaction and the failures once an action is done.
  unfoldable pub settle : Step W → Progress W → Progress W
  settle s p = record {
    tx = record p.tx {
      status = if s.has_failed then TransactionStatus.failed else p.tx.status;
      actions = p.tx.actions ++ s.entry ∷ [];
    };
    failed = if s.has_failed then insert s.entry.component_id s.entry.error p.failed else p.failed;
    world = s.world;
  }

  unfoldable pub published : Progress W → Option String × W → Progress W × Bool
  published p (none, w) = (record p { world = w }, true)
  published p (some message, w) =
      (record p { tx = journal_failed p.tx message w; world = w }, false)

  -- `checkpoint`: the loop goes on if the journal is written.
  unfoldable pub checkpoint : Option (Callback W) → Step W → Progress W → Progress W × Bool
  unfolding settle published publish
  checkpoint update s p = let q = settle s p in published q (publish update q.tx q.world)

  -- The loop goes on, or breaks.
  unfoldable pub continue_with : (Progress W → Progress W) → Progress W × Bool → Progress W
  continue_with next (p, true) = next p
  continue_with next (p, false) = p

  -- The loop over the actions.
  unfoldable pub apply_each : ApplyOptions W → List PlanAction → Progress W → Progress W
  unfolding checkpoint continue_with
  apply_each options [] p = p
  apply_each options (action ∷ actions) p =
      let step = action_step e options.dry_run p.failed action p.world in
      continue_with (apply_each options actions) (checkpoint options.on_update step p)

  -- What holds of a broken loop, and of what comes next of one that goes on.
  pub continue_with-keeps {ℓ} :
      (P : Progress W → Type ℓ) (next : Progress W → Progress W) (c : Progress W × Bool)
      → (c.1 ≡ false → P c.0)
      → (c.1 ≡ true → P (next c.0))
      → P (continue_with next c)
  unfolding continue_with
  continue_with-keeps P next (p, true) h k = k refl
  continue_with-keeps P next (p, false) h k = h refl

  unfoldable pub complete : TransactionStatus → TransactionStatus
  complete TransactionStatus.running = TransactionStatus.succeeded
  complete status = status

  unfoldable pub close_journal : Transaction → Option String × W → Transaction × W
  close_journal tx (none, w) = (tx, w)
  close_journal tx (some message, w) = (journal_failed tx message w, w)

  -- What follows the loop.
  unfoldable pub conclude_apply : Option (Callback W) → Progress W → Transaction × W
  unfolding complete close_journal publish
  conclude_apply update p =
      let tx = record p.tx { status = complete p.tx.status; finished_at = e.now p.world } in
      close_journal tx (publish update tx p.world)

  abbrev pub new_transaction : ApplyOptions W → W → Transaction
  new_transaction options w = record {
    id = e.new_id w;
    correlation_id = options.correlation_id;
    status = if options.dry_run then TransactionStatus.planned else TransactionStatus.running;
    started_at = e.now w;
    finished_at = 0;
    dry_run = options.dry_run;
    actions = [];
  }

  -- The loop and its end, once the new transaction is published.
  unfoldable pub apply_published :
      ApplyOptions W → List PlanAction → Transaction → Option String × W → Transaction × W
  unfolding apply_each conclude_apply
  apply_published options actions tx (none, w) =
      conclude_apply options.on_update
        (apply_each options actions (record { tx = tx; failed = []; world = w }))
  apply_published options actions tx (some message, w) =
      (record (journal_failed tx message w) { finished_at = e.now w }, w)

  unfoldable pub apply : Plan → ApplyOptions W → W → Transaction × W
  unfolding apply_published publish
  apply plan options w =
      let tx = new_transaction options w in
      apply_published options plan.actions tx (publish options.on_update tx w)
