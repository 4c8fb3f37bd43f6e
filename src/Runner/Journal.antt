-- ===== src/Runner/Journal.antt =====
-- internal/runner/runner.go: dependencies in the journal of an applied plan.
use Prim.Native.String.{String}
use text.Mathlib.TextEquality.{eq_iff}
use agent_stack_manager.Prelude.{
  ℕ, ap, ◌≡◌, refl, sym, ◌∙◌, Bool, true, false, Option, none, some, List, [], ◌∷◌, ◌++◌,
  if◌then◌else◌, arith,
}
use agent_stack_manager.Prelude.Maps.{Map, Keys, mem, lookup, lookup-insert}
use agent_stack_manager.Model.{
  Catalog, Component, Plan, PlanAction, Transaction, TransactionAction, component_by_id,
}
use agent_stack_manager.Runner.Engine.{
  Engine, ApplyOptions, installs, action_step, journal_failure_action,
}
use agent_stack_manager.Runner.Apply.{
  Progress, settle, published, checkpoint, apply_each, conclude_apply, close_journal,
  apply_published, apply, continue_with-keeps, publish, new_transaction,
}
use agent_stack_manager.Runner.Steps.{
  action_step-IsStep, action_step-guarded, failed_dependency-none,
}

-- The components whose records are not verified, after those of `bad`.
abbrev pub unverified_after : Keys → List TransactionAction → Keys
unverified_after bad [] = bad
unverified_after bad (r ∷ rs) =
    unverified_after (if r.verified then bad else r.component_id ∷ bad) rs

-- A record that verifies an installation is of a component none of whose dependencies is in `bad`.
abbrev pub IsGuarded : Catalog → Keys → TransactionAction → Type 0
IsGuarded c bad r =
    (k : Component) (d : String)
    → installs r.kind ≡ true
    → r.verified ≡ true
    → component_by_id c r.component_id ≡ some k
    → mem d k.depends_on ≡ true
    → mem d bad ≡ false

-- Each record of a journal is guarded by those before it.
abbrev pub AllGuarded : Catalog → Keys → List TransactionAction → Type 0
AllGuarded c bad [] = Unit
AllGuarded c bad (r ∷ rs) =
    IsGuarded c bad r × AllGuarded c (if r.verified then bad else r.component_id ∷ bad) rs

AllGuarded-snoc :
    (c : Catalog) (bad : Keys) (rs : List TransactionAction) (r : TransactionAction)
    → AllGuarded c bad rs
    → IsGuarded c (unverified_after bad rs) r
    → AllGuarded c bad (rs ++ r ∷ [])
AllGuarded-snoc c bad [] r h g = (g, tt)
AllGuarded-snoc c bad (x ∷ rs) r h g = (h.0, AllGuarded-snoc c _ rs r h.1 g)

unverified_after-snoc :
    (bad : Keys) (rs : List TransactionAction) (r : TransactionAction)
    → unverified_after bad (rs ++ r ∷ [])
      ≡ (if r.verified then unverified_after bad rs else r.component_id ∷ unverified_after bad rs)
unverified_after-snoc bad [] r = refl
unverified_after-snoc bad (x ∷ rs) r = unverified_after-snoc _ rs r

journal_failure-IsGuarded :
    (c : Catalog) (bad : Keys) (now : ℕ) (message : String)
    → IsGuarded c bad (journal_failure_action now message)
unfolding journal_failure_action installs
journal_failure-IsGuarded c bad now message k d i v e m = cc

abbrev has : String → Map String → Bool
has id m = elim (lookup id m) [ none ↦ false | some _ ↦ true ]

-- The journal is guarded, and the map of failures has the components that are not verified.
record IsKept {W : Type 0} (c : Catalog) (p : Progress W) : Type 0 where
  guarded : AllGuarded c [] p.tx.actions
  known : (id : String) → mem id (unverified_after [] p.tx.actions) ≡ has id p.failed

-- No component depends on the empty id.
abbrev pub HasNoEmptyDependency : Catalog → Type 0
HasNoEmptyDependency c =
    (id : String) (k : Component) → component_by_id c id ≡ some k → mem "" k.depends_on ≡ false

module _ {W : Type 0} (e : Engine W) (named : HasNoEmptyDependency e.catalog) where
  settle-IsKept :
      (dry_run : Bool) (action : PlanAction) (p : Progress W)
      → IsKept e.catalog p
      → IsKept e.catalog (settle e (action_step e dry_run p.failed action p.world) p)
  unfolding settle mem
  settle-IsKept dry_run action p h =
      let s = action_step e dry_run p.failed action p.world in
      let ok = action_step-IsStep e dry_run p.failed action p.world in
      record {
        guarded = AllGuarded-snoc e.catalog [] p.tx.actions s.entry h.guarded (λ k d i v found m.
            let clear =
              action_step-guarded e dry_run p.failed action p.world (sym (ap installs ok.alike) ∙ i)
                v in
            let gone =
              failed_dependency-none e.catalog action.component_id p.failed k d
                (named s.entry.component_id k found) clear (cc) m in
            h.known d ∙ cc);
        known = λ id. ground (
          arith,
          unverified_after-snoc [] p.tx.actions s.entry,
          ok.verified_lem,
          h.known id,
          lookup-insert s.entry.component_id id s.entry.error p.failed,
          eq_iff s.entry.component_id id,
        );
      }

  published-IsKept :
      (p : Progress W) (o : Option String × W)
      → IsKept e.catalog p
      → (published e p o).1 ≡ true
      → IsKept e.catalog (published e p o).0
  unfolding published
  published-IsKept p (none, w) h t = record { guarded = h.guarded; known = h.known }
  published-IsKept p (some message, w) h t = cc

  published-AllGuarded :
      (p : Progress W) (o : Option String × W)
      → AllGuarded e.catalog [] p.tx.actions
      → AllGuarded e.catalog [] (published e p o).0.tx.actions
  unfolding published
  published-AllGuarded p (none, w) h = h
  published-AllGuarded p (some message, w) h =
      AllGuarded-snoc e.catalog [] p.tx.actions _ h
        (journal_failure-IsGuarded e.catalog _ (e.now w) message)

  apply_each-AllGuarded :
      (options : ApplyOptions W) (actions : List PlanAction) (p : Progress W)
      → IsKept e.catalog p
      → AllGuarded e.catalog [] (apply_each e options actions p).tx.actions
  unfolding apply_each checkpoint
  apply_each-AllGuarded options [] p h = h.guarded
  apply_each-AllGuarded options (action ∷ actions) p h =
      let q = settle e (action_step e options.dry_run p.failed action p.world) p in
      let k = settle-IsKept options.dry_run action p h in
      let o = publish options.on_update q.tx q.world in
      continue_with-keeps e (λ r. AllGuarded e.catalog [] r.tx.actions)
        (apply_each e options actions) (published e q o) (λ f. published-AllGuarded q o k.guarded)
        (λ t. apply_each-AllGuarded options actions _ (published-IsKept q o k t))

  close_journal-AllGuarded :
      (tx : Transaction) (o : Option String × W)
      → AllGuarded e.catalog [] tx.actions
      → AllGuarded e.catalog [] (close_journal e tx o).0.actions
  unfolding close_journal
  close_journal-AllGuarded tx (none, w) h = h
  close_journal-AllGuarded tx (some message, w) h =
      AllGuarded-snoc e.catalog [] tx.actions _ h
        (journal_failure-IsGuarded e.catalog _ (e.now w) message)

  apply_published-AllGuarded :
      (options : ApplyOptions W) (actions : List PlanAction) (tx : Transaction)
      (o : Option String × W)
      → tx.actions ≡ []
      → AllGuarded e.catalog [] (apply_published e options actions tx o).0.actions
  unfolding apply_published conclude_apply mem lookup
  apply_published-AllGuarded options actions tx (none, w) n = close_journal-AllGuarded _ _ (
      apply_each-AllGuarded options actions _
        (record { guarded = rw n tt; known = λ id. ground (arith, n) }))
  apply_published-AllGuarded options actions tx (some message, w) n =
      rw n (journal_failure-IsGuarded e.catalog [] (e.now w) message, tt)

  -- If no component of the catalog depends on the empty id: however the commands, the verifier and
  -- the journal's callback behave, in the journal of an applied plan a record that verifies an
  -- installation or a repair stands behind no unverified record of a dependency of its component.
  pub apply-AllGuarded :
      (plan : Plan) (options : ApplyOptions W) (w : W)
      → AllGuarded e.catalog [] (apply e plan options w).0.actions
  unfolding apply
  apply-AllGuarded plan options w =
      let tx = new_transaction e options w in
      apply_published-AllGuarded options plan.actions tx (publish options.on_update tx w) refl
