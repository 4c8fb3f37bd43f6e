-- ===== src/Runner/Effects.antt =====
-- What applying a plan does to the machine.
use Prim.Native.String.{String}
use text.Mathlib.Text.{◌==◌}
use agent_stack_manager.Prelude.{
  ◌≡◌, refl, sym, subst, inl, inr, true, false, Option, none, some, List, [], ◌∷◌, ok, Bool-cases,
  Option-cases, Result-cases, arith, MemOf, here, there,
}
use agent_stack_manager.Prelude.Maps.{Map}
use agent_stack_manager.Model.{
  Component, Plan, PlanAction, Transaction, TransactionAction, component_by_id,
}
use agent_stack_manager.Runner.Invocations.{Invocation, CommandResult, invocation_for}
use agent_stack_manager.Runner.Engine.{
  Engine, ApplyOptions, Callback, VerificationResult, installs, dry_step, install_skill,
  call_installer, is_skill_pack, is_winget, refresh_path, judged, conclude, install_step,
  action_step, failed_dependency, new_record, with_result,
}
use agent_stack_manager.Runner.Apply.{
  Progress, settle, published, checkpoint, apply_each, conclude_apply, close_journal,
  apply_published, apply, publish, new_transaction, continue_with-keeps,
}

-- `P` survives the journal's callback; and if the run is not dry, the commands of the installations
-- and repairs among `actions`, the skill installer, the refresh of the path and the verifier.
pub record Permits {ℓ} {W : Type 0} (e : Engine W) (options : ApplyOptions W)
    (actions : List PlanAction) (P : W → Type ℓ) : Type ℓ where
  pub journals :
      (callback : Callback W) (tx : Transaction) (w : W)
      → options.on_update ≡ some callback
      → P w
      → P (callback tx w).1
  pub runs :
      (a : PlanAction) (i : Invocation) (w : W)
      → options.dry_run ≡ false
      → MemOf a actions
      → installs a.kind ≡ true
      → invocation_for e.quoted a ≡ ok i
      → P w
      → P (e.commands i w).1
  pub installs_skill :
      (install : Component → W → CommandResult × W) (k : Component) (w : W)
      → options.dry_run ≡ false
      → e.skills ≡ some install
      → P w
      → P (install k w).1
  pub refreshes : (w : W) → options.dry_run ≡ false → P w → P (e.path w).1
  pub verifies :
      (verify : Component → PlanAction → CommandResult → W → VerificationResult × W) (k : Component)
      (a : PlanAction) (result : CommandResult) (w : W)
      → options.dry_run ≡ false
      → e.verifier ≡ some verify
      → P w
      → P (verify k a result w).1

module _ {ℓ} {W : Type 0} (e : Engine W) (options : ApplyOptions W) (actions : List PlanAction)
    (P : W → Type ℓ) (safe : Permits e options actions P) where
  held : {x y : W} → y ≡ x → P x → P y
  held same h = subst P (sym same) h

  install_skill-keeps :
      (a : PlanAction) (w : W) → options.dry_run ≡ false → P w → P (install_skill e a w).1
  unfolding install_skill
  install_skill-keeps a w wet h = elim (Option-cases (component_by_id e.catalog a.component_id)) [
    | inl missing ↦ held (ground (arith, missing)) h
    | inr (k, found) ↦ elim (Option-cases e.skills) [
      | inl no_skills ↦ held (ground (arith, found, no_skills)) h
      | inr (install, has) ↦
          held (ground (arith, found, has)) (safe.installs_skill install k w wet has h)
    ]
  ]

  call_installer-keeps :
      (a : PlanAction) (entry : TransactionAction) (w : W)
      → options.dry_run ≡ false
      → MemOf a actions
      → installs a.kind ≡ true
      → P w
      → P (call_installer e a entry w).2
  unfolding call_installer
  call_installer-keeps a entry w wet m i h = elim (Bool-cases (is_skill_pack a.install.kind)) [
    | inl skill ↦ held (ground (arith, skill)) (install_skill-keeps a w wet h)
    | inr no_skill ↦ elim (Result-cases (invocation_for e.quoted a)) [
      | inl (c, called) ↦ held (ground (arith, no_skill, called)) (safe.runs a c w wet m i called h)
      | inr (message, refused) ↦ held (ground (arith, no_skill, refused)) h
    ]
  ]

  refresh_path-keeps :
      (a : PlanAction) (result : CommandResult) (w : W)
      → options.dry_run ≡ false
      → P w
      → P (refresh_path e a result w).1
  unfolding refresh_path
  refresh_path-keeps a result w wet h = elim (Option-cases result.error) [
    | inr (message, failed) ↦ held (ground (arith, failed)) h
    | inl fine ↦ elim (Bool-cases (is_winget a.install.kind)) [
      | inl asked ↦ held (ground (arith, fine, asked)) (safe.refreshes w wet h)
      | inr other ↦ held (ground (arith, fine, other)) h
    ]
  ]

  judged-world :
      (entry : TransactionAction) (v : VerificationResult × W) → (judged e entry v).world ≡ v.1
  unfolding judged
  judged-world entry (v, w) = ground arith

  conclude-keeps :
      (a : PlanAction) (entry : TransactionAction) (result : CommandResult) (w : W)
      → options.dry_run ≡ false
      → P w
      → P (conclude e a entry result w).world
  unfolding conclude
  conclude-keeps a entry result w wet h = elim (Option-cases result.error) [
    | inr (message, failed) ↦ held (ground (arith, failed)) h
    | inl fine ↦ elim (Option-cases e.verifier) [
      | inl trusted ↦ held (ground (arith, fine, trusted)) h
      | inr (verify, has) ↦ elim (Option-cases (component_by_id e.catalog a.component_id)) [
        | inl missing ↦ held (ground (arith, fine, has, missing)) h
        | inr (k, found) ↦
            held (ground (arith, fine, has, found, judged-world entry (verify k a result w)))
              (safe.verifies verify k a result w wet has h)
      ]
    ]
  ]

  install_step-keeps :
      (a : PlanAction) (entry : TransactionAction) (w : W)
      → options.dry_run ≡ false
      → MemOf a actions
      → installs a.kind ≡ true
      → P w
      → P (install_step e a entry w).world
  unfolding install_step
  install_step-keeps a entry w wet m i h =
      let called = call_installer e a entry w in
      let refreshed = refresh_path e a called.1 called.2 in
      conclude-keeps a (with_result called.0 refreshed.0) refreshed.0 refreshed.1 wet
        (refresh_path-keeps a called.1 called.2 wet (call_installer-keeps a entry w wet m i h))

  dry_step-world :
      (a : PlanAction) (entry : TransactionAction) (w : W) → (dry_step e a entry w).world ≡ w
  unfolding dry_step
  dry_step-world a entry w = ground arith

  action_step-keeps :
      (failed : Map String) (a : PlanAction) (w : W)
      → MemOf a actions
      → P w
      → P (action_step e options.dry_run failed a w).world
  unfolding action_step
  action_step-keeps failed a w m h = elim (Bool-cases (installs a.kind)) [
    | inr other ↦ held (ground (arith, other)) h
    | inl asked ↦ elim (Bool-cases ((failed_dependency e.catalog a.component_id failed).0 == "")) [
      | inr blocked ↦ held (ground (arith, asked, blocked)) h
      | inl free ↦ elim (Bool-cases options.dry_run) [
        | inl dry ↦
            held (ground (arith, asked, free, dry, dry_step-world a (new_record a (e.now w)) w)) h
        | inr wet ↦
            held (ground (arith, asked, free, wet))
              (install_step-keeps a (new_record a (e.now w)) w wet m asked h)
      ]
    ]
  ]

  publish-keeps : (tx : Transaction) (w : W) → P w → P (publish options.on_update tx w).1
  unfolding publish
  publish-keeps tx w h = elim (Option-cases options.on_update) [
    | inl silent ↦ held (ground (arith, silent)) h
    | inr (callback, has) ↦ held (ground (arith, has)) (safe.journals callback tx w has h)
  ]

  published-world : (p : Progress W) (o : Option String × W) → (published e p o).0.world ≡ o.1
  unfolding published
  published-world p (none, w) = refl
  published-world p (some message, w) = refl

  apply_each-keeps :
      (rest : List PlanAction) (p : Progress W)
      → ((a : PlanAction) → MemOf a rest → MemOf a actions)
      → P p.world
      → P (apply_each e options rest p).world
  unfolding apply_each checkpoint settle
  apply_each-keeps [] p sub h = h
  apply_each-keeps (a ∷ rest) p sub h =
      let q = settle e (action_step e options.dry_run p.failed a p.world) p in
      let o = publish options.on_update q.tx q.world in
      let kept : P (published e q o).0.world =
        held (published-world q o)
          (publish-keeps q.tx q.world (action_step-keeps p.failed a p.world (sub a here) h)) in
      continue_with-keeps e (λ r. P r.world) (apply_each e options rest) (published e q o)
        (λ _. kept) (λ _. apply_each-keeps rest (published e q o).0 (λ b m. sub b (there m)) kept)

  close_journal-world : (tx : Transaction) (o : Option String × W) → (close_journal e tx o).1 ≡ o.1
  unfolding close_journal
  close_journal-world tx (none, w) = refl
  close_journal-world tx (some message, w) = refl

  apply_published-keeps :
      (tx : Transaction) (o : Option String × W)
      → P o.1
      → P (apply_published e options actions tx o).1
  unfolding apply_published conclude_apply
  apply_published-keeps tx (none, w) h =
      held (close_journal-world _ _) (publish-keeps _ _ (apply_each-keeps actions _ (λ a m. m) h))
  apply_published-keeps tx (some message, w) h = h

-- Applying a plan changes the machine by nothing but the journal's callback and, if the run is not
-- dry, the commands of the plan's installations and repairs, the skill installer, the refresh of
-- the path and the verifier: what all of these keep holds at the end, if it held at the start.
pub apply-keeps {ℓ} :
    {W : Type 0} (e : Engine W) (plan : Plan) (options : ApplyOptions W) (P : W → Type ℓ) (w : W)
    → Permits e options plan.actions P
    → P w
    → P (apply e plan options w).1
unfolding apply
apply-keeps e plan options P w safe h =
    let tx = new_transaction e options w in
    apply_published-keeps e options plan.actions P safe tx (publish options.on_update tx w)
      (publish-keeps e options plan.actions P safe tx w h)
