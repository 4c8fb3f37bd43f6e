-- ===== src/ResourceHub/Planned.antt =====
-- internal/resourcehub/sync.go: the operations of a plan, and what justifies them.
use Prim.Native.String.{String}
use text.Mathlib.Text.{◌==◌}
use text.Mathlib.TextEquality.{eq_iff}
use agent_stack_manager.Prelude.{
  ◌≡◌, refl, subst, ap, ◌∙◌, inl, inr, ℕ, Bool, true, false, Bool-cases, Option-cases, ◌&&◌, List,
  [], ◌∷◌, Result, ok, err, Result-cases, with_ok, ok-subst, arith, All, All-append, MemOf, here,
  there,
}
use agent_stack_manager.Prelude.Maps.{Keys, Map, mem, lookup}
use agent_stack_manager.Prelude.Sorting.{All-sort_stable}
use agent_stack_manager.ResourceHub.Types.{
  Resource, Target, Registry, SyncOperation, SyncPlan, PlanOptions, ManagedEntry, ManagedState,
}
use agent_stack_manager.ResourceHub.Destinations.{supports_agent}
use agent_stack_manager.ResourceHub.Files.{FileError, not_exist}
use agent_stack_manager.ResourceHub.Hub.{Hub, failing, load_managed_state, sync_plan_digest}
use agent_stack_manager.ResourceHub.Choosing.{choose, audited, destination_of}
use agent_stack_manager.ResourceHub.Justified.{Justified, choose-MayPlan, audited-IsAudited}
use agent_stack_manager.ResourceHub.Planning.{
  Planned, plan_resource, plan_id, plan_ids, plan_removal, plan_removals, pruned, plan_operations,
  find_target, draft, signed, prepare, plan_sync, selected_ids, by_destination, stored,
}

module _ {S : Type 0} (h : Hub S) (s : S) (options : PlanOptions) (state : ManagedState) where
  abbrev Fine : SyncOperation → Type 0
  Fine = Justified h s options.allow_risk state.entries

  plan_resource-Fine :
      (target : Target) (id : String) (resource : Resource) (op : SyncOperation)
      → plan_resource h s target options state id resource ≡ ok op
      → Fine op
  unfolding plan_resource
  plan_resource-Fine target id resource op e = with_ok {m = audited h s options id} e λ u audit e₁.
      with_ok {m = destination_of h s target resource} e₁ λ destination place e₂.
        with_ok {m = choose h s target resource id destination (lookup destination state.entries)}
          e₂
          λ c choice e₃. ok-subst Fine e₃ (
            choose-MayPlan h s options.allow_risk state.entries target resource id destination c
              (audited-IsAudited h s options.allow_risk state.entries options id refl audit) choice)

  plan_id-Fine :
      (registry : Registry) (target : Target) (id : String) (p q : Planned)
      → All Fine p.operations
      → plan_id h s registry target options state id p ≡ ok q
      → All Fine q.operations
  unfolding plan_id
  plan_id-Fine registry target id p q fine e = elim (Option-cases (lookup id registry.resources)) [
    | inl missing ↦ absurd (ground (arith, missing, e))
    | inr (resource, found) ↦
        elim (Bool-cases (resource.enabled && supports_agent resource target.agent)) [
          | inr skipped ↦
              ok-subst (λ (r : Planned). All Fine r.operations) (rw (plan_id, found, skipped) at e)
                fine
          | inl taken ↦
              with_ok {m = plan_resource h s target options state id resource}
                (rw (plan_id, found, taken) at e)
                λ op planned last.
                  ok-subst (λ (r : Planned). All Fine r.operations) last
                    (All-append Fine p.operations (op ∷ []) fine
                      (plan_resource-Fine target id resource op planned, tt))
        ]
  ]

  plan_ids-Fine :
      (registry : Registry) (target : Target) (ids : List String) (p q : Planned)
      → All Fine p.operations
      → plan_ids h s registry target options state ids p ≡ ok q
      → All Fine q.operations
  unfolding plan_ids
  plan_ids-Fine registry target [] p q fine e =
      ok-subst (λ (r : Planned). All Fine r.operations) e fine
  plan_ids-Fine registry target (id ∷ ids) p q fine e =
      with_ok {m = plan_id h s registry target options state id p} e λ r step last.
        plan_ids-Fine registry target ids r q (plan_id-Fine registry target id p r fine step) last

  plan_removal-Fine :
      (selected : Keys) (destination : String) (managed : ManagedEntry) (ops : List SyncOperation)
      → MemOf (destination, managed) state.entries
      → plan_removal h s selected destination managed ≡ ok ops
      → All Fine ops
  unfolding plan_removal
  plan_removal-Fine selected destination managed ops m e =
      elim (Bool-cases (mem destination selected)) [
        | inl kept ↦ ok-subst (All Fine) (rw (plan_removal, kept) at e) tt
        | inr dropped ↦ elim (Result-cases (h.files.tree_digest destination s)) [
          | inr (not_exist, digest) ↦
              ok-subst (All Fine) (rw (plan_removal, dropped, digest) at e) tt
          | inr (_, digest) ↦ absurd (ground (arith, dropped, digest, e))
          | inl (current, digest) ↦
              ok-subst (All Fine) (rw (plan_removal, dropped, digest) at e)
                (elim (Bool-cases (current == managed.digest)) [
                  | inl same ↦ (
                    rw same
                        (managed, m, refl, digest ∙ ap ok ((eq_iff current managed.digest).0 same)),
                    tt,
                  )
                  | inr changed ↦ (rw changed digest, tt)
                ])
        ]
      ]

  plan_removals-Fine :
      (selected : Keys) (entries : Map ManagedEntry) (ops : List SyncOperation)
      → ((d : String) (e : ManagedEntry) → MemOf (d, e) entries → MemOf (d, e) state.entries)
      → plan_removals h s selected entries ≡ ok ops
      → All Fine ops
  unfolding plan_removals
  plan_removals-Fine selected [] ops w e = ok-subst (All Fine) e tt
  plan_removals-Fine selected ((destination, managed) ∷ entries) ops w e =
      with_ok {m = plan_removal h s selected destination managed} e λ first one e₁.
        with_ok {m = plan_removals h s selected entries} e₁ λ later rest e₂.
          ok-subst (All Fine) e₂ (
            All-append Fine first later
              (plan_removal-Fine selected destination managed first (w destination managed here)
                one)
              (plan_removals-Fine selected entries later (λ d x m. w d x (there m)) rest))

  pruned-Fine :
      (prune : Bool) (p : Planned) (ops : List SyncOperation)
      → All Fine p.operations
      → pruned h s prune p state.entries ≡ ok ops
      → All Fine ops
  unfolding pruned
  pruned-Fine false p ops fine e = ok-subst (All Fine) e fine
  pruned-Fine true p ops fine e =
      with_ok {m = plan_removals h s p.selected state.entries} e λ removals found last.
        ok-subst (All Fine) last (
          All-append Fine p.operations removals fine
            (plan_removals-Fine p.selected state.entries removals (λ d x m. m) found))

  pub plan_operations-Justified :
      (registry : Registry) (target : Target) (asked : List String) (ops : List SyncOperation)
      → plan_operations h s registry target options state asked ≡ ok ops
      → All (Justified h s options.allow_risk state.entries) ops
  unfolding plan_operations
  plan_operations-Justified registry target asked ops e =
      let none_yet : Planned = record { operations = []; selected = [] } in
      let ids = selected_ids target registry.resources asked in
      with_ok {m = plan_ids h s registry target options state ids none_yet} e λ p first e₁.
        with_ok {m = pruned h s options.prune p state.entries} e₁ λ all second e₂.
          ok-subst (All Fine) e₂ (
            All-sort_stable (by_destination h s) Fine all (
              pruned-Fine options.prune p all
                (plan_ids-Fine registry target ids none_yet p tt first) second))

-- The state that a plan was made from justifies its operations.
abbrev pub IsJustifiedBy : {S : Type 0} → Hub S → S → PlanOptions → SyncPlan → ManagedState → Type 0
IsJustifiedBy h s options plan state =
    All (Justified h s options.allow_risk state.entries) plan.operations

signed-IsJustifiedBy :
    {S : Type 0} (h : Hub S) (s : S) (options : PlanOptions) (state : ManagedState)
    (made plan : SyncPlan)
    → signed h s made ≡ ok plan
    → IsJustifiedBy h s options made state
    → IsJustifiedBy h s options plan state
unfolding signed
signed-IsJustifiedBy h s options state made plan e fine =
    with_ok {m = sync_plan_digest h made} e
      λ digest d last. ok-subst (λ (p : SyncPlan). IsJustifiedBy h s options p state) last fine

prepare-Justified :
    {S : Type 0} (h : Hub S) (s : S) (options : PlanOptions) (target_id : String)
    (asked : List String) (now : ℕ) (plan : SyncPlan)
    → prepare h s target_id asked options now ≡ ok plan
    → (state : ManagedState) × (load_managed_state h target_id s ≡ ok state)
      × IsJustifiedBy h s options plan state
unfolding prepare
prepare-Justified h s options target_id asked now plan e =
    with_ok {m = failing (h.load_registry s)} e λ registry r e₁.
      with_ok {m = find_target registry.targets target_id} e₁ λ target t e₂.
        with_ok {m = load_managed_state h target_id s} e₂ λ state loaded e₃.
          with_ok {m = plan_operations h s registry target options state asked} e₃ λ ops planned e₄.
            with_ok {m = failing (h.registry_json registry)} e₄ λ digest d e₅. (
              state,
              loaded,
              signed-IsJustifiedBy h s options state (draft h s target_id options now digest ops)
                  plan e₅
                  (plan_operations-Justified h s options state registry target asked ops planned),
            )

stored-eq-ok :
    {S : Type 0} (made plan : SyncPlan) (run : Result FileError (Unit {0}) × S) (s' : S)
    → stored made run ≡ (ok plan, s')
    → made ≡ plan
stored-eq-ok made plan (err e, s) s' h = absurd (cc)
stored-eq-ok made plan (ok _, s) s' h = cc

-- If the plan of a synchronisation is returned, then each of its operations is justified by the disk
-- and by the state of managed destinations, as they were: it creates only what is absent, and
-- updates or removes only what the program itself put there for the same resource and nobody changed
-- since. Without the option to allow risk it creates and updates nothing that the audit blocks.
pub plan_sync-Justified :
    {S : Type 0} (h : Hub S) (target_id : String) (asked : List String) (options : PlanOptions)
    (now : ℕ) (s s' : S) (plan : SyncPlan)
    → plan_sync h target_id asked options now s ≡ (ok plan, s')
    → (state : ManagedState) × (load_managed_state h target_id s ≡ ok state)
      × IsJustifiedBy h s options plan state
unfolding plan_sync prepare
plan_sync-Justified h target_id asked options now s s' plan e =
    elim (Result-cases (prepare h s target_id asked options now)) [
      | inr (x, failed) ↦ absurd (ground (arith, rw (plan_sync, failed) at e))
      | inl (made, prepared) ↦
          let same = stored-eq-ok made plan _ s' (rw (plan_sync, prepared) at e) in
          let (state, loaded, fine) =
            prepare-Justified h s options target_id asked now made prepared in
          (state, loaded, subst (λ (p : SyncPlan). IsJustifiedBy h s options p state) same fine)
    ]
