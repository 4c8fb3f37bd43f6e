-- ===== src/Planner/Safety.antt =====
-- What each action of a plan is allowed to do to the machine.
use Prim.Native.String.{String}
use text.Mathlib.Text.{◌==◌}
use text.Mathlib.TextEquality.{eq_iff}
use agent_stack_manager.Prelude.Maps.{mem_self, Keys, Map, mem, lookup}
use agent_stack_manager.Prelude.{
  ℕ, ◌≡◌, ◌≢◌, sym, ◌∙◌, subst, ◌⊎◌, inl, inr, Bool, true, false, some, List, [], ◌∷◌, MemOf, All,
  arith, ok, Bool-cases,
}
use agent_stack_manager.Prelude.Sorting.{All-sort_stable}
use agent_stack_manager.Model.{ActionKind, Component, Catalog, Inventory, PlanAction, Plan}
use agent_stack_manager.Planner.Selection.{Request}
use agent_stack_manager.Planner.Actions.{action_for, item_of, actions_of, comes_before}
use agent_stack_manager.Planner.Visits.{ids_of, action_by_id, zero_action}
use agent_stack_manager.Planner.Build.{build}
use agent_stack_manager.Planner.Placement.{AllFrom}
use agent_stack_manager.Planner.Run.{build-Run}
use agent_stack_manager.Planner.Topological.{order_by_dependencies-IsOrder}

-- The actions that change the machine.
abbrev pub is_mutating : ActionKind → Bool
is_mutating ActionKind.install = true
is_mutating ActionKind.repair = true
is_mutating ActionKind.configure = true
is_mutating _ = false

-- What the planner has checked before it gives a component an action.
pub record Justified (request : Request) (inventory : Inventory) (providers : Map String)
    (c : Catalog) (a : PlanAction) : Type 0 where
  pub component : Component
  pub listed : MemOf component c.components
  pub same_id : a.component_id ≡ component.id
  pub same_install : a.install ≡ component.install
  pub fresh :
      a.kind ≡ ActionKind.install
      → ((item_of inventory component.id).installed ≡ false)
        × ((item_of inventory component.id).incompatible ≡ false)
        × ((item_of inventory component.id).broken ≡ false)
  pub repairs :
      a.kind ≡ ActionKind.repair
      → ((item_of inventory component.id).broken ≡ true)
        ⊎ (((item_of inventory component.id).incompatible ≡ true) × (request.allow_upgrades ≡ true))
  pub upgrades :
      a.upgrade ≡ true
      → ((item_of inventory component.id).incompatible ≡ true) × (request.allow_upgrades ≡ true)
  pub consent :
      is_mutating a.kind ≡ true
      → component.credential_required ≡ true
      → request.allow_credentialed ≡ true
  pub provides :
      is_mutating a.kind ≡ true
      → (id : String) → component.capability ≢ ""
      → lookup component.capability providers ≡ some id
      → id ≡ component.id

module _ (request : Request) (inventory : Inventory) (providers : Map String) where
  action_for-Justified :
      (c : Catalog) (k : Component)
      → MemOf k c.components
      → Justified request inventory providers c (action_for request inventory providers k)
  action_for-Justified c k m = record {
    component = k;
    listed = m;
    same_id = unfold action_for in ground arith;
    same_install = unfold action_for in ground arith;
    fresh = λ e. unfold action_for in ground arith;
    repairs = λ e. unfold action_for in ground arith;
    upgrades = λ e. unfold action_for in ground arith;
    consent = λ e f. unfold action_for in ground arith;
    provides =
        λ e id n l. unfold action_for in ground (arith, eq_iff k.capability "", eq_iff id k.id);
  }

-- `byID` holds actions of the list.
All-action_by_id :
    (P : PlanAction → Type 0) (xs : List PlanAction) (b : PlanAction) (id : String)
    → All P xs
    → (mem id (ids_of xs) ≡ true) ⊎ P b
    → P (action_by_id xs b id)
unfolding action_by_id mem
All-action_by_id P [] b id h (inl m) = cc
All-action_by_id P [] b id h (inr p) = p
All-action_by_id P (x ∷ xs) b id h m = elim (Bool-cases (x.component_id == id)) [
  | inl e ↦ rw (e, action_by_id) (All-action_by_id P xs x id h.1 (inr h.0))
  | inr e ↦ rw (e, action_by_id) (All-action_by_id P xs b id h.1 (still e m))
]
  where
    still :
        (x.component_id == id) ≡ false
        → (mem id (ids_of (x ∷ xs)) ≡ true) ⊎ P b
        → (mem id (ids_of xs) ≡ true) ⊎ P b
    still e (inl n) = inl (ground arith)
    still e (inr p) = inr p

All-AllFrom :
    (P : PlanAction → Type 0) (actions xs : List PlanAction)
    → All P actions
    → AllFrom actions xs
    → ((x : String) → mem x (ids_of xs) ≡ true → mem x (ids_of actions) ≡ true)
    → All P xs
All-AllFrom P actions [] h f w = tt
All-AllFrom P actions (a ∷ rest) h f w = (
  subst P (sym f.0) (
      All-action_by_id P actions zero_action a.component_id h
        (inl (w a.component_id (mem_self a.component_id (ids_of rest))))),
  All-AllFrom P actions rest h f.1 (λ x m. w x (unfold mem in ground arith)),
)

module _ (request : Request) (inventory : Inventory) (providers : Map String) (selected : Keys)
    (c : Catalog) where
  All-actions_of :
      (ks : List Component)
      → ((k : Component) → MemOf k ks → MemOf k c.components)
      → All
          (Justified request inventory providers c)
          (actions_of request inventory providers selected ks)
  unfolding actions_of
  All-actions_of [] w = tt
  All-actions_of (k ∷ ks) w = elim (Bool-cases (mem k.id selected)) [
    | inl e ↦ rw e (
      action_for-Justified request inventory providers c k (w k MemOf.here),
      All-actions_of ks (λ j m. w j (MemOf.there m)),
    )
    | inr e ↦ rw e (All-actions_of ks (λ j m. w j (MemOf.there m)))
  ]

-- Every action of a plan that `Build` returns is justified. It is that of a component of the catalog.
-- It installs only what the inventory does not have, repairs only what is broken or what an allowed
-- upgrade replaces, upgrades only with the request's consent, changes nothing for a component that
-- needs credentials without the request's consent, and of a capability it changes only the provider
-- that the plan names.
pub build-Justified :
    (now : ℕ) (c : Catalog) (inventory : Inventory) (request : Request) (plan : Plan)
    → build now c inventory request ≡ ok plan
    → All (Justified request inventory plan.providers c) plan.actions
build-Justified now c inventory request plan h =
    let r = build-Run now c inventory request plan h in
    let o = order_by_dependencies-IsOrder c _ plan.actions r.order_ok in
    subst (λ (m : Map String). All (Justified request inventory m c) plan.actions) r.providers_ok
      (All-AllFrom _ _ plan.actions
        (All-sort_stable (comes_before c) _ _
          (All-actions_of request inventory r.active r.selected c c.components (λ k m. m)))
        o.from (λ x m. sym (o.complete x) ∙ m))
