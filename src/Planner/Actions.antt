-- ===== src/Planner/Actions.antt =====
-- internal/planner/planner.go: the action of each selected component, and the order of tiers and
-- names.
use Prim.Native.String.{String}
use text.Mathlib.Text.{◌==◌}
use agent_stack_manager.Prelude.{
  ℕ, Bool, true, false, not, ◌&&◌, Option, none, some, List, [], ◌∷◌, ltb, if◌then◌else◌,
}
use agent_stack_manager.Prelude.Text.{concatenated}
use agent_stack_manager.Prelude.Maps.{Keys, Map, mem, lookup}
use agent_stack_manager.Model.{
  Tier, essential, recommended, optional_local, credential, InstallKind, Component, Catalog,
  Inventory, InventoryItem, PlanAction, ActionKind, zero_item, component_by_id,
}
use agent_stack_manager.Planner.Selection.{Request}
use agent_stack_manager.Prelude.Text.{is_before}

abbrev manual_reason : String → String
manual_reason hint =
    if hint == ""
    then "manual component; no automatic mutation"
    else concatenated ("manual component; no automatic mutation" ∷ "; next step: " ∷ hint ∷ [])

abbrev pub new_action : Component → ActionKind → String → PlanAction
new_action k kind reason = record {
  component_id = k.id;
  name = k.name;
  kind = kind;
  reason = reason;
  install = k.install;
  selected = true;
  upgrade = false;
}

-- The last branch of the chain, by the kind of the installation.
unfoldable pub missing_action : InstallKind → Component → PlanAction
missing_action InstallKind.router k =
    new_action k ActionKind.configure
      "add to the AgentStack-managed router profile; child server starts lazily"
missing_action InstallKind.no_install k =
    new_action k ActionKind.skip (manual_reason k.install.login_hint)
missing_action InstallKind.manual k =
    new_action k ActionKind.skip (manual_reason k.install.login_hint)
missing_action _ k = new_action k ActionKind.install "missing selected component"

-- The chain of tests on what the inventory says.
unfoldable pub state_action : Bool → InventoryItem → Component → PlanAction
unfolding missing_action
state_action allow_upgrades item k =
    if item.incompatible && not allow_upgrades
    then new_action k ActionKind.consent_required
        "existing version is incompatible; explicit upgrade consent is required"
    else if item.incompatible
    then record (new_action k ActionKind.repair
        "existing version is incompatible and will be upgraded under explicit consent") {
          upgrade = true;
        }
    else if item.broken
    then new_action k ActionKind.repair
        "AgentStack-managed component is no longer detectable and can be restored"
    else if item.installed
    then new_action k ActionKind.keep "existing installation detected and preserved"
    else missing_action k.install.kind k

unfoldable pub inactive_action : String → InventoryItem → Component → PlanAction
inactive_action active item k =
    if item.installed
    then new_action k ActionKind.preserve_inactive (
        concatenated
          ("preserved on disk; " ∷ active ∷ " is the active provider for " ∷ k.capability ∷ []))
    else new_action k ActionKind.skip_dominated (
        concatenated
          ("not installed because " ∷ active ∷ " is the active provider for " ∷ k.capability ∷ []))

-- The component that provides the capability in place of this one.
unfoldable pub dominating_provider : Map String → Component → Option String
dominating_provider active k =
    if k.capability == "" then none else elim (lookup k.capability active) [
      | none ↦ none
      | some id ↦ if id == k.id then none else some id
    ]

abbrev pub item_of : Inventory → String → InventoryItem
item_of inventory id = elim (lookup id inventory.items) [ none ↦ zero_item | some item ↦ item ]

-- The body of the loop over the selected components.
unfoldable pub action_for : Request → Inventory → Map String → Component → PlanAction
unfolding dominating_provider inactive_action state_action
action_for request inventory active k =
    if k.credential_required && not request.allow_credentialed
    then new_action k ActionKind.consent_required
        "credential or login integration requires explicit consent"
    else elim (dominating_provider active k) [
      | some id ↦ inactive_action id (item_of inventory k.id) k
      | none ↦ state_action request.allow_upgrades (item_of inventory k.id) k
    ]

unfoldable pub actions_of :
    Request → Inventory → Map String → Keys → List Component → List PlanAction
actions_of request inventory active selected [] = []
actions_of request inventory active selected (k ∷ ks) =
    let rest = actions_of request inventory active selected ks in
    if mem k.id selected then action_for request inventory active k ∷ rest else rest

unfoldable pub tier_rank : Tier → ℕ
tier_rank essential = 0
tier_rank recommended = 1
tier_rank optional_local = 2
tier_rank credential = 3
tier_rank (Tier.other t) = 4

-- `left.Tier == right.Tier`.
unfoldable pub same_tier : Tier → Tier → Bool
same_tier essential essential = true
same_tier recommended recommended = true
same_tier optional_local optional_local = true
same_tier credential credential = true
same_tier (Tier.other s) (Tier.other t) = s == t
same_tier _ _ = false

-- The tier and the name of an action's component. An action always has one.
abbrev pub tier_of : Catalog → PlanAction → Tier
tier_of c a = elim (component_by_id c a.component_id) [ none ↦ Tier.other "" | some k ↦ k.tier ]

abbrev pub name_of : Catalog → PlanAction → String
name_of c a = elim (component_by_id c a.component_id) [ none ↦ "" | some k ↦ k.name ]

unfoldable pub comes_before : Catalog → PlanAction → PlanAction → Bool
unfolding same_tier tier_rank
comes_before c a b =
    if same_tier (tier_of c a) (tier_of c b)
    then is_before (name_of c a) (name_of c b)
    else ltb (tier_rank (tier_of c a)) (tier_rank (tier_of c b))
