-- ===== src/Planner/Providers.antt =====
-- internal/planner/planner.go: the active providers, `reconcileActiveProviders`.
use Prim.Native.String.{String}
use text.Mathlib.Text.{◌==◌}
use agent_stack_manager.Prelude.{
  Bool, true, not, ◌&&◌, none, some, List, [], ◌∷◌, ◌++◌, Result, ok, err, ◌>>=◌, ◌>>◌, ensure, ltb,
  length, if◌then◌else◌,
}
use agent_stack_manager.Prelude.Text.{is_before}
use agent_stack_manager.Prelude.Maps.{Keys, Map, mem, add, lookup, insert, delete}
use agent_stack_manager.Prelude.Sorting.{sort_stable}
use agent_stack_manager.Model.{Component, Catalog, component_by_id}
use agent_stack_manager.Planner.Selection.{
  PlanError, unknown_override, wrong_capability, override_excluded, multiple_providers, found,
}

-- The preferred provider of each capability: the last one that the catalog names.
unfoldable pub preferred_providers : List Component → Map String → Map String
preferred_providers [] active = active
preferred_providers (k ∷ ks) active =
    preferred_providers ks
      (if k.preferred && not (k.capability == "") then insert k.capability k.id active else active)

unfoldable pub override_providers :
    Catalog → Keys → Map String → Keys × Map String → Result PlanError (Keys × Map String)
override_providers c excluded [] s = ok s
override_providers c excluded ((capability, id) ∷ rest) (selected, active) = do
  k ← found (unknown_override capability id) (component_by_id c id)
  ensure (k.capability == capability) (wrong_capability id capability)
  ensure (not (mem id excluded)) (override_excluded capability id)
  override_providers c excluded rest (add id selected, insert capability id active)

-- The selected components of each capability, in the order in which the catalog first names one.
unfoldable pub selected_by_capability :
    List Component → Keys → Map (List String) → Map (List String)
selected_by_capability [] selected m = m
selected_by_capability (k ∷ ks) selected m =
    let before : List String = elim (lookup k.capability m) [ none ↦ [] | some ids ↦ ids ] in
    selected_by_capability ks selected (
      if mem k.id selected && not (k.capability == "")
      then insert k.capability (before ++ k.id ∷ []) m
      else m)

-- Is the active provider of the capability selected? For none, Go looks the empty text up.
unfoldable pub is_active_selected : String → Keys → Map String → Bool
is_active_selected capability selected active = elim (lookup capability active) [
  | none ↦ mem "" selected
  | some id ↦ mem id selected
]

unfoldable pub choose_provider : String → List String → Map String → Result PlanError (Map String)
choose_provider capability [] active = ok (delete capability active)
choose_provider capability (id ∷ []) active = ok (insert capability id active)
choose_provider capability candidates active =
    err (multiple_providers capability (sort_stable is_before candidates))

unfoldable pub reconcile_each :
    Map (List String) → Keys → Map String → Result PlanError (Map String)
reconcile_each [] selected active = ok active
reconcile_each ((capability, candidates) ∷ rest) selected active = do
  active' ←
      if is_active_selected capability selected active
      then ok active
      else choose_provider capability candidates active
  reconcile_each rest selected active'

-- The last loop of `reconcileActiveProviders`.
unfoldable pub drop_unselected : Map String → Keys → Map (List String) → Map String
drop_unselected [] selected by_capability = []
drop_unselected ((capability, id) ∷ rest) selected by_capability =
    let later = drop_unselected rest selected by_capability in
    let unused : Bool = elim (lookup capability by_capability) [
      | none ↦ true
      | some ids ↦ ltb (length ids) 1
    ] in
    if not (mem id selected) && unused then later else (capability, id) ∷ later

unfoldable pub reconcile_active_providers :
    Catalog → Keys → Map String → Result PlanError (Map String)
reconcile_active_providers c selected active = do
  let by_capability = selected_by_capability c.components selected []
  active' ← reconcile_each by_capability selected active
  ok (drop_unselected active' selected by_capability)
