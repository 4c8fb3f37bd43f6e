-- ===== src/Planner/Selection.antt =====
-- internal/planner/planner.go: the requests, the errors, the selection that a request asks for, and
-- `expandDependencies`. A map from strings to true is the list of its keys.
use Prim.Native.String.{String}
use agent_stack_manager.Prelude.{
  ℕ, zero, suc, ◌+◌, Bool, not, Option, none, some, List, [], ◌∷◌, ◌++◌, Result, ok, err, ◌>>=◌,
  ◌>>◌, ensure, length, if◌then◌else◌,
}
use agent_stack_manager.Prelude.Maps.{Keys, Map, mem, add, remove}
use agent_stack_manager.Model.{Component, Catalog, component_by_id}

pub record Request : Type 0 where
  pub profile : String
  pub include : List String
  pub exclude : List String
  pub allow_credentialed : Bool
  pub allow_upgrades : Bool
  pub provider_overrides : Map String

-- One constructor for each error message, with what the message names. `out_of_fuel` is none of the
-- program's.
pub data PlanError : Type 0 where
  unknown_profile : String → PlanError
  unknown_included : String → PlanError
  unknown_excluded : String → PlanError
  included_and_excluded : String → PlanError
  unknown_override : String → String → PlanError
  wrong_capability : String → String → PlanError
  override_excluded : String → String → PlanError
  missing_component : String → PlanError
  depends_on_excluded : String → String → PlanError
  multiple_providers : String → List String → PlanError
  dependency_cycle : String → PlanError
  unknown_action : String → PlanError
  out_of_fuel : PlanError

abbrev pub found : {A : Type 0} → PlanError → Option A → Result PlanError A
found e none = err e
found e (some a) = ok a

-- The loops over the profile, `Include` and `Exclude`.
unfoldable pub add_all : List String → Keys → Keys
add_all [] s = s
add_all (id ∷ ids) s = add_all ids (add id s)

pub record Selection : Type 0 where
  pub selected : Keys
  pub included : Keys
  pub excluded : Keys

unfoldable pub include_all : Catalog → List String → Selection → Result PlanError Selection
include_all c [] s = ok s
include_all c (id ∷ ids) s = do
  k ← found (unknown_included id) (component_by_id c id)
  include_all c ids (record s { included = add id s.included; selected = add id s.selected })

unfoldable pub exclude_all : Catalog → List String → Selection → Result PlanError Selection
exclude_all c [] s = ok s
exclude_all c (id ∷ ids) s = do
  k ← found (unknown_excluded id) (component_by_id c id)
  ensure (not (mem id s.included)) (included_and_excluded id)
  exclude_all c ids (record s { excluded = add id s.excluded; selected = remove id s.selected })

-- The body of the inner loop of `expandDependencies`: the queue and the selection.
unfoldable pub select_dependencies :
    String → List String → Keys → List String × Keys → Result PlanError (List String × Keys)
select_dependencies id [] excluded s = ok s
select_dependencies id (d ∷ ds) excluded (queue, selected) = do
  ensure (not (mem d excluded)) (depends_on_excluded id d)
  select_dependencies id ds excluded
      (if mem d selected then (queue, selected) else (queue ++ d ∷ [], d ∷ selected))

-- The loop of `expandDependencies`, a step for each element that it takes off the queue.
unfoldable pub expand_queue : ℕ → Catalog → Keys → List String → Keys → Result PlanError Keys
expand_queue fuel c excluded [] selected = ok selected
expand_queue zero c excluded (id ∷ queue) selected = err out_of_fuel
expand_queue (suc fuel) c excluded (id ∷ queue) selected = do
  k ← found (missing_component id) (component_by_id c id)
  s ← select_dependencies k.id k.depends_on excluded (queue, selected)
  expand_queue fuel c excluded s.0 s.1

abbrev pub all_dependencies : List Component → List String
all_dependencies [] = []
all_dependencies (k ∷ ks) = k.depends_on ++ all_dependencies ks

-- Each step takes one element off the queue, and what is put on it was a dependency not selected
-- before.
unfoldable pub expand_dependencies : Catalog → Keys → Keys → Result PlanError Keys
expand_dependencies c selected excluded =
    expand_queue (length selected + length (all_dependencies c.components)) c excluded selected
      selected
