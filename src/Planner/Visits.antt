-- ===== src/Planner/Visits.antt =====
-- internal/planner/planner.go: `orderByDependencies`.
use Prim.Native.String.{String}
use text.Mathlib.Text.{◌==◌}
use agent_stack_manager.Prelude.{
  ℕ, zero, suc, false, none, some, List, [], ◌∷◌, ◌++◌, map, Result, ok, err, ◌>>=◌, length,
  if◌then◌else◌,
}
use agent_stack_manager.Prelude.Maps.{Keys, Map, mem, lookup, insert}
use agent_stack_manager.Model.{InstallKind, Catalog, PlanAction, ActionKind, component_by_id}
use agent_stack_manager.Planner.Selection.{
  PlanError, dependency_cycle, unknown_action, out_of_fuel, found,
}

pub data Mark : Type 0 where
  unseen visiting visited : Mark

pub record Visit : Type 0 where
  pub marks : Map Mark
  pub ordered : List PlanAction

abbrev pub mark_of : Visit → String → Mark
mark_of v id = elim (lookup id v.marks) [ none ↦ unseen | some m ↦ m ]

abbrev pub ids_of : List PlanAction → Keys
ids_of = map (λ a. a.component_id)

-- `PlanAction{}`.
abbrev pub zero_action : PlanAction
zero_action = record {
  component_id = "";
  name = "";
  kind = ActionKind.other "";
  reason = "";
  install = record {
    kind = InstallKind.other "";
    package_name = "";
    winget_id = "";
    repository = "";
    repository_revision = "";
    manifest_digest = "";
    source = "";
    version = "";
    publisher = "";
    digest = "";
    expected_entries = [];
    login_hint = "";
    documentation_url = "";
    description = "";
  };
  selected = false;
  upgrade = false;
}

-- `byID[id]`: of several actions with one id the last.
unfoldable pub action_by_id : List PlanAction → PlanAction → String → PlanAction
action_by_id [] before id = before
action_by_id (a ∷ rest) before id =
    action_by_id rest (if a.component_id == id then a else before) id

abbrev pub set_mark : String → Mark → Visit → Visit
set_mark id m v = record v { marks = insert id m v.marks }

-- What `visit` does once the dependencies are done.
abbrev pub finish : List PlanAction → String → Visit → Visit
finish actions id v = record {
  marks = insert id visited v.marks;
  ordered = v.ordered ++ action_by_id actions zero_action id ∷ [];
}

abbrev pub Visitor : Type 0
Visitor = String → Visit → Result PlanError Visit

-- The loop over the dependencies: those with an action are visited.
unfoldable pub visit_all : Visitor → Keys → List String → Visit → Result PlanError Visit
visit_all visit planned [] v = ok v
visit_all visit planned (d ∷ ds) v = do
  v' ← if mem d planned then visit d v else ok v
  visit_all visit planned ds v'

unfoldable pub visit_marked :
    Visitor → Catalog → List PlanAction → Mark → String → Visit → Result PlanError Visit
visit_marked visit c actions visiting id v = err (dependency_cycle id)
visit_marked visit c actions visited id v = ok v
visit_marked visit c actions unseen id v = do
  k ← found (unknown_action id) (component_by_id c id)
  v' ← visit_all visit (ids_of actions) k.depends_on (set_mark id visiting v)
  ok (finish actions id v')

-- `visit`. A call marks an action that no call under way has marked, so calls nest no deeper than
-- there are actions.
unfoldable pub visit : ℕ → Catalog → List PlanAction → Visitor
visit zero c actions id v = err out_of_fuel
visit (suc fuel) c actions id v = visit_marked (visit fuel c actions) c actions (mark_of v id) id v

unfoldable pub visit_each : Visitor → List PlanAction → Visit → Result PlanError Visit
visit_each visit [] v = ok v
visit_each visit (a ∷ rest) v = do v' ← visit a.component_id v; visit_each visit rest v'

unfoldable pub order_by_dependencies :
    Catalog → List PlanAction → Result PlanError (List PlanAction)
order_by_dependencies c actions = do
  v ←
      visit_each (visit (suc (length actions)) c actions) actions
        (record { marks = []; ordered = [] })
  ok v.ordered
