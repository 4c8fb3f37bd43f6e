-- ===== src/Catalog/Cycles.antt =====
-- internal/catalog/catalog.go: `validateDependencyCycles`.
use Prim.Native.String.{String}
use text.Mathlib.Text.{◌==◌}
use agent_stack_manager.Prelude.{
  ℕ, zero, suc, none, some, List, [], ◌∷◌, ◌++◌, Result, ok, err, ◌>>=◌, length, if◌then◌else◌,
}
use agent_stack_manager.Prelude.Maps.{Map, lookup, insert}
use agent_stack_manager.Model.{Component}
use agent_stack_manager.Planner.Visits.{Mark, unseen, visiting, visited}

-- `cycle path` is the error with the path that it prints. `out_of_fuel` is none of the program's.
pub data CycleError : Type 0 where
  cycle : List String → CycleError
  out_of_fuel : CycleError

-- `components[id].DependsOn`: of several components with one id the last; no component, no
-- dependencies.
unfoldable pub dependencies_of : List Component → List String → String → List String
dependencies_of [] before id = before
dependencies_of (k ∷ ks) before id =
    dependencies_of ks (if k.id == id then k.depends_on else before) id

abbrev pub Marks : Type 0
Marks = Map Mark

abbrev pub mark_in : Marks → String → Mark
mark_in state id = elim (lookup id state) [ none ↦ unseen | some m ↦ m ]

abbrev pub Walk : Type 0
Walk = List String → String → Marks → Result CycleError Marks

-- The loop over the dependencies. The stack is that of the caller.
unfoldable pub walk_all : Walk → List String → List String → Marks → Result CycleError Marks
walk_all walk stack [] state = ok state
walk_all walk stack (d ∷ ds) state = do state' ← walk stack d state; walk_all walk stack ds state'

unfoldable pub walk_marked : Walk → List Component → Mark → Walk
walk_marked walk ks visiting stack id state = err (cycle (stack ++ id ∷ []))
walk_marked walk ks visited stack id state = ok state
walk_marked walk ks unseen stack id state = do
  state' ← walk_all walk (stack ++ id ∷ []) (dependencies_of ks [] id) (insert id visiting state)
  ok (insert id visited state')

-- `visit`.
unfoldable pub walk : ℕ → List Component → Walk
walk zero ks stack id state = err out_of_fuel
walk (suc fuel) ks stack id state = walk_marked (walk fuel ks) ks (mark_in state id) stack id state

-- The loop over the components: those not yet seen are visited.
unfoldable pub walk_each : Walk → List Component → Marks → Result CycleError Marks
walk_each walk [] state = ok state
walk_each walk (k ∷ ks) state = do
  state' ← elim (mark_in state k.id) [ unseen ↦ walk [] k.id state | _ ↦ ok state ]
  walk_each walk ks state'

-- Each call that nests another marks a component that no call under way has marked.
unfoldable pub validate_dependency_cycles : List Component → Result CycleError Marks
unfolding walk_each walk
validate_dependency_cycles ks = walk_each (walk (suc (length ks)) ks) ks []
