-- ===== src/Planner/Placement.antt =====
-- Lists of actions that grow at their end, as `orderByDependencies` builds them, and its marks.
use Prim.Native.String.{String}
use text.Mathlib.Text.{◌==◌}
use text.Mathlib.TextEquality.{eq_iff}
use agent_stack_manager.Prelude.{
  ◌≡◌, ◌≢◌, refl, ◌⊎◌, true, false, ◌||◌, some, List, [], ◌∷◌, ◌++◌, arith, if◌then◌else◌,
}
use agent_stack_manager.Prelude.Maps.{Keys, mem, lookup-insert}
use agent_stack_manager.Model.{Component, Catalog, PlanAction, component_by_id}
use agent_stack_manager.Planner.Visits.{
  Mark, Visit, mark_of, ids_of, action_by_id, zero_action, set_mark,
}

-- Each action stands behind those of its dependencies that are planned. `done` holds the ids of what
-- stands before the list.
abbrev pub IsOrdered : Catalog → Keys → Keys → List PlanAction → Type 0
IsOrdered c planned done [] = Unit
IsOrdered c planned done (a ∷ rest) =
    ((k : Component) (d : String)
      → component_by_id c a.component_id ≡ some k
      → mem d k.depends_on ≡ true
      → mem d planned ≡ true
      → mem d done ≡ true)
    × IsOrdered c planned (a.component_id ∷ done) rest

abbrev pub IsDistinct : Keys → Type 0
IsDistinct [] = Unit
IsDistinct (k ∷ ks) = (mem k ks ≡ false) × IsDistinct ks

-- Each of them is the action that `byID` has under its id.
abbrev pub AllFrom : List PlanAction → List PlanAction → Type 0
AllFrom actions [] = Unit
AllFrom actions (a ∷ rest) =
    (a ≡ action_by_id actions zero_action a.component_id) × AllFrom actions rest

pub AllFrom-snoc :
    (actions xs : List PlanAction) (a : PlanAction)
    → AllFrom actions xs
    → a ≡ action_by_id actions zero_action a.component_id
    → AllFrom actions (xs ++ a ∷ [])
AllFrom-snoc actions [] a h e = (e, tt)
AllFrom-snoc actions (x ∷ xs) a h e = (h.0, AllFrom-snoc actions xs a h.1 e)

pub ids-snoc :
    (xs : List PlanAction) (a : PlanAction) (x : String)
    → mem x (ids_of (xs ++ a ∷ [])) ≡ (mem x (ids_of xs) || a.component_id == x)
unfolding mem
ids-snoc [] a x = ground arith
ids-snoc (y ∷ ys) a x = ground (arith, ids-snoc ys a x)

pub IsDistinct-snoc :
    (xs : List PlanAction) (a : PlanAction)
    → IsDistinct (ids_of xs)
    → mem a.component_id (ids_of xs) ≡ false
    → IsDistinct (ids_of (xs ++ a ∷ []))
unfolding mem
IsDistinct-snoc [] a h n = (refl, tt)
IsDistinct-snoc (x ∷ xs) a h n = (
  ground (
    arith,
    ids-snoc xs a x.component_id,
    eq_iff a.component_id x.component_id,
    eq_iff x.component_id a.component_id,
  ),
  IsDistinct-snoc xs a h.1 (ground arith),
)

pub IsOrdered-snoc :
    (c : Catalog) (planned done : Keys) (xs : List PlanAction) (a : PlanAction)
    → IsOrdered c planned done xs
    → ((k : Component) (d : String)
        → component_by_id c a.component_id ≡ some k
        → mem d k.depends_on ≡ true
        → mem d planned ≡ true
        → (mem d done ≡ true) ⊎ (mem d (ids_of xs) ≡ true))
    → IsOrdered c planned done (xs ++ a ∷ [])
unfolding mem
IsOrdered-snoc c planned done [] a h w = (λ k d e m p. ground (arith, w k d e m p), tt)
IsOrdered-snoc c planned done (x ∷ xs) a h w = (
  h.0,
  IsOrdered-snoc c planned (x.component_id ∷ done) xs a h.1
      (λ k d e m p. ground (arith, w k d e m p)),
)

-- `byID[id]` has the id that it is looked up by.
action_by_id_kept :
    (actions : List PlanAction) (b : PlanAction) (id : String)
    → b.component_id ≡ id
    → (action_by_id actions b id).component_id ≡ id
unfolding action_by_id
action_by_id_kept [] b id h = h
action_by_id_kept (a ∷ rest) b id h =
    ground
      (arith, eq_iff a.component_id id, action_by_id_kept rest a id, action_by_id_kept rest b id h)

pub component_id-action_by_id :
    (actions : List PlanAction) (b : PlanAction) (id : String)
    → mem id (ids_of actions) ≡ true
    → (action_by_id actions b id).component_id ≡ id
unfolding action_by_id mem
component_id-action_by_id [] b id h = cc
component_id-action_by_id (a ∷ rest) b id h = ground (
  arith,
  eq_iff a.component_id id,
  action_by_id_kept rest a id,
  component_id-action_by_id rest b id,
)

pub mark-insert :
    (v : Visit) (id x : String) (m : Mark)
    → mark_of (set_mark id m v) x ≡ (if id == x then m else mark_of v x)
mark-insert v id x m = ground (arith, lookup-insert id x m v.marks)

pub mark_self : (id : String) (v : Visit) (m : Mark) → mark_of (set_mark id m v) id ≡ m
mark_self id v m = ground (arith, mark-insert v id id m, eq_iff id id)

pub mark_other :
    (id x : String) (v : Visit) (m : Mark) → id ≢ x → mark_of (set_mark id m v) x ≡ mark_of v x
mark_other id x v m n = ground (arith, mark-insert v id x m, eq_iff id x)
