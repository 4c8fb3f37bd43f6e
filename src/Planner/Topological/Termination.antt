-- ===== src/Planner/Topological/Termination.antt =====
-- internal/planner/planner.go: the fuel of `orderByDependencies`.
use Prim.Native.String.{String}
use text.Mathlib.TextEquality.{eq_iff}
use agent_stack_manager.Prelude.{
  ℕ, zero, suc, ◌≤◌, ◌<◌, ◌≡◌, ◌≢◌, refl, inl, inr, Bool, true, false, Bool-cases, Option-cases,
  List, [], ◌∷◌, ok, err, Result-cases, arith, length, if◌then◌else◌,
}
use agent_stack_manager.Prelude.Maps.{Keys, mem, mem_self}
use agent_stack_manager.Model.{Catalog, PlanAction, component_by_id}
use agent_stack_manager.Planner.Selection.{out_of_fuel}
use agent_stack_manager.Planner.Visits.{
  Mark, unseen, visiting, visited, Visit, mark_of, ids_of, set_mark, Visitor, visit_all,
  visit_marked, visit, visit_each, order_by_dependencies,
}
use agent_stack_manager.Planner.Placement.{mark_other, mark-insert}
use agent_stack_manager.Planner.Topological.{
  Good, Sound, visit-Sound, visit_if_planned, Good-visiting, start, start-Good,
}

abbrev is_unseen : Mark → Bool
is_unseen unseen = true
is_unseen _ = false

-- How many of the ids no visit has marked.
unmarked : Keys → Visit → ℕ
unmarked [] v = 0
unmarked (k ∷ ks) v = let rest = unmarked ks v in if is_unseen (mark_of v k) then suc rest else rest

unmarked-le :
    (ks : Keys) (v v' : Visit)
    → ((x : String) → mark_of v x ≢ unseen → mark_of v' x ≡ mark_of v x)
    → unmarked ks v' ≤ unmarked ks v
unfolding unmarked
unmarked-le [] v v' w = omega arith
unmarked-le (k ∷ ks) v v' w = ground (arith, w k, unmarked-le ks v v' w)

unmarked-visiting :
    (ks : Keys) (id : String) (v : Visit)
    → mem id ks ≡ true
    → mark_of v id ≡ unseen
    → unmarked ks (set_mark id visiting v) < unmarked ks v
unfolding unmarked mem
unmarked-visiting [] id v h u = cc
unmarked-visiting (k ∷ ks) id v h u = ground (
  arith,
  eq_iff k id,
  eq_iff id k,
  mark-insert v id k visiting,
  unmarked-le ks v (set_mark id visiting v)
      (λ x n. mark_other id x v visiting (λ e. n (rw (← e) u))),
  unmarked-visiting ks id v,
)

module _ (c : Catalog) (actions : List PlanAction) where
  abbrev planned : Keys
  planned = ids_of actions

  -- A visitor that returns from every state with fewer than `fuel` unmarked ids.
  abbrev Returns : ℕ → Visitor → Type 0
  Returns fuel visit =
      (id : String) (v : Visit)
      → mem id planned ≡ true
      → Good c actions v
      → unmarked planned v < fuel
      → visit id v ≢ err out_of_fuel

  visit_all_total :
      (fuel : ℕ) (visit : Visitor)
      → Sound c actions visit
      → Returns fuel visit
      → (ds : List String) (v : Visit) → Good c actions v
      → unmarked planned v < fuel
      → visit_all visit planned ds v ≢ err out_of_fuel
  visit_all_total fuel visit s t [] v g n e = unfold visit_all in cc
  visit_all_total fuel visit s t (d ∷ ds) v g n e =
      elim (Result-cases (if mem d planned then visit d v else ok v)) [
        | inl (v₁, head) ↦
            let first = visit_if_planned c actions visit s d v v₁ g head in
            visit_all_total fuel visit s t ds v₁ first.good
              (omega (arith, unmarked-le planned v v₁ first.kept))
              (unfold visit_all in ground arith)
        | inr (x, failed) ↦ elim (Bool-cases (mem d planned)) [
          | inl p ↦ t d v p g n (unfold visit_all in ground arith)
          | inr q ↦ ground arith
        ]
      ]

  visit_marked_total :
      (fuel : ℕ) (visit : Visitor)
      → Sound c actions visit
      → Returns fuel visit
      → (m : Mark) (id : String) (v : Visit) → mem id planned ≡ true
      → Good c actions v
      → unmarked planned v < suc fuel
      → mark_of v id ≡ m
      → visit_marked visit c actions m id v ≢ err out_of_fuel
  unfolding visit_marked
  visit_marked_total fuel visit s t visiting id v p g n u e = cc
  visit_marked_total fuel visit s t visited id v p g n u e = cc
  visit_marked_total fuel visit s t unseen id v p g n u e =
      elim (Option-cases (component_by_id c id)) [
        | inl absent ↦ ground arith
        | inr (k, listed) ↦
            visit_all_total fuel visit s t k.depends_on (set_mark id visiting v)
              (Good-visiting c actions id v u g) (omega (arith, unmarked-visiting planned id v p u))
              (ground arith)
      ]

  visit_total : (fuel : ℕ) → Returns fuel (visit fuel c actions)
  visit_total zero id v p g n e = absurd (omega arith)
  visit_total (suc fuel) id v p g n e =
      visit_marked_total fuel (visit fuel c actions) (visit-Sound c actions fuel) (visit_total fuel)
        (mark_of v id) id v p g n refl (unfold visit in e)

  visit_each_total :
      (fuel : ℕ) (rest : List PlanAction) (v : Visit)
      → ((x : String) → mem x (ids_of rest) ≡ true → mem x planned ≡ true)
      → Good c actions v
      → unmarked planned v < fuel
      → visit_each (visit fuel c actions) rest v ≢ err out_of_fuel
  visit_each_total fuel [] v w g n e = unfold visit_each in cc
  visit_each_total fuel (a ∷ rest) v w g n e =
      let p = w a.component_id (mem_self a.component_id (ids_of rest)) in
      elim (Result-cases (visit fuel c actions a.component_id v)) [
        | inl (v₁, head) ↦
            let r = visit-Sound c actions fuel a.component_id v v₁ p g head in
            visit_each_total fuel rest v₁ (λ x m. w x (unfold mem in ground arith)) r.good
              (omega (arith, unmarked-le planned v v₁ r.kept)) (unfold visit_each in ground arith)
        | inr (x, failed) ↦
            visit_total fuel a.component_id v p g n (unfold visit_each in ground arith)
      ]

unmarked-le-length :
    (actions : List PlanAction) (v : Visit) → unmarked (ids_of actions) v ≤ length actions
unfolding unmarked
unmarked-le-length [] v = omega arith
unmarked-le-length (a ∷ rest) v = ground (arith, unmarked-le-length rest v)

-- `orderByDependencies` always returns, whatever the catalog and the actions, cyclic dependencies
-- included: the fuel that stands for its recursion does not run out.
pub order_by_dependencies_total :
    (c : Catalog) (actions : List PlanAction) → order_by_dependencies c actions ≢ err out_of_fuel
order_by_dependencies_total c actions e =
    visit_each_total c actions (suc (length actions)) actions start (λ x m. m)
      (start-Good c actions) (omega (arith, unmarked-le-length actions start))
      (unfold order_by_dependencies in ground arith)
