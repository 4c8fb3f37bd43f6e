-- ===== src/Planner/Topological.antt =====
-- internal/planner/planner.go: the order that `orderByDependencies` makes.
pub mod Termination
use Prim.Native.String.{String}
use text.Mathlib.Text.{◌==◌}
use text.Mathlib.TextEquality.{eq_iff}
use agent_stack_manager.Prelude.{
  ℕ, zero, suc, ◌+◌, ◌≤◌, ◌≡◌, ◌≢◌, refl, sym, subst, ap, ◌∙◌, ◌⊎◌, inl, inr, Bool, true, false,
  ◌||◌, Bool-cases, Option, none, some, Option-cases, List, [], ◌∷◌, ◌++◌, map, Result, ok, err,
  >>=-eq-ok, Result-cases, arith, length, if◌then◌else◌,
}
use agent_stack_manager.Prelude.Maps.{
  Keys, Map, mem, mem-append, mem_self, mem-cons, lookup, insert, lookup-insert,
}
use agent_stack_manager.Model.{Component, Catalog, PlanAction, component_by_id}
use agent_stack_manager.Planner.Selection.{PlanError, found, unknown_action}
use agent_stack_manager.Planner.Closure.{found-eq-ok}
use agent_stack_manager.Planner.Visits.{
  Mark, unseen, visiting, visited, Visit, mark_of, ids_of, action_by_id, zero_action, set_mark,
  finish, Visitor, visit_all, visit_marked, visit, visit_each, order_by_dependencies,
}
use agent_stack_manager.Planner.Placement.{
  IsOrdered, IsDistinct, AllFrom, AllFrom-snoc, ids-snoc, IsDistinct-snoc, IsOrdered-snoc,
  component_id-action_by_id, mark-insert, mark_self, mark_other,
}

abbrev start : Visit
start = record { marks = []; ordered = [] }

module _ (c : Catalog) (actions : List PlanAction) where
  abbrev planned : Keys
  planned = ids_of actions

  record Good (v : Visit) : Type 0 where
    placed : (x : String) → mark_of v x ≡ visited → mem x (ids_of v.ordered) ≡ true
    marked : (x : String) → mem x (ids_of v.ordered) ≡ true → mark_of v x ≡ visited
    sorted : IsOrdered c planned [] v.ordered
    distinct : IsDistinct (ids_of v.ordered)
    inside : (x : String) → mem x (ids_of v.ordered) ≡ true → mem x planned ≡ true
    from : AllFrom actions v.ordered

  -- What a visit leaves behind.
  record Visited (id : String) (v v' : Visit) : Type 0 where
    good : Good v'
    done : mark_of v' id ≡ visited
    kept : (x : String) → mark_of v x ≢ unseen → mark_of v' x ≡ mark_of v x

  record VisitedAll (ds : List String) (v v' : Visit) : Type 0 where
    good : Good v'
    done : (d : String) → mem d ds ≡ true → mem d planned ≡ true → mark_of v' d ≡ visited
    kept : (x : String) → mark_of v x ≢ unseen → mark_of v' x ≡ mark_of v x

  abbrev Sound : Visitor → Type 0
  Sound visit =
      (id : String) (v v' : Visit)
      → mem id planned ≡ true
      → Good v
      → visit id v ≡ ok v'
      → Visited id v v'

  Good-visiting :
      (id : String) (v : Visit) → mark_of v id ≡ unseen → Good v → Good (set_mark id visiting v)
  Good-visiting id v u g = record {
    placed = λ x h. g.placed x (ground (arith, mark-insert v id x visiting));
    marked = λ x h. ground (arith, mark-insert v id x visiting, g.marked x h, eq_iff id x);
    sorted = g.sorted;
    distinct = g.distinct;
    inside = g.inside;
    from = g.from;
  }

  VisitedAll-nil : (v : Visit) → Good v → VisitedAll [] v v
  unfolding mem
  VisitedAll-nil v g = record { good = g; done = λ d h. cc; kept = λ x n. refl }

  -- A visit that failed to mark what was marked would not have kept it.
  VisitedAll-cons :
      (d : String) (ds : List String) (v v₁ v' : Visit)
      → VisitedAll (d ∷ []) v v₁
      → VisitedAll ds v₁ v'
      → VisitedAll (d ∷ ds) v v'
  VisitedAll-cons d ds v v₁ v' first rest = record {
    good = rest.good;
    done = λ x h p. elim (mem-cons x d ds h) [
      | inl same ↦
          let seen =
            first.done x (subst (λ e. mem x (e ∷ []) ≡ true) (sym same) (mem_self x [])) p in
          rest.kept x (λ e. cc) ∙ seen
      | inr later ↦ rest.done x later p
    ];
    kept = λ x n. rest.kept x (λ e. n (sym (first.kept x n) ∙ e)) ∙ first.kept x n;
  }

  visit_if_planned :
      (visit : Visitor)
      → Sound visit
      → (d : String) (v v' : Visit) → Good v
      → (if mem d planned then visit d v else ok v) ≡ ok v'
      → VisitedAll (d ∷ []) v v'
  visit_if_planned visit s d v v' g h = elim (Bool-cases (mem d planned)) [
    | inl p ↦
        let r = s d v v' p g (ground arith) in
        record {
          good = r.good;
          done = λ x m q. elim (mem-cons x d [] m) [
            | inl same ↦ rw (← same) r.done
            | inr no_more ↦ unfold mem in cc
          ];
          kept = r.kept;
        }
    | inr n ↦
        let e : v ≡ v' = ground arith in
        subst (VisitedAll (d ∷ []) v) e (record {
          good = g;
          done =
              λ x m q. elim (mem-cons x d [] m) [ inl same ↦ cc | inr no_more ↦ unfold mem in cc ];
          kept = λ x m. refl;
        })
  ]

  visit_all-VisitedAll :
      (visit : Visitor)
      → Sound visit
      → (ds : List String) (v v' : Visit) → Good v
      → visit_all visit planned ds v ≡ ok v'
      → VisitedAll ds v v'
  visit_all-VisitedAll visit s [] v v' g h =
      let e : v ≡ v' = unfold visit_all in cc in subst (VisitedAll [] v) e (VisitedAll-nil v g)
  visit_all-VisitedAll visit s (d ∷ ds) v v' g h =
      let (v₁, head, rest) =
        >>=-eq-ok (if mem d planned then visit d v else ok v) (visit_all visit planned ds) {b = v'}
          (unfold visit_all in h) in
      let first = visit_if_planned visit s d v v₁ g head in
      VisitedAll-cons d ds v v₁ v' first (visit_all-VisitedAll visit s ds v₁ v' first.good rest)

  not_placed :
      (id : String) (v : Visit)
      → mark_of v id ≡ visiting
      → Good v
      → mem id (ids_of v.ordered) ≡ false
  not_placed id v m g = ground (arith, g.marked id)

  -- The end of a visit: the dependencies are visited, and the action goes to the end of the list.
  place-Good :
      (id : String) (a : PlanAction) (k : Component) (v : Visit)
      → mem id planned ≡ true
      → a.component_id ≡ id
      → a ≡ action_by_id actions zero_action a.component_id
      → component_by_id c id ≡ some k
      → mark_of v id ≡ visiting
      → ((d : String) → mem d k.depends_on ≡ true → mem d planned ≡ true → mark_of v d ≡ visited)
      → Good v
      → Good (record { marks = insert id visited v.marks; ordered = v.ordered ++ a ∷ [] })
  place-Good id a k v p same taken e m w g = record {
    placed = λ x h.
        ground (arith, mark-insert v id x visited, ids-snoc v.ordered a x, eq_iff id x, g.placed x);
    marked = λ x h.
        ground (arith, mark-insert v id x visited, ids-snoc v.ordered a x, eq_iff id x, g.marked x);
    sorted = IsOrdered-snoc c planned [] v.ordered a g.sorted (λ j d f n q.
        let one : k ≡ j = cc (ap (component_by_id c) same) in inr (g.placed d (w d (rw one n) q)));
    distinct = IsDistinct-snoc v.ordered a g.distinct (rw same (not_placed id v m g));
    inside = λ x h. ground (arith, ids-snoc v.ordered a x, eq_iff id x, g.inside x);
    from = AllFrom-snoc actions v.ordered a g.from taken;
  }

  finish-Good :
      (id : String) (k : Component) (v : Visit)
      → mem id planned ≡ true
      → component_by_id c id ≡ some k
      → mark_of v id ≡ visiting
      → ((d : String) → mem d k.depends_on ≡ true → mem d planned ≡ true → mark_of v d ≡ visited)
      → Good v
      → Good (finish actions id v)
  finish-Good id k v p e m w g =
      let same = component_id-action_by_id actions zero_action id p in
      place-Good id (action_by_id actions zero_action id) k v p same
        (ap (action_by_id actions zero_action) (sym same)) e m w g

  visit_unseen :
      (visit : Visitor)
      → Sound visit
      → (id : String) (v v' : Visit) → mem id planned ≡ true
      → Good v
      → mark_of v id ≡ unseen
      → visit_marked visit c actions unseen id v ≡ ok v'
      → Visited id v v'
  unfolding visit_marked
  visit_unseen visit s id v v' p g u h =
      let (k, f, rest) =
        >>=-eq-ok (found (unknown_action id) (component_by_id c id)) _ {b = v'} h in
      let (v₂, deps, last) =
        >>=-eq-ok (visit_all visit planned k.depends_on (set_mark id visiting v)) _ {b = v'} rest in
      let r =
        visit_all-VisitedAll visit s k.depends_on (set_mark id visiting v) v₂
          (Good-visiting id v u g) deps in
      let m = r.kept id (λ e. cc (mark_self id v visiting)) ∙ mark_self id v visiting in
      let end : finish actions id v₂ ≡ v' = cc in
      subst (Visited id v) end (record {
        good = finish-Good id k v₂ p (found-eq-ok (unknown_action id) _ k f) m r.done r.good;
        done = mark_self id v₂ visited;
        kept = λ x n.
            let ne : id ≢ x = λ same. n (subst (λ y. mark_of v y ≡ unseen) same u) in
            let old = mark_other id x v visiting ne in
            mark_other id x v₂ visited ne ∙ r.kept x (λ e. n (sym old ∙ e)) ∙ old;
      })

  visit_marked-Sound :
      (visit : Visitor)
      → Sound visit
      → Sound (λ id v. visit_marked visit c actions (mark_of v id) id v)
  visit_marked-Sound visit s id v v' p g h = go (mark_of v id) refl h
    where
      go :
          (m : Mark)
          → mark_of v id ≡ m
          → visit_marked visit c actions m id v ≡ ok v'
          → Visited id v v'
      go unseen e h = visit_unseen visit s id v v' p g e h
      go visiting e h = unfold visit_marked in cc
      go visited e h =
          let same : v ≡ v' = unfold visit_marked in cc in
          subst (Visited id v) same (record { good = g; done = e; kept = λ x n. refl })

  visit-Sound : (fuel : ℕ) → Sound (visit fuel c actions)
  visit-Sound zero id v v' p g h = unfold visit in cc
  visit-Sound (suc fuel) id v v' p g h =
      visit_marked-Sound (visit fuel c actions) (visit-Sound fuel) id v v' p g (unfold visit in h)

  -- The loop over the actions.
  visit_each-VisitedAll :
      (fuel : ℕ) (rest : List PlanAction) (v v' : Visit)
      → ((x : String) → mem x (ids_of rest) ≡ true → mem x planned ≡ true)
      → Good v
      → visit_each (visit fuel c actions) rest v ≡ ok v'
      → VisitedAll (ids_of rest) v v'
  visit_each-VisitedAll fuel [] v v' w g h =
      let e : v ≡ v' = unfold visit_each in cc in subst (VisitedAll [] v) e (VisitedAll-nil v g)
  visit_each-VisitedAll fuel (a ∷ rest) v v' w g h =
      let (v₁, head, tail) =
        >>=-eq-ok (visit fuel c actions a.component_id v) (visit_each (visit fuel c actions) rest)
          {b = v'} (unfold visit_each in h) in
      let r =
        visit-Sound fuel a.component_id v v₁
          (w a.component_id (mem_self a.component_id (ids_of rest))) g head in
      VisitedAll-cons a.component_id (ids_of rest) v v₁ v'
        (record {
          good = r.good;
          done = λ x m q. elim (mem-cons x a.component_id [] m) [
            | inl same ↦ rw (← same) r.done
            | inr no_more ↦ unfold mem in cc
          ];
          kept = r.kept;
        })
        (visit_each-VisitedAll fuel rest v₁ v' (λ x m. w x (unfold mem in ground arith)) r.good
          tail)

  start-Good : Good start
  unfolding mem lookup
  start-Good = record {
    placed = λ x h. cc;
    marked = λ x h. cc;
    sorted = tt;
    distinct = tt;
    inside = λ x h. cc;
    from = tt;
  }

-- An order of the actions: each id once, the same ids, each with the action that `byID` has for it,
-- and each action behind those of its dependencies.
pub record IsOrder (c : Catalog) (actions ordered : List PlanAction) : Type 0 where
  pub sorted : IsOrdered c (ids_of actions) [] ordered
  pub distinct : IsDistinct (ids_of ordered)
  pub complete : (x : String) → mem x (ids_of ordered) ≡ mem x (ids_of actions)
  pub from : AllFrom actions ordered

-- An order that `orderByDependencies` returns has each planned id once, with its action, and each
-- action stands behind the planned actions of its component's dependencies.
pub order_by_dependencies-IsOrder :
    (c : Catalog) (actions ordered : List PlanAction)
    → order_by_dependencies c actions ≡ ok ordered
    → IsOrder c actions ordered
unfolding order_by_dependencies
order_by_dependencies-IsOrder c actions ordered h =
    let (v, run, last) =
      >>=-eq-ok (visit_each (visit (suc (length actions)) c actions) actions start) _ {b = ordered}
        h in
    let r =
      visit_each-VisitedAll c actions (suc (length actions)) actions start v (λ x m. m)
        (start-Good c actions) run in
    let e : v.ordered ≡ ordered = cc in
    subst (IsOrder c actions) e (record {
      sorted = r.good.sorted;
      distinct = r.good.distinct;
      complete = λ x. elim (Bool-cases (mem x (ids_of actions))) [
        | inl p ↦ rw p (r.good.placed x (r.done x p p))
        | inr n ↦ ground (arith, r.good.inside x)
      ];
      from = r.good.from;
    })
