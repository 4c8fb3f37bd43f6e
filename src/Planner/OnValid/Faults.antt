-- ===== src/Planner/OnValid/Faults.antt =====
-- internal/planner/planner.go: how `Build` fails on a catalog that `Validate` accepts.
use Prim.Native.String.{String}
use text.Mathlib.Text.{◌==◌}
use text.Mathlib.TextEquality.{eq_iff}
use agent_stack_manager.Prelude.{
  ℕ, ◌≡◌, sym, subst, ap, ◌∙◌, inl, inr, true, false, Option, none, some, List, [], ◌∷◌, ok, err,
  >>=-ne-err, with_ok, Bool-cases, All, arith,
}
use agent_stack_manager.Prelude.Maps.{Keys, Map, mem, mem-add, mem_self, add}
use agent_stack_manager.Prelude.Sorting.{sort_stable}
use agent_stack_manager.Model.{
  Component, Profile, Catalog, Inventory, component_by_id, find_component, profile_by_id,
  find_profile,
}
use agent_stack_manager.Planner.Selection.{
  Request, PlanError, out_of_fuel, found, unknown_profile, Selection, add_all, include_all,
  expand_dependencies,
}
use agent_stack_manager.Planner.Providers.{
  override_providers, preferred_providers, choose_provider, reconcile_each,
  reconcile_active_providers,
}
use agent_stack_manager.Planner.Actions.{actions_of, comes_before}
use agent_stack_manager.Planner.Visits.{ids_of}
use agent_stack_manager.Planner.Build.{profile_id, select, Resolved, resolve, build}
use agent_stack_manager.Planner.Closure.{found-eq-ok}
use agent_stack_manager.Planner.Run.{mem-sort_stable, mem-actions_of}
use agent_stack_manager.Planner.Total.{build_total}
use agent_stack_manager.Planner.OnValid.{
  blames_request, Blameless, AllKnown, DependenciesKnown, include_all-Blameless,
  exclude_all-Blameless, override_providers-Blameless, include_all-AllKnown, exclude_all-AllKnown,
  override_providers-AllKnown, expand_queue-Blameless, expand_queue-AllKnown,
}
use agent_stack_manager.Planner.OnValid.Order.{order_by_dependencies-Accepts}
use agent_stack_manager.Catalog.Acquisition.{Library}
use agent_stack_manager.Catalog.Components.{ids_of_components}
use agent_stack_manager.Catalog.Grounded.{Grounded, next}
use agent_stack_manager.Catalog.Validate.{validate}
use agent_stack_manager.Catalog.Sound.{
  IsValid, validate-IsValid, HasKnownDependencies, HasKnownMembers,
}

choose_provider-Blameless :
    (capability : String) (ids : List String) (active : Map String)
    → Blameless (choose_provider capability ids active)
unfolding choose_provider
choose_provider-Blameless capability [] active e b h = cc
choose_provider-Blameless capability (i ∷ []) active e b h = cc
choose_provider-Blameless capability (i ∷ j ∷ ids) active e b h = ground arith

reconcile_each-Blameless :
    (m : Map (List String)) (selected : Keys) (active : Map String)
    → Blameless (reconcile_each m selected active)
unfolding reconcile_each
reconcile_each-Blameless [] selected active e b = λ h. cc
reconcile_each-Blameless ((capability, ids) ∷ m) selected active e b =
    >>=-ne-err (λ h. ground (arith, choose_provider-Blameless capability ids active e))
      (λ active' _. reconcile_each-Blameless m selected active' e b)

reconcile-Blameless :
    (c : Catalog) (selected : Keys) (active : Map String)
    → Blameless (reconcile_active_providers c selected active)
unfolding reconcile_active_providers
reconcile-Blameless c selected active e b =
    >>=-ne-err (reconcile_each-Blameless _ selected active e b) (λ a _ h. cc)

found-Blameless : (id : String) (o : Option Profile) → Blameless (found (unknown_profile id) o)
found-Blameless id none e b h = ground arith
found-Blameless id (some p) e b h = cc

add_all-AllKnown :
    (c : Catalog) (ids : List String) (s : Keys)
    → AllKnown c ids
    → AllKnown c s
    → AllKnown c (add_all ids s)
unfolding add_all
add_all-AllKnown c [] s k h = h
add_all-AllKnown c (id ∷ ids) s k h =
    add_all-AllKnown c ids (add id s) (λ x m. k x (unfold mem in ground arith))
      (λ x m. elim (Bool-cases (id == x)) [
        | inl same ↦
            subst (λ y. mem y (ids_of_components c.components) ≡ true) ((eq_iff id x).0 same)
              (k id (mem_self id ids))
        | inr other ↦ h x (ground (arith, other, mem-add id x s, m))
      ])

find_profile-Known :
    (ids : Keys) (id : String) (ps : List Profile) (p : Profile)
    → All (HasKnownMembers ids) ps
    → find_profile id ps ≡ some p
    → HasKnownMembers ids p
unfolding find_profile
find_profile-Known ids id [] p k h = absurd (cc)
find_profile-Known ids id (q ∷ ps) p k h = elim (Bool-cases (q.id == id)) [
  | inl here ↦ let same : q ≡ p = ground (arith, here, h) in subst (HasKnownMembers ids) same k.0
  | inr other ↦ find_profile-Known ids id ps p k.1 (ground (arith, other, h))
]

-- What a valid catalog knows of a component that it finds.
find_component-Known :
    (ids : Keys) (id : String) (ks : List Component) (k : Component)
    → All (HasKnownDependencies ids) ks
    → find_component id ks ≡ some k
    → HasKnownDependencies ids k
unfolding find_component
find_component-Known ids id [] k a h = absurd (cc)
find_component-Known ids id (j ∷ ks) k a h = elim (Bool-cases (j.id == id)) [
  | inl here ↦
      let same : j ≡ k = ground (arith, here, h) in subst (HasKnownDependencies ids) same a.0
  | inr other ↦ find_component-Known ids id ks k a.1 (ground (arith, other, h))
]

Grounded-of_mem :
    (next : String → List String) (id : String) (ks : List Component)
    → All (λ k. Grounded next k.id) ks
    → mem id (ids_of_components ks) ≡ true
    → Grounded next id
unfolding mem
Grounded-of_mem next id [] a m = absurd (cc)
Grounded-of_mem next id (k ∷ ks) a m = elim (Bool-cases (k.id == id)) [
  | inl here ↦ subst (Grounded next) ((eq_iff k.id id).0 here) a.0
  | inr other ↦ Grounded-of_mem next id ks a.1 (ground (arith, other, m))
]

module _ (l : Library) (c : Catalog) (valid : IsValid l c) (e : PlanError)
    (fault : blames_request e ≡ false) (fuelled : ¬ (e ≡ out_of_fuel)) where
  known_dependencies : DependenciesKnown c
  unfolding component_by_id
  known_dependencies id k h =
      let r =
        find_component-Known (ids_of_components c.components) id c.components k valid.dependencies
          h in
      r.known

  select-Blameless : (p : Profile) (request : Request) → ¬ (select c p request ≡ err e)
  unfolding select
  select-Blameless p request =
      >>=-ne-err (include_all-Blameless c request.include _ e fault)
        (λ s _. exclude_all-Blameless c request.exclude s e fault)

  select-AllKnown :
      (p : Profile) (request : Request) (s : Selection)
      → AllKnown c p.components
      → select c p request ≡ ok s
      → AllKnown c s.selected
  unfolding select
  select-AllKnown p request s k h = with_ok {m = include_all c request.include _} h λ t inc rest.
      exclude_all-AllKnown c request.exclude t s
        (include_all-AllKnown c request.include _ t
          (add_all-AllKnown c p.components [] k (λ x m. unfold mem in absurd (cc))) inc)
        rest

  resolve-Blameless :
      (p : Profile) (request : Request) → AllKnown c p.components → ¬ (resolve c p request ≡ err e)
  unfolding resolve expand_dependencies
  resolve-Blameless p request k = >>=-ne-err (select-Blameless p request) λ s sel.
      let ks = select-AllKnown p request s k sel in
      >>=-ne-err (override_providers-Blameless c s.excluded request.provider_overrides _ e fault)
        λ o ov.
          let ko = override_providers-AllKnown c s.excluded request.provider_overrides _ o ks ov in
          >>=-ne-err
            (expand_queue-Blameless c _ s.excluded o.0 o.0 known_dependencies ko ko e fault fuelled)
            λ t _. >>=-ne-err (reconcile-Blameless c t o.1 e fault) λ a _ h. cc

  resolve-AllKnown :
      (p : Profile) (request : Request) (r : Resolved)
      → AllKnown c p.components
      → resolve c p request ≡ ok r
      → AllKnown c r.selected
  unfolding resolve expand_dependencies
  resolve-AllKnown p request r k h = with_ok {m = select c p request} h λ s sel h₁.
      let ks = select-AllKnown p request s k sel in
      with_ok
        {m = override_providers c s.excluded request.provider_overrides
          (s.selected, preferred_providers c.components [])}
        h₁
        λ o ov h₂.
          let ko = override_providers-AllKnown c s.excluded request.provider_overrides _ o ks ov in
          with_ok {m = expand_dependencies c o.0 s.excluded} h₂ λ t ex h₃.
            let kt = expand_queue-AllKnown c _ s.excluded o.0 o.0 t known_dependencies ko ko ex in
            with_ok {m = reconcile_active_providers c t o.1} h₃
              λ a re h₄. let same : t ≡ r.selected = cc in subst (AllKnown c) same kt

  actions-AllKnown :
      (request : Request) (inventory : Inventory) (r : Resolved)
      → AllKnown c r.selected
      → AllKnown c (
          ids_of (
            sort_stable
              (comes_before c)
              (actions_of request inventory r.active r.selected c.components)))
  actions-AllKnown request inventory r k x m = k x (
      mem-actions_of request inventory r.active r.selected c.components x
        (sym (mem-sort_stable (comes_before c) _ x) ∙ m))

  build-Blameless :
      (now : ℕ) (inventory : Inventory) (request : Request)
      → ¬ (build now c inventory request ≡ err e)
  unfolding build profile_by_id
  build-Blameless now inventory request =
      >>=-ne-err
        (found-Blameless (profile_id request) (profile_by_id c (profile_id request)) e fault)
        λ p listed.
          let m =
            find_profile-Known (ids_of_components c.components) (profile_id request) c.profiles p
              valid.profiles (found-eq-ok (unknown_profile (profile_id request)) _ p listed) in
          let k = m.known in
          >>=-ne-err (resolve-Blameless p request k) λ r res.
            let ka = actions-AllKnown request inventory r (resolve-AllKnown p request r k res) in
            >>=-ne-err
              (order_by_dependencies-Accepts c _ valid.distinct known_dependencies e fault fuelled
                ka
                (λ x m.
                  Grounded-of_mem (next c.components) x c.components valid.acyclic_lem (ka x m)))
              λ ordered _ h. cc

-- On a catalog that `Validate` accepts, `Build` returns a plan or an error that is the request's
-- fault: it names an unknown profile, component or provider, excludes what it includes or what a
-- selected component depends on, or selects several providers of one capability. It never meets a
-- missing component, a cycle of dependencies or an action without a component.
pub build_on_valid :
    (l : Library) (now : ℕ) (c : Catalog) (inventory : Inventory) (request : Request)
    (e : PlanError)
    → validate l c ≡ ok tt
    → build now c inventory request ≡ err e
    → blames_request e ≡ true
build_on_valid l now c inventory request e valid h = elim (Bool-cases (blames_request e)) [
  | inl fine ↦ fine
  | inr fault ↦ absurd (
      build-Blameless l c (validate-IsValid l c valid) e fault
        (λ f. build_total now c inventory request (h ∙ ap err f)) now inventory request h)
]
