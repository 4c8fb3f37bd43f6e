-- ===== src/Planner/OnValid.antt =====
-- internal/planner/planner.go: `Build` on a catalog that `Validate` accepts.
pub mod Order
pub mod Faults
use Prim.Native.String.{String}
use text.Mathlib.Text.{◌==◌}
use text.Mathlib.TextEquality.{eq_iff}
use agent_stack_manager.Prelude.{
  ℕ, zero, suc, ◌≡◌, ◌≢◌, refl, sym, subst, ap, ◌∙◌, ◌⊎◌, inl, inr, Bool, true, false, ◌||◌, Option,
  none, some, List, [], ◌∷◌, ◌++◌, Result, ok, err, >>=-ne-err, Bool-cases, Option-cases,
  Result-cases, All, arith, if◌then◌else◌,
}
use agent_stack_manager.Prelude.Maps.{
  Keys, Map, mem, mem-cons, mem_self, mem-append, add, remove, insert, mem-add, mem-remove,
}
use agent_stack_manager.Model.{
  Component, Profile, Catalog, Inventory, PlanAction, component_by_id, find_component,
  profile_by_id, find_profile,
}
use agent_stack_manager.Planner.Selection.{
  Request, PlanError, unknown_profile, unknown_included, unknown_excluded, included_and_excluded,
  unknown_override, wrong_capability, override_excluded, missing_component, depends_on_excluded,
  multiple_providers, dependency_cycle, unknown_action, out_of_fuel, found, Selection, add_all,
  include_all, exclude_all, select_dependencies, expand_queue, expand_dependencies,
}
use agent_stack_manager.Planner.Providers.{
  override_providers, choose_provider, reconcile_each, reconcile_active_providers,
}
use agent_stack_manager.Catalog.Components.{ids_of_components}

-- Is the error the request's, and not the catalog's?
abbrev pub blames_request : PlanError → Bool
blames_request (missing_component id) = false
blames_request (dependency_cycle id) = false
blames_request (unknown_action id) = false
blames_request out_of_fuel = false
blames_request _ = true

-- A run that fails with no error but the request's.
abbrev pub Blameless : {A : Type 0} → Result PlanError A → Type 0
Blameless m = (e : PlanError) → blames_request e ≡ false → ¬ (m ≡ err e)

-- All are ids of the catalog.
abbrev pub AllKnown : Catalog → Keys → Type 0
AllKnown c s = (x : String) → mem x s ≡ true → mem x (ids_of_components c.components) ≡ true

find_component-known :
    (id : String) (ks : List Component)
    → mem id (ids_of_components ks) ≡ true
    → (k : Component) × (find_component id ks ≡ some k)
unfolding find_component mem
find_component-known id [] m = absurd (cc)
find_component-known id (k ∷ ks) m = elim (Bool-cases (k.id == id)) [
  | inl here ↦ (k, ground arith)
  | inr other ↦ let (j, found) = find_component-known id ks (ground arith) in (j, ground arith)
]

known-find_component :
    (id : String) (ks : List Component) (k : Component)
    → find_component id ks ≡ some k
    → mem id (ids_of_components ks) ≡ true
unfolding find_component mem
known-find_component id [] k h = cc
known-find_component id (j ∷ ks) k h = ground (arith, known-find_component id ks k)

mem-snoc : (x d : String) (s : Keys) → mem x (s ++ d ∷ []) ≡ true → (d ≡ x) ⊎ (mem x s ≡ true)
mem-snoc x d s m = elim (Bool-cases (mem x s)) [
  | inl old ↦ inr old
  | inr new ↦ inl ((eq_iff d x).0 (unfold mem in ground (arith, mem-append x s (d ∷ []), m)))
]

module _ (c : Catalog) where
  include_all-Blameless : (ids : List String) (s : Selection) → Blameless (include_all c ids s)
  unfolding include_all
  include_all-Blameless [] s e b h = cc
  include_all-Blameless (id ∷ ids) s e b h = ground (
    arith,
    include_all-Blameless ids
        (record s { included = add id s.included; selected = add id s.selected }) e,
  )

  exclude_all-Blameless : (ids : List String) (s : Selection) → Blameless (exclude_all c ids s)
  unfolding exclude_all
  exclude_all-Blameless [] s e b h = cc
  exclude_all-Blameless (id ∷ ids) s e b h = ground (
    arith,
    exclude_all-Blameless ids
        (record s { excluded = add id s.excluded; selected = remove id s.selected }) e,
  )

  override_providers-Blameless :
      (ex : Keys) (m : Map String) (s : Keys × Map String) → Blameless (override_providers c ex m s)
  unfolding override_providers
  override_providers-Blameless ex [] s e b h = cc
  override_providers-Blameless ex ((capability, id) ∷ m) s e b h =
      ground (arith, override_providers-Blameless ex m (add id s.0, insert capability id s.1) e)

  include_all-AllKnown :
      (ids : List String) (s t : Selection)
      → AllKnown c s.selected
      → include_all c ids s ≡ ok t
      → AllKnown c t.selected
  unfolding include_all component_by_id
  include_all-AllKnown [] s t k h = λ x m. k x (ground (arith, h, m))
  include_all-AllKnown (id ∷ ids) s t k h = elim (Option-cases (find_component id c.components)) [
    | inl missing ↦ ground arith
    | inr (j, listed) ↦
        include_all-AllKnown ids
          (record s { included = add id s.included; selected = add id s.selected }) t
          (λ x m. elim (Bool-cases (id == x)) [
            | inl same ↦
                subst (λ y. mem y (ids_of_components c.components) ≡ true) ((eq_iff id x).0 same)
                  (known-find_component id c.components j listed)
            | inr other ↦ k x (ground (arith, other, mem-add id x s.selected, m))
          ])
          (ground arith)
  ]

  exclude_all-AllKnown :
      (ids : List String) (s t : Selection)
      → AllKnown c s.selected
      → exclude_all c ids s ≡ ok t
      → AllKnown c t.selected
  unfolding exclude_all
  exclude_all-AllKnown [] s t k h = λ x m. k x (ground (arith, h, m))
  exclude_all-AllKnown (id ∷ ids) s t k h =
      exclude_all-AllKnown ids
        (record s { excluded = add id s.excluded; selected = remove id s.selected }) t
        (λ x m. k x (ground (arith, mem-remove id x s.selected, m))) (ground arith)

  override_providers-AllKnown :
      (ex : Keys) (m : Map String) (s t : Keys × Map String)
      → AllKnown c s.0
      → override_providers c ex m s ≡ ok t
      → AllKnown c t.0
  unfolding override_providers component_by_id
  override_providers-AllKnown ex [] s t k h = λ x m. k x (ground (arith, h, m))
  override_providers-AllKnown ex ((capability, id) ∷ m) s t k h =
      elim (Option-cases (find_component id c.components)) [
        | inl missing ↦ ground arith
        | inr (j, listed) ↦
            override_providers-AllKnown ex m (add id s.0, insert capability id s.1) t
              (λ x m. elim (Bool-cases (id == x)) [
                | inl same ↦
                    subst (λ y. mem y (ids_of_components c.components) ≡ true)
                      ((eq_iff id x).0 same) (known-find_component id c.components j listed)
                | inr other ↦ k x (ground (arith, other, mem-add id x s.0, m))
              ])
              (ground arith)
      ]

  select_dependencies-Blameless :
      (id : String) (ds : List String) (ex : Keys) (s : Keys × Keys)
      → Blameless (select_dependencies id ds ex s)
  unfolding select_dependencies
  select_dependencies-Blameless id [] ex s e b h = cc
  select_dependencies-Blameless id (d ∷ ds) ex (q, s) e b h = ground (
    arith,
    select_dependencies-Blameless id ds ex (if mem d s then (q, s) else (q ++ d ∷ [], d ∷ s)) e,
  )

  select_dependencies-AllKnown :
      (id : String) (ds : List String) (ex q s : Keys) (t : Keys × Keys)
      → AllKnown c ds
      → AllKnown c q
      → AllKnown c s
      → select_dependencies id ds ex (q, s) ≡ ok t
      → AllKnown c t.0 × AllKnown c t.1
  unfolding select_dependencies
  select_dependencies-AllKnown id [] ex q s t kd kq ks h =
      (λ x m. kq x (ground (arith, h, m)), λ x m. ks x (ground (arith, h, m)))
  select_dependencies-AllKnown id (d ∷ ds) ex q s t kd kq ks h =
      let first = kd d (mem_self d ds) in
      let rest = λ (x : String) (m : mem x ds ≡ true). kd x (unfold mem in ground arith) in
      elim (Bool-cases (mem d s)) [
        | inl old ↦ select_dependencies-AllKnown id ds ex q s t rest kq ks (ground arith)
        | inr new ↦
            select_dependencies-AllKnown id ds ex (q ++ d ∷ []) (d ∷ s) t rest
              (λ x m. elim (mem-snoc x d q m) [
                | inl same ↦ subst (λ y. mem y (ids_of_components c.components) ≡ true) same first
                | inr old ↦ kq x old
              ])
              (λ x m. elim (mem-cons x d s m) [
                | inl same ↦ subst (λ y. mem y (ids_of_components c.components) ≡ true) same first
                | inr old ↦ ks x old
              ])
              (ground arith)
      ]

  -- Every dependency of a component is an id of the catalog.
  abbrev pub DependenciesKnown : Type 0
  DependenciesKnown =
      (id : String) (k : Component) → component_by_id c id ≡ some k → AllKnown c k.depends_on

  known_component :
      (id : String)
      → mem id (ids_of_components c.components) ≡ true
      → (k : Component) × (component_by_id c id ≡ some k)
  unfolding component_by_id
  known_component id m = find_component-known id c.components m

  expand_queue-Blameless :
      (fuel : ℕ) (ex q s : Keys)
      → DependenciesKnown
      → AllKnown c q
      → AllKnown c s
      → (e : PlanError) → blames_request e ≡ false
      → ¬ (e ≡ out_of_fuel)
      → ¬ (expand_queue fuel c ex q s ≡ err e)
  unfolding expand_queue
  expand_queue-Blameless fuel ex [] s dk kq ks e b n h = cc
  expand_queue-Blameless zero ex (id ∷ q) s dk kq ks e b n h = n (cc)
  expand_queue-Blameless (suc fuel) ex (id ∷ q) s dk kq ks e b n h =
      let (k, listed) = known_component id (kq id (mem_self id q)) in
      elim (Result-cases (select_dependencies k.id k.depends_on ex (q, s))) [
        | inr (x, failed) ↦
            select_dependencies-Blameless k.id k.depends_on ex (q, s) e b (ground arith)
        | inl (t, done) ↦
            let r =
              select_dependencies-AllKnown k.id k.depends_on ex q s t (dk id k listed)
                (λ x m. kq x (unfold mem in ground arith)) ks done in
            expand_queue-Blameless fuel ex t.0 t.1 dk r.0 r.1 e b n (ground arith)
      ]

  expand_queue-AllKnown :
      (fuel : ℕ) (ex q s : Keys) (t : Keys)
      → DependenciesKnown
      → AllKnown c q
      → AllKnown c s
      → expand_queue fuel c ex q s ≡ ok t
      → AllKnown c t
  unfolding expand_queue
  expand_queue-AllKnown fuel ex [] s t dk kq ks h = λ x m. ks x (ground (arith, h, m))
  expand_queue-AllKnown zero ex (id ∷ q) s t dk kq ks h = cc
  expand_queue-AllKnown (suc fuel) ex (id ∷ q) s t dk kq ks h =
      let (k, listed) = known_component id (kq id (mem_self id q)) in
      elim (Result-cases (select_dependencies k.id k.depends_on ex (q, s))) [
        | inr (x, failed) ↦ ground arith
        | inl (u, done) ↦
            let r =
              select_dependencies-AllKnown k.id k.depends_on ex q s u (dk id k listed)
                (λ x m. kq x (unfold mem in ground arith)) ks done in
            expand_queue-AllKnown fuel ex u.0 u.1 t dk r.0 r.1 (ground arith)
      ]
