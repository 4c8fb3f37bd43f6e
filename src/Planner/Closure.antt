-- ===== src/Planner/Closure.antt =====
-- internal/planner/planner.go: `expandDependencies`, against the closure of the selection.
use Prim.Native.String.{String}
use text.Mathlib.TextEquality.{eq_iff}
use agent_stack_manager.Prelude.{
  ℕ, zero, suc, ◌+◌, ◌≤◌, ◌≡◌, ◌≢◌, subst, ◌⊎◌, inl, inr, true, false, Bool-cases, Option, none,
  some, Option-cases, Result-cases, List, [], ◌∷◌, ◌++◌, ok, err, >>=-eq-ok, arith, length,
  length-append, if◌then◌else◌,
}
use agent_stack_manager.Prelude.Maps.{
  Keys, mem, mem-append, mem_self, mem-cons, missing, missing-cons_lt, missing-le-length,
}
use agent_stack_manager.Model.{Component, Catalog, component_by_id, find_component}
use agent_stack_manager.Planner.Selection.{
  PlanError, out_of_fuel, missing_component, found, select_dependencies, expand_queue,
  all_dependencies, expand_dependencies,
}

-- What the inner loop does to the queue and the selection, given the dependencies `ds`.
record Grown (excluded : Keys) (ds : List String) (q s q' s' : Keys) : Type 0 where
  keeps : (x : String) → mem x s ≡ true → mem x s' ≡ true
  queue_keeps : (x : String) → mem x q ≡ true → mem x q' ≡ true
  takes : (x : String) → mem x ds ≡ true → mem x s' ≡ true
  queued : (x : String) → mem x s' ≡ true → (mem x s ≡ true) ⊎ (mem x q' ≡ true)
  inside : (x : String) → mem x q' ≡ true → (mem x q ≡ true) ⊎ (mem x s' ≡ true)
  only : (x : String) → mem x s' ≡ true → (mem x s ≡ true) ⊎ (mem x ds ≡ true)
  clean : (x : String) → mem x excluded ≡ true → mem x s ≡ false → mem x s' ≡ false
  fewer :
      (all : Keys)
      → ((x : String) → mem x ds ≡ true → mem x all ≡ true)
      → length q' + missing all s' ≤ length q + missing all s

module _ (id : String) (excluded : Keys) where
  select_inv :
      (d : String) (ds : List String) (q s : Keys) {r : Keys × Keys}
      → select_dependencies id (d ∷ ds) excluded (q, s) ≡ ok r
      → (mem d excluded ≡ false)
        × (select_dependencies id ds excluded (if mem d s then (q, s) else (q ++ d ∷ [], d ∷ s))
            ≡ ok r)
  unfolding select_dependencies
  select_inv d ds q s h = (ground arith, ground arith)

  Grown-old :
      (d : String) (ds : List String) (q s q' s' : Keys)
      → mem d s ≡ true
      → Grown excluded ds q s q' s'
      → Grown excluded (d ∷ ds) q s q' s'
  unfolding mem
  Grown-old d ds q s q' s' m g = record {
    keeps = g.keeps;
    queue_keeps = g.queue_keeps;
    takes = λ x h. ground (arith, eq_iff d x, g.takes x, g.keeps x);
    queued = g.queued;
    inside = g.inside;
    only = λ x h. ground (arith, g.only x h);
    clean = g.clean;
    fewer = λ all w. g.fewer all (λ x h. w x (ground arith));
  }

  Grown-new :
      (d : String) (ds : List String) (q s q' s' : Keys)
      → mem d excluded ≡ false
      → mem d s ≡ false
      → Grown excluded ds (q ++ d ∷ []) (d ∷ s) q' s'
      → Grown excluded (d ∷ ds) q s q' s'
  unfolding mem
  Grown-new d ds q s q' s' m n g = record {
    keeps = λ x h. g.keeps x (ground arith);
    queue_keeps = λ x h. g.queue_keeps x (ground (arith, mem-append x q (d ∷ [])));
    takes = λ x h. ground (arith, eq_iff d x, g.takes x, g.keeps x);
    queued =
        λ x h. ground (arith, eq_iff d x, g.queued x h, g.queue_keeps x, mem-append x q (d ∷ []));
    inside = λ x h. ground (arith, eq_iff d x, g.inside x h, g.keeps x, mem-append x q (d ∷ []));
    only = λ x h. ground (arith, eq_iff d x, g.only x h);
    clean = λ x e h. ground (arith, eq_iff d x, g.clean x e);
    fewer = λ all w. omega (
      arith,
      g.fewer all (λ x h. w x (ground arith)),
      length-append q (d ∷ []),
      missing-cons_lt all d s (w d (ground (arith, eq_iff d d))) n,
    );
  }

  select-Grown :
      (ds : List String) (q s q' s' : Keys)
      → select_dependencies id ds excluded (q, s) ≡ ok (q', s')
      → Grown excluded ds q s q' s'
  select-Grown [] q s q' s' h =
      let eq : q ≡ q' = unfold select_dependencies in cc in
      let es : s ≡ s' = unfold select_dependencies in cc in
      record {
        keeps = λ x k. rw (← es) k;
        queue_keeps = λ x k. rw (← eq) k;
        takes = λ x k. unfold mem in cc;
        queued = λ x k. inl (rw es k);
        inside = λ x k. inl (rw eq k);
        only = λ x k. inl (rw es k);
        clean = λ x e k. rw (← es) k;
        fewer = λ all w. rw (← eq, ← es) (omega arith);
      }
  select-Grown (d ∷ ds) q s q' s' h =
      let (m, rest) = select_inv d ds q s h in
      elim (Bool-cases (mem d s)) [
        | inl old ↦ Grown-old d ds q s q' s' old (select-Grown ds q s q' s' (ground arith))
        | inr new ↦
            Grown-new d ds q s q' s' m new
              (select-Grown ds (q ++ d ∷ []) (d ∷ s) q' s' (ground arith))
      ]

pub found-eq-ok :
    {A : Type 0} (e : PlanError) (o : Option A) (a : A) → found e o ≡ ok a → o ≡ some a
found-eq-ok e none a h = cc
found-eq-ok e (some b) a h = cc

-- A selected component is in the catalog, and its dependencies are selected.
pub record Done (c : Catalog) (s : Keys) (x : String) : Type 0 where
  pub component : Component
  pub listed : component_by_id c x ≡ some component
  pub closed : (d : String) → mem d component.depends_on ≡ true → mem d s ≡ true

-- What a selection needs: itself, and the dependencies of what it needs.
pub data Needs (c : Catalog) (s : Keys) : String → Type 0 where
  asked : {x : String} → mem x s ≡ true → Needs c s x
  depends :
      {x d : String} (k : Component)
      → Needs c s x
      → component_by_id c x ≡ some k
      → mem d k.depends_on ≡ true
      → Needs c s d

Done-grows :
    (c : Catalog) (s t : Keys) (x : String)
    → ((d : String) → mem d s ≡ true → mem d t ≡ true)
    → Done c s x
    → Done c t x
Done-grows c s t x w r = record {
  component = r.component;
  listed = r.listed;
  closed = λ d h. w d (r.closed d h);
}

-- Between two rounds: what is selected is on the queue or done.
record Rounds (c : Catalog) (excluded start q s : Keys) : Type 0 where
  keeps : (x : String) → mem x start ≡ true → mem x s ≡ true
  progress : (x : String) → mem x s ≡ true → (mem x q ≡ true) ⊎ Done c s x
  queue_selected : (x : String) → mem x q ≡ true → mem x s ≡ true
  needed : (x : String) → mem x s ≡ true → Needs c start x
  clean : (x : String) → mem x excluded ≡ true → mem x start ≡ false → mem x s ≡ false

-- The closure of a selection.
pub record IsClosure (c : Catalog) (excluded start s : Keys) : Type 0 where
  pub keeps : (x : String) → mem x start ≡ true → mem x s ≡ true
  pub closed : (x : String) → mem x s ≡ true → Done c s x
  pub needed : (x : String) → mem x s ≡ true → Needs c start x
  pub clean : (x : String) → mem x excluded ≡ true → mem x start ≡ false → mem x s ≡ false

module _ (c : Catalog) (excluded start : Keys) where
  Rounds-next :
      (id : String) (q s q' s' : Keys) (k : Component)
      → component_by_id c id ≡ some k
      → Grown excluded k.depends_on q s q' s'
      → Rounds c excluded start (id ∷ q) s
      → Rounds c excluded start q' s'
  Rounds-next id q s q' s' k e g r = record {
    keeps = λ x h. g.keeps x (r.keeps x h);
    progress = λ x h. elim (g.queued x h) [
      | inl old ↦ elim (r.progress x old) [
        | inl waits ↦ elim (mem-cons x id q waits) [
          | inl same ↦ inr (record { component = k; listed = rw (← same) e; closed = g.takes })
          | inr rest ↦ inl (g.queue_keeps x rest)
        ]
        | inr done ↦ inr (Done-grows c s s' x g.keeps done)
      ]
      | inr new ↦ inl new
    ];
    queue_selected = λ x h. elim (g.inside x h) [
      | inl old ↦ g.keeps x (r.queue_selected x (unfold mem in ground arith))
      | inr new ↦ new
    ];
    needed = λ x h. elim (g.only x h) [
      | inl old ↦ r.needed x old
      | inr new ↦ Needs.depends k (r.needed id (r.queue_selected id (mem_self id q))) e new
    ];
    clean = λ x h n. g.clean x h (r.clean x h n);
  }

  Rounds-end : (s : Keys) → Rounds c excluded start [] s → IsClosure c excluded start s
  Rounds-end s r = record {
    keeps = r.keeps;
    closed = λ x h. elim (r.progress x h) [ inl waits ↦ unfold mem in cc | inr done ↦ done ];
    needed = r.needed;
    clean = r.clean;
  }

  expand_inv :
      (fuel : ℕ) (id : String) (q s t : Keys)
      → expand_queue (suc fuel) c excluded (id ∷ q) s ≡ ok t
      → (k : Component) × (q' : Keys) × (s' : Keys) × (component_by_id c id ≡ some k)
        × (select_dependencies k.id k.depends_on excluded (q, s) ≡ ok (q', s'))
        × (expand_queue fuel c excluded q' s' ≡ ok t)
  unfolding expand_queue
  expand_inv fuel id q s t h =
      let (k, e, rest) = >>=-eq-ok (found (missing_component id) (component_by_id c id)) _ h in
      let (r, sel, last) =
        >>=-eq-ok (select_dependencies k.id k.depends_on excluded (q, s)) _ rest in
      (k, r.0, r.1, found-eq-ok _ _ k e, sel, last)

  expand_queue-IsClosure :
      (fuel : ℕ) (q s t : Keys)
      → Rounds c excluded start q s
      → expand_queue fuel c excluded q s ≡ ok t
      → IsClosure c excluded start t
  expand_queue-IsClosure zero [] s t r h =
      let e : s ≡ t = unfold expand_queue in cc in
      subst (IsClosure c excluded start) e (Rounds-end s r)
  expand_queue-IsClosure (suc fuel) [] s t r h =
      let e : s ≡ t = unfold expand_queue in cc in
      subst (IsClosure c excluded start) e (Rounds-end s r)
  expand_queue-IsClosure zero (id ∷ q) s t r h = unfold expand_queue in cc
  expand_queue-IsClosure (suc fuel) (id ∷ q) s t r h =
      let (k, q', s', e, sel, last) = expand_inv fuel id q s t h in
      expand_queue-IsClosure fuel q' s' t
        (Rounds-next id q s q' s' k e (select-Grown k.id excluded k.depends_on q s q' s' sel) r)
        last

-- An expansion that succeeds returns the closure of the selection: all that was selected and all that
-- it depends on, directly or not, and nothing else; each of it is in the catalog, and nothing that is
-- excluded is taken in.
pub expand_dependencies-IsClosure :
    (c : Catalog) (selected excluded s : Keys)
    → expand_dependencies c selected excluded ≡ ok s
    → IsClosure c excluded selected s
unfolding expand_dependencies
expand_dependencies-IsClosure c selected excluded s h =
    expand_queue-IsClosure c excluded selected _ selected selected s
      (record {
        keeps = λ x k. k;
        progress = λ x k. inl k;
        queue_selected = λ x k. k;
        needed = λ x k. Needs.asked k;
        clean = λ x k n. n;
      })
      h

-- Every dependency of a listed component is one of the catalog's.
find_component-dependencies :
    (ks : List Component) (id : String) (k : Component) (d : String)
    → find_component id ks ≡ some k
    → mem d k.depends_on ≡ true
    → mem d (all_dependencies ks) ≡ true
unfolding find_component
find_component-dependencies [] id k d e h = cc
find_component-dependencies (j ∷ ks) id k d e h =
    ground (
      arith,
      mem-append d j.depends_on (all_dependencies ks),
      find_component-dependencies ks id k d,
    )

select_dependencies_total :
    (id : String) (excluded : Keys) (ds : List String) (q s : Keys)
    → select_dependencies id ds excluded (q, s) ≢ err out_of_fuel
unfolding select_dependencies
select_dependencies_total id excluded [] q s h = cc
select_dependencies_total id excluded (d ∷ ds) q s h = ground (
  arith,
  select_dependencies_total id excluded ds q s,
  select_dependencies_total id excluded ds (q ++ d ∷ []) (d ∷ s),
)

module _ (c : Catalog) (excluded : Keys) where
  -- The fuel covers the queue and the dependencies that are still to be selected.
  expand_queue_total :
      (fuel : ℕ) (q s : Keys)
      → length q + missing (all_dependencies c.components) s ≤ fuel
      → expand_queue fuel c excluded q s ≢ err out_of_fuel
  expand_queue_total zero [] s h e = unfold expand_queue in cc
  expand_queue_total (suc fuel) [] s h e = unfold expand_queue in cc
  expand_queue_total zero (id ∷ q) s h e = absurd (omega arith)
  expand_queue_total (suc fuel) (id ∷ q) s h e = elim (Option-cases (component_by_id c id)) [
    | inl absent ↦ unfold expand_queue in ground arith
    | inr (k, listed) ↦
        elim (Result-cases (select_dependencies k.id k.depends_on excluded (q, s))) [
          | inl ((q', s'), sel) ↦
              let g = select-Grown k.id excluded k.depends_on q s q' s' sel in
              let fewer = g.fewer (all_dependencies c.components) (λ d m.
                unfold component_by_id in
                find_component-dependencies c.components id k d listed m) in
              expand_queue_total fuel q' s' (omega arith) (unfold expand_queue in ground arith)
          | inr (x, failed) ↦
              select_dependencies_total k.id excluded k.depends_on q s
                (unfold expand_queue in ground arith)
        ]
  ]

-- The fuel of `expandDependencies` is enough, whatever the catalog and the selection, cyclic
-- dependencies included: it always returns.
pub expand_dependencies_total :
    (c : Catalog) (selected excluded : Keys)
    → expand_dependencies c selected excluded ≢ err out_of_fuel
unfolding expand_dependencies
expand_dependencies_total c selected excluded =
    expand_queue_total c excluded _ selected selected
      (omega (arith, missing-le-length (all_dependencies c.components) selected))
