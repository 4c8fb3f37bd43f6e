-- ===== src/Catalog/Grounded.antt =====
-- internal/catalog/catalog.go: `validateDependencyCycles`, against dependencies that end somewhere.
pub mod Complete
use Prim.Native.String.{String}
use text.Mathlib.Text.{◌==◌}
use text.Mathlib.TextEquality.{eq_iff}
use agent_stack_manager.Prelude.{
  ℕ, zero, suc, ◌≤◌, ◌<◌, ◌≡◌, ◌≢◌, refl, sym, subst, ap, ◌∙◌, ◌⊎◌, inl, inr, Bool, true, false,
  Bool-cases, List, [], ◌∷◌, ◌++◌, map, Result, ok, err, Result-cases, length, All, arith,
  if◌then◌else◌,
}
use agent_stack_manager.Prelude.Maps.{Keys, mem, mem-cons, lookup, insert, lookup-insert}
use agent_stack_manager.Model.{Component}
use agent_stack_manager.Planner.Visits.{Mark, unseen, visiting, visited}
use agent_stack_manager.Catalog.Cycles.{
  CycleError, cycle, out_of_fuel, dependencies_of, Marks, mark_in, Walk, walk_all, walk_marked,
  walk, walk_each, validate_dependency_cycles,
}

-- No chain of dependencies from the id goes on for ever.
pub data Grounded (next : String → List String) : String → Type 0 where
  grounded :
      {id : String} → ((d : String) → mem d (next id) ≡ true → Grounded next d) → Grounded next id

-- A chain of at least one dependency.
pub data Reaches (next : String → List String) (x : String) : String → Type 0 where
  edge : {y : String} → mem y (next x) ≡ true → Reaches next x y
  step : {y : String} (z : String) → Reaches next x z → mem y (next z) ≡ true → Reaches next x y

first_edge :
    (next : String → List String) (x y : String)
    → Reaches next x y
    → (d : String) × (mem d (next x) ≡ true) × ((d ≡ y) ⊎ Reaches next d y)
first_edge next x y (edge m) = (y, m, inl refl)
first_edge next x y (step z r m) =
    let (d, e, later) = first_edge next x z r in
    (
      d,
      e,
      elim later [
        | inl same ↦ inr (edge (subst (λ w. mem y (next w) ≡ true) (sym same) m))
        | inr path ↦ inr (step z path m)
      ],
    )

-- Nothing grounded reaches itself.
pub Grounded-ne-Reaches :
    (next : String → List String) (x : String) → Grounded next x → ¬ Reaches next x x
Grounded-ne-Reaches next x (grounded below) r =
    let (d, m, later) = first_edge next x x r in
    Grounded-ne-Reaches next d (below d m) (elim later [
      | inl same ↦ edge (subst (λ w. mem d (next w) ≡ true) (sym same) m)
      | inr path ↦ step x path m
    ])

pub mark_in-insert :
    (state : Marks) (id x : String) (m : Mark)
    → mark_in (insert id m state) x ≡ (if id == x then m else mark_in state x)
mark_in-insert state id x m = ground (arith, lookup-insert id x m state)

pub Mark-cases : (m : Mark) → (m ≡ unseen) ⊎ (m ≡ visiting) ⊎ (m ≡ visited)
Mark-cases unseen = inl refl
Mark-cases visiting = inr (inl refl)
Mark-cases visited = inr (inr refl)

module _ (ks : List Component) where
  abbrev pub next : String → List String
  next = dependencies_of ks []

  abbrev pub Done : Marks → Type 0
  Done state = (x : String) → mark_in state x ≡ visited → Grounded next x

  -- What a call leaves: nothing more is being visited, and nothing is forgotten.
  pub record Walked (s s' : Marks) : Type 0 where
    pub shrinks : (x : String) → mark_in s' x ≡ visiting → mark_in s x ≡ visiting
    pub keeps : (x : String) → mark_in s x ≢ unseen → mark_in s' x ≢ unseen

  Walked-trans : (s t u : Marks) → Walked s t → Walked t u → Walked s u
  Walked-trans s t u a b = record {
    shrinks = λ x h. a.shrinks x (b.shrinks x h);
    keeps = λ x h. b.keeps x (a.keeps x h);
  }

  abbrev pub Sound : Walk → Type 0
  Sound walk =
      (stack : List String) (id : String) (s s' : Marks)
      → walk stack id s ≡ ok s'
      → Walked s s' × (Done s → Done s' × Grounded next id)

  walk_all-Sound :
      (walk : Walk)
      → Sound walk
      → (stack ds : List String) (s s' : Marks) → walk_all walk stack ds s ≡ ok s'
      → Walked s s' × (Done s → Done s' × ((d : String) → mem d ds ≡ true → Grounded next d))
  unfolding walk_all mem
  walk_all-Sound walk sound stack [] s s' h =
      let same : s ≡ s' = cc in
      subst
        (λ t. Walked s t × (Done s → Done t × ((d : String) → mem d [] ≡ true → Grounded next d)))
        same (record { shrinks = λ x e. e; keeps = λ x e. e }, λ g. (g, λ d m. cc))
  walk_all-Sound walk sound stack (d ∷ ds) s s' h = elim (Result-cases (walk stack d s)) [
    | inr (e, failed) ↦ ground arith
    | inl (t, head) ↦
        let first = sound stack d s t head in
        let rest = walk_all-Sound walk sound stack ds t s' (ground arith) in
        (
          Walked-trans s t s' first.0 rest.0,
          λ g.
              let one = first.1 g in
              let all = rest.1 one.0 in
              (
                all.0,
                λ x m. elim (mem-cons x d ds m) [
                  | inl same ↦ subst (Grounded next) same one.1
                  | inr later ↦ all.1 x later
                ],
              ),
        )
  ]

  Walked-visiting :
      (id : String) (s t : Marks)
      → mark_in s id ≡ unseen
      → Walked (insert id visiting s) t
      → Walked s (insert id visited t)
  Walked-visiting id s t u w = record {
    shrinks = λ x h. ground (
      arith,
      eq_iff id x,
      mark_in-insert t id x visited,
      mark_in-insert s id x visiting,
      w.shrinks x,
      h,
    );
    keeps = λ x h e. ground (
      arith,
      eq_iff id x,
      mark_in-insert t id x visited,
      mark_in-insert s id x visiting,
      w.keeps x,
      h,
      e,
    );
  }

  walk_marked-Sound :
      (walk : Walk)
      → Sound walk
      → (m : Mark) (stack : List String) (id : String) (s s' : Marks) → mark_in s id ≡ m
      → walk_marked walk ks m stack id s ≡ ok s'
      → Walked s s' × (Done s → Done s' × Grounded next id)
  unfolding walk_marked
  walk_marked-Sound walk sound visiting stack id s s' u h = cc
  walk_marked-Sound walk sound visited stack id s s' u h =
      let same : s ≡ s' = cc in
      subst (λ t. Walked s t × (Done s → Done t × Grounded next id)) same
        (record { shrinks = λ x e. e; keeps = λ x e. e }, λ g. (g, g id u))
  walk_marked-Sound walk sound unseen stack id s s' u h =
      elim (Result-cases (walk_all walk (stack ++ id ∷ []) (next id) (insert id visiting s))) [
        | inr (e, failed) ↦ ground arith
        | inl (t, done) ↦
            let r = walk_all-Sound walk sound (stack ++ id ∷ []) (next id) _ t done in
            let same : insert id visited t ≡ s' = ground arith in
            subst (λ x. Walked s x × (Done s → Done x × Grounded next id)) same
              (
                Walked-visiting id s t u r.0,
                λ g.
                    let all = r.1 (λ x v.
                      g x (ground (arith, eq_iff id x, mark_in-insert s id x visiting, v))) in
                    let here : Grounded next id = grounded all.1 in
                    (
                      λ x v. elim (Bool-cases (id == x)) [
                        | inl e ↦ subst (Grounded next) ((eq_iff id x).0 e) here
                        | inr n ↦ all.0 x (ground (arith, n, mark_in-insert t id x visited, v))
                      ],
                      here,
                    ),
              )
      ]

  pub walk-Sound : (fuel : ℕ) → Sound (walk fuel ks)
  unfolding walk
  walk-Sound zero stack id s s' h = cc
  walk-Sound (suc fuel) stack id s s' h =
      walk_marked-Sound (walk fuel ks) (walk-Sound fuel) (mark_in s id) stack id s s' refl h

  pub walk_each-Grounded :
      (fuel : ℕ) (rest : List Component) (s s' : Marks)
      → ((x : String) → mark_in s x ≢ visiting)
      → Done s
      → walk_each (walk fuel ks) rest s ≡ ok s'
      → All (λ k. Grounded next k.id) rest
  unfolding walk_each
  walk_each-Grounded fuel [] s s' quiet g h = tt
  walk_each-Grounded fuel (k ∷ rest) s s' quiet g h = elim (Mark-cases (mark_in s k.id)) [
    | inr (inl busy) ↦ absurd (quiet k.id busy)
    | inr (inr old) ↦
        (g k.id old, walk_each-Grounded fuel rest s s' quiet g (ground (arith, old, h)))
    | inl new ↦ elim (Result-cases (walk fuel ks [] k.id s)) [
      | inr (e, failed) ↦ ground arith
      | inl (t, done) ↦
          let r = walk-Sound fuel [] k.id s t done in
          let one = r.1 g in
          (
            one.1,
            walk_each-Grounded fuel rest t s' (λ x v. quiet x (r.0.shrinks x v)) one.0
                (ground (arith, new, done, h)),
          )
    ]
  ]
