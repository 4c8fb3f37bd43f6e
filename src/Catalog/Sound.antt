-- ===== src/Catalog/Sound.antt =====
-- What holds of every catalog that `Validate` accepts.
use Prim.Native.String.{String}
use text.Mathlib.TextEquality.{eq_iff}
use agent_stack_manager.Prelude.{
  ◌≡◌, ◌≢◌, refl, sym, ◌∙◌, true, false, List, [], ◌∷◌, map, ok, with_ok, ensure, All, inl, inr,
  arith, All-imp,
}
use agent_stack_manager.Prelude.Maps.{Keys, mem}
use agent_stack_manager.Model.{Component, Profile, Catalog}
use agent_stack_manager.Planner.Placement.{IsDistinct}
use agent_stack_manager.Catalog.Acquisition.{Library}
use agent_stack_manager.Catalog.Cycles.{validate_dependency_cycles}
use agent_stack_manager.Catalog.Grounded.{Grounded, next}
use agent_stack_manager.Catalog.Grounded.Complete.{validate_dependency_cycles_lem}
use agent_stack_manager.Catalog.Components.{
  ids_of_components, OnePreferred, IsComplete, check_components-Checked,
}
use agent_stack_manager.Catalog.Validate.{
  bad_version, is_positive, check_components, check_dependencies, check_all_dependencies,
  check_members, check_profiles, acyclic, validate,
}

-- The dependencies of a component are others, distinct, and among `ids`.
pub record HasKnownDependencies (ids : Keys) (k : Component) : Type 0 where
  pub others : mem k.id k.depends_on ≡ false
  pub distinct : IsDistinct k.depends_on
  pub known : (d : String) → mem d k.depends_on ≡ true → mem d ids ≡ true

pub record HasKnownMembers (ids : Keys) (p : Profile) : Type 0 where
  pub named : p.id ≢ ""
  pub known : (id : String) → mem id p.components ≡ true → mem id ids ≡ true

abbrev pub ids_of_profiles : List Profile → Keys
ids_of_profiles = map (λ p. p.id)

-- A valid catalog: ids are distinct and not blank, what is installed is locked, dependencies and
-- profiles name components, no two preferred components share a capability, and no chain of
-- dependencies goes on for ever.
pub record IsValid (l : Library) (c : Catalog) : Type 0 where
  pub positive : is_positive c.version ≡ true
  pub complete : All (IsComplete l) c.components
  pub distinct : IsDistinct (ids_of_components c.components)
  pub one_preferred : OnePreferred c.components
  pub dependencies : All (HasKnownDependencies (ids_of_components c.components)) c.components
  pub acyclic_lem : All (λ k. Grounded (next c.components) k.id) c.components
  pub profiles : All (HasKnownMembers (ids_of_components c.components)) c.profiles
  pub profiles_distinct : IsDistinct (ids_of_profiles c.profiles)

record DependenciesFrom (ids seen ds : Keys) (id : String) : Type 0 where
  others : mem id ds ≡ false
  distinct : IsDistinct ds
  fresh : (x : String) → mem x seen ≡ true → mem x ds ≡ false
  known : (d : String) → mem d ds ≡ true → mem d ids ≡ true

check_dependencies-From :
    (ids : Keys) (id : String) (ds seen : Keys)
    → check_dependencies ids id ds seen ≡ ok tt
    → DependenciesFrom ids seen ds id
unfolding check_dependencies mem
check_dependencies-From ids id [] seen h = record {
  others = refl;
  distinct = tt;
  fresh = λ x m. refl;
  known = λ d m. cc;
}
check_dependencies-From ids id (d ∷ ds) seen h =
    let r = check_dependencies-From ids id ds (d ∷ seen) (ground arith) in
    record {
      others = ground (arith, r.others);
      distinct = (r.fresh d (ground (arith, eq_iff d d)), r.distinct);
      fresh = λ x m. ground (arith, r.fresh x, eq_iff d x, m, h);
      known = λ x m. ground (arith, r.known x, eq_iff d x, m, h);
    }

check_all_dependencies-Known :
    (ids : Keys) (ks : List Component)
    → check_all_dependencies ids ks ≡ ok tt
    → All (HasKnownDependencies ids) ks
unfolding check_all_dependencies
check_all_dependencies-Known ids [] h = tt
check_all_dependencies-Known ids (k ∷ ks) h =
    with_ok {m = check_dependencies ids k.id k.depends_on []} h λ u head rest.
      let r = check_dependencies-From ids k.id k.depends_on [] head in
      (
        record { others = r.others; distinct = r.distinct; known = r.known },
        check_all_dependencies-Known ids ks rest,
      )

check_members-known :
    (ids : Keys) (profile : String) (members : List String) (x : String)
    → check_members ids profile members ≡ ok tt
    → mem x members ≡ true
    → mem x ids ≡ true
unfolding check_members mem
check_members-known ids profile [] x h m = cc
check_members-known ids profile (id ∷ rest) x h m =
    ground (arith, check_members-known ids profile rest x, eq_iff id x, h, m)

record ProfilesFrom (ids seen : Keys) (ps : List Profile) : Type 0 where
  known : All (HasKnownMembers ids) ps
  distinct : IsDistinct (ids_of_profiles ps)
  fresh : (x : String) → mem x seen ≡ true → mem x (ids_of_profiles ps) ≡ false

check_profiles-From :
    (ids : Keys) (ps : List Profile) (seen : Keys)
    → check_profiles ids ps seen ≡ ok tt
    → ProfilesFrom ids seen ps
unfolding check_profiles mem
check_profiles-From ids [] seen h = record { known = tt; distinct = tt; fresh = λ x m. refl }
check_profiles-From ids (p ∷ ps) seen h =
    let r = check_profiles-From ids ps (p.id ∷ seen) (ground arith) in
    record {
      known = (
        record {
          named = λ e. ground (arith, eq_iff p.id "", e, h);
          known = λ id m. check_members-known ids p.id p.components id (ground arith) m;
        },
        r.known,
      );
      distinct = (r.fresh p.id (ground (arith, eq_iff p.id p.id)), r.distinct);
      fresh = λ x m. ground (arith, r.fresh x, eq_iff p.id x, m, h);
    }

-- Every catalog that `Validate` accepts is valid: its ids are distinct and not blank, each
-- component with a tier names platforms and passes the checks of its supply chain, no two preferred
-- components share a capability, dependencies are distinct others that exist, no chain of them goes
-- on for ever, and profiles have distinct ids and name components that exist.
pub validate-IsValid : (l : Library) (c : Catalog) → validate l c ≡ ok tt → IsValid l c
unfolding validate mem
validate-IsValid l c h = with_ok {m = ensure (is_positive c.version) bad_version} h λ u positive h₁.
    with_ok {m = check_components l 0 c.components (record { ids = []; preferred = [] })} h₁
      λ seen components h₂.
        with_ok {m = check_all_dependencies seen.ids c.components} h₂ λ u₁ dependencies h₃.
          with_ok {m = acyclic (validate_dependency_cycles c.components)} h₃ λ u₂ cycles profiles.
            let k = check_components-Checked l 0 c.components _ seen components in
            let same = λ (x : String). k.ids_lem x ∙ ground arith in
            let p = check_profiles-From seen.ids c.profiles [] profiles in
            record {
              positive = ground arith;
              complete = k.complete;
              distinct = k.distinct;
              one_preferred = k.one_preferred;
              dependencies =
                  All-imp c.components
                    (λ k' d. record {
                      others = d.others;
                      distinct = d.distinct;
                      known = λ x m. sym (same x) ∙ d.known x m;
                    })
                    (check_all_dependencies-Known seen.ids c.components dependencies);
              acyclic_lem = elim (validate_dependency_cycles_lem c.components) [
                | inl (s, g) ↦ g
                | inr ((path, failed), n) ↦ absurd (ground (arith, failed, cycles))
              ];
              profiles =
                  All-imp c.profiles
                    (λ p' d. record { named = d.named; known = λ x m. sym (same x) ∙ d.known x m })
                    p.known;
              profiles_distinct = p.distinct;
            }
