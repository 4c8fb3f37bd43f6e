-- ===== src/Planner/Selected.antt =====
-- What the loops over inclusions, exclusions and provider overrides do to the selection.
use Prim.Native.String.{String}
use text.Mathlib.Text.{◌==◌}
use text.Mathlib.TextEquality.{eq_iff}
use agent_stack_manager.Prelude.{
  ◌≡◌, refl, subst, ◌⊎◌, inl, inr, true, false, not, Bool-cases, List, [], ◌∷◌, map, ok, with_ok,
  ensure, arith,
}
use agent_stack_manager.Prelude.Maps.{
  Keys, Map, mem, mem-cons, mem-add, mem-remove, add, remove, insert,
}
use agent_stack_manager.Model.{Catalog, component_by_id}
use agent_stack_manager.Planner.Selection.{
  unknown_included, unknown_excluded, unknown_override, included_and_excluded, wrong_capability,
  override_excluded, found, Selection, add_all, include_all, exclude_all,
}
use agent_stack_manager.Planner.Providers.{override_providers}

pub record Included (ids : List String) (s s' : Selection) : Type 0 where
  pub taken :
      (x : String) → mem x ids ≡ true → (mem x s'.included ≡ true) × (mem x s'.selected ≡ true)
  pub kept : (x : String) → mem x s.selected ≡ true → mem x s'.selected ≡ true
  pub listed : (x : String) → mem x s.included ≡ true → mem x s'.included ≡ true
  pub excluded : s'.excluded ≡ s.excluded

pub include_all-Included :
    (c : Catalog) (ids : List String) (s s' : Selection)
    → include_all c ids s ≡ ok s'
    → Included ids s s'
unfolding include_all
include_all-Included c [] s s' h =
    let e : s ≡ s' = cc in
    subst (Included [] s) e (record {
      taken = λ x m. unfold mem in cc;
      kept = λ x m. m;
      listed = λ x m. m;
      excluded = refl;
    })
include_all-Included c (id ∷ ids) s s' h =
    with_ok {m = found (unknown_included id) (component_by_id c id)} h λ k e rest.
      let t : Selection = record s { included = add id s.included; selected = add id s.selected } in
      let r = include_all-Included c ids t s' rest in
      record {
        taken = λ x m. elim (mem-cons x id ids m) [
          | inl same ↦ (
            r.listed x (ground (arith, mem-add id x s.included, eq_iff id x)),
            r.kept x (ground (arith, mem-add id x s.selected, eq_iff id x)),
          )
          | inr later ↦ r.taken x later
        ];
        kept = λ x m. r.kept x (ground (arith, mem-add id x s.selected));
        listed = λ x m. r.listed x (ground (arith, mem-add id x s.included));
        excluded = r.excluded;
      }

pub record Excluded (ids : List String) (s s' : Selection) : Type 0 where
  pub taken : (x : String) → mem x ids ≡ true → mem x s'.excluded ≡ true
  pub listed : (x : String) → mem x s.excluded ≡ true → mem x s'.excluded ≡ true
  pub fewer : (x : String) → mem x s.selected ≡ false → mem x s'.selected ≡ false
  pub apart :
      (x : String)
      → mem x s'.excluded ≡ true
      → (mem x s.excluded ≡ true) ⊎ (mem x s'.selected ≡ false)
  pub others : (x : String) → mem x s.selected ≡ true → mem x ids ≡ false → mem x s'.selected ≡ true
  pub included :
      (x : String) → mem x s.included ≡ true → mem x s.selected ≡ true → mem x s'.selected ≡ true

pub exclude_all-Excluded :
    (c : Catalog) (ids : List String) (s s' : Selection)
    → exclude_all c ids s ≡ ok s'
    → Excluded ids s s'
unfolding exclude_all
exclude_all-Excluded c [] s s' h =
    let e : s ≡ s' = cc in
    subst (Excluded [] s) e (record {
      taken = λ x m. unfold mem in cc;
      listed = λ x m. m;
      fewer = λ x m. m;
      apart = λ x m. inl m;
      included = λ x m n. n;
      others = λ x m n. m;
    })
exclude_all-Excluded c (id ∷ ids) s s' h =
    with_ok {m = found (unknown_excluded id) (component_by_id c id)} h λ k e h₁.
      with_ok {m = ensure (not (mem id s.included)) (included_and_excluded id)} h₁ λ u free rest.
        let t : Selection = record s {
          excluded = add id s.excluded;
          selected = remove id s.selected;
        } in
        let r = exclude_all-Excluded c ids t s' rest in
        record {
          taken = λ x m. elim (mem-cons x id ids m) [
            | inl same ↦ r.listed x (ground (arith, mem-add id x s.excluded, eq_iff id x))
            | inr later ↦ r.taken x later
          ];
          listed = λ x m. r.listed x (ground (arith, mem-add id x s.excluded));
          fewer = λ x m. r.fewer x (ground (arith, mem-remove id x s.selected));
          apart = λ x m. elim (r.apart x m) [
            | inl before ↦ elim (Bool-cases (id == x)) [
              | inl same ↦ inr (r.fewer x (ground (arith, mem-remove id x s.selected)))
              | inr other ↦ inl (ground (arith, mem-add id x s.excluded))
            ]
            | inr out ↦ inr out
          ];
          others = λ x m n.
              let apart : (id == x) ≡ false = unfold mem in ground arith in
              r.others x (ground (arith, mem-remove id x s.selected)) (unfold mem in ground arith);
          included =
              λ x m n. r.included x m (ground (arith, mem-remove id x s.selected, eq_iff id x));
        }

pub add_all-mem :
    (ids : List String) (s : Keys) (x : String)
    → (mem x ids ≡ true) ⊎ (mem x s ≡ true)
    → mem x (add_all ids s) ≡ true
unfolding add_all mem
add_all-mem [] s x h = ground arith
add_all-mem (id ∷ ids) s x h = add_all-mem ids (add id s) x (ground (arith, mem-add id x s))

-- The components that the overrides name.
abbrev pub override_ids : Map String → Keys
override_ids = map (λ e. e.1)

pub record Overridden (ex : Keys) (m : Map String) (s s' : Keys) : Type 0 where
  pub taken : (x : String) → mem x (override_ids m) ≡ true → mem x s' ≡ true
  pub kept : (x : String) → mem x s ≡ true → mem x s' ≡ true
  pub apart : (x : String) → mem x ex ≡ true → mem x s ≡ false → mem x s' ≡ false

pub override_providers-Overridden :
    (c : Catalog) (ex : Keys) (m : Map String) (s s' : Keys × Map String)
    → override_providers c ex m s ≡ ok s'
    → Overridden ex m s.0 s'.0
unfolding override_providers
override_providers-Overridden c ex [] s s' h =
    let e : s ≡ s' = cc in
    subst (λ (p : Keys × Map String). Overridden ex [] s.0 p.0) e
      (record { taken = λ x m. unfold mem in cc; kept = λ x m. m; apart = λ x m n. n })
override_providers-Overridden c ex ((capability, id) ∷ m) s s' h =
    with_ok {m = found (unknown_override capability id) (component_by_id c id)} h λ k e h₁.
      with_ok {m = ensure (k.capability == capability) (wrong_capability id capability)} h₁
        λ u p h₂.
          with_ok {m = ensure (not (mem id ex)) (override_excluded capability id)} h₂ λ w free rest.
            let r =
              override_providers-Overridden c ex m (add id s.0, insert capability id s.1) s' rest in
            record {
              taken = λ x n. elim (mem-cons x id (override_ids m) n) [
                | inl same ↦ r.kept x (ground (arith, mem-add id x s.0, eq_iff id x))
                | inr later ↦ r.taken x later
              ];
              kept = λ x n. r.kept x (ground (arith, mem-add id x s.0));
              apart = λ x n o. r.apart x n (ground (arith, mem-add id x s.0, eq_iff id x));
            }
