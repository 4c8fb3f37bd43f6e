-- ===== src/Catalog/Components.antt =====
-- What the first loop of `Validate` has found when it is through.
use Prim.Native.String.{String}
use text.Mathlib.Text.{◌==◌}
use text.Mathlib.TextEquality.{eq_iff}
use agent_stack_manager.Prelude.{
  ℕ, suc, ◌≡◌, ◌≢◌, refl, sym, subst, ap, Bool, true, false, ◌&&◌, ◌||◌, not, some, List, [], ◌∷◌,
  map, ok, with_ok, All, Bool-cases, inl, inr, arith,
}
use agent_stack_manager.Prelude.Text.{is_empty}
use agent_stack_manager.Prelude.Maps.{Keys, mem, lookup, lookup-insert}
use agent_stack_manager.Model.{Component}
use agent_stack_manager.Planner.Placement.{IsDistinct}
use agent_stack_manager.Catalog.Acquisition.{Library}
use agent_stack_manager.Catalog.Lock.{validate_supply_chain_lock}
use agent_stack_manager.Catalog.Validate.{
  Seen, is_blank, has_tier, lacks_router, check_component, check_components,
}

abbrev pub ids_of_components : List Component → Keys
ids_of_components = map (λ k. k.id)

abbrev pub prefers : Component → Bool
prefers k = k.preferred && not (k.capability == "")

abbrev pub NonePrefers : String → List Component → Type 0
NonePrefers capability = All (λ k. prefers k ≡ true → k.capability ≢ capability)

-- No two preferred components have the same capability.
abbrev pub OnePreferred : List Component → Type 0
OnePreferred [] = Unit
OnePreferred (k ∷ ks) = (prefers k ≡ true → NonePrefers k.capability ks) × OnePreferred ks

-- What holds of each component by itself.
pub record IsComplete (l : Library) (k : Component) : Type 0 where
  pub named : is_blank k.id ≡ false
  pub routed : lacks_router k ≡ false
  pub placed : has_tier k.tier ≡ true → is_empty k.platforms ≡ false
  pub lock_ok : has_tier k.tier ≡ true → validate_supply_chain_lock l k ≡ ok tt

pub record Checked (l : Library) (ks : List Component) (seen seen' : Seen) : Type 0 where
  pub ids_lem : (x : String) → mem x seen'.ids ≡ (mem x (ids_of_components ks) || mem x seen.ids)
  pub fresh : (x : String) → mem x seen.ids ≡ true → mem x (ids_of_components ks) ≡ false
  pub distinct : IsDistinct (ids_of_components ks)
  pub complete : All (IsComplete l) ks
  pub taken :
      (capability prior : String)
      → lookup capability seen.preferred ≡ some prior
      → NonePrefers capability ks
  pub one_preferred : OnePreferred ks

-- What the body of the loop has found.
record Passed (l : Library) (k : Component) (seen seen' : Seen) : Type 0 where
  complete : IsComplete l k
  new : mem k.id seen.ids ≡ false
  ids_lem : seen'.ids ≡ k.id ∷ seen.ids
  keeps :
      (capability prior : String)
      → lookup capability seen.preferred ≡ some prior
      → (lookup capability seen'.preferred ≡ some prior)
        × (prefers k ≡ true → k.capability ≢ capability)
  adds : prefers k ≡ true → lookup k.capability seen'.preferred ≡ some k.id

check_component-Passed :
    (l : Library) (index : ℕ) (k : Component) (seen seen' : Seen)
    → check_component l index k seen ≡ ok seen'
    → Passed l k seen seen'
unfolding check_component
check_component-Passed l index k seen seen' h = record {
  complete = record {
    named = ground arith;
    routed = ground arith;
    placed = λ t. ground arith;
    lock_ok = λ t. ground arith;
  };
  new = ground arith;
  ids_lem = ground arith;
  keeps = λ cap prior old. (
    ground (arith, eq_iff k.capability cap, lookup-insert k.capability cap k.id seen.preferred),
    λ p e. ground (arith, eq_iff k.capability cap),
  );
  adds = λ p. ground (
    arith,
    eq_iff k.capability k.capability,
    lookup-insert k.capability k.capability k.id seen.preferred,
  );
}

Passed-Checked :
    (l : Library) (k : Component) (ks : List Component) (seen seen' seen'' : Seen)
    → Passed l k seen seen'
    → Checked l ks seen' seen''
    → Checked l (k ∷ ks) seen seen''
unfolding mem
Passed-Checked l k ks seen seen' seen'' p c = record {
  ids_lem = λ x. ground (arith, c.ids_lem x, p.ids_lem);
  fresh = λ x m.
      let later = c.fresh x (ground (arith, p.ids_lem, m)) in
      let other : (k.id == x) ≡ false = elim (Bool-cases (k.id == x)) [
        | inr n ↦ n
        | inl e ↦
            let same = subst (λ y. mem y seen.ids ≡ true) (sym ((eq_iff k.id x).0 e)) m in
            cc (p.new)
      ] in
      ground (arith, later, other);
  distinct = (c.fresh k.id (ground (arith, p.ids_lem, eq_iff k.id k.id)), c.distinct);
  complete = (p.complete, c.complete);
  taken = λ cap prior old. let kept = p.keeps cap prior old in (kept.1, c.taken cap prior kept.0);
  one_preferred = (λ q. c.taken k.capability k.id (p.adds q), c.one_preferred);
}

pub check_components-Checked :
    (l : Library) (index : ℕ) (ks : List Component) (seen seen' : Seen)
    → check_components l index ks seen ≡ ok seen'
    → Checked l ks seen seen'
unfolding check_components
check_components-Checked l index [] seen seen' h =
    let same : seen ≡ seen' = cc in
    record {
      ids_lem = λ x. unfold mem in ground (arith, ap (λ s. s.ids) same);
      fresh = λ x m. unfold mem in refl;
      distinct = tt;
      complete = tt;
      taken = λ cap prior old. tt;
      one_preferred = tt;
    }
check_components-Checked l index (k ∷ ks) seen seen' h =
    with_ok {m = check_component l index k seen} h λ s head rest.
      Passed-Checked l k ks seen s seen' (check_component-Passed l index k seen s head)
        (check_components-Checked l (suc index) ks s seen' rest)
