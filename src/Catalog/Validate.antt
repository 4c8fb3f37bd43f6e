-- ===== src/Catalog/Validate.antt =====
-- internal/catalog/catalog.go: `Validate`.
use Prim.Native.String.{String}
use text.Mathlib.Text.{◌==◌}
use agent_stack_manager.Prelude.{
  ℕ, zero, suc, ℤ, pos, negsuc, Bool, true, false, ◌&&◌, not, none, some, List, [], ◌∷◌, Result, ok,
  err, ◌>>=◌, ◌>>◌, ensure, if◌then◌else◌,
}
use agent_stack_manager.Prelude.Text.{codes, trim_space, is_empty}
use agent_stack_manager.Prelude.Maps.{Keys, Map, mem, lookup, insert}
use agent_stack_manager.Model.{Tier, InstallKind, Component, Profile, Catalog}
use agent_stack_manager.Catalog.Acquisition.{Library}
use agent_stack_manager.Catalog.Lock.{LockError, validate_supply_chain_lock}
use agent_stack_manager.Catalog.Cycles.{CycleError, Marks, validate_dependency_cycles}

-- One constructor for each message, with what it names.
pub data ValidationError : Type 0 where
  bad_version : ValidationError
  empty_id : ℕ → ValidationError
  duplicate_component router_missing no_platforms : String → ValidationError
  several_preferred : String → String → String → ValidationError
  lock : LockError → ValidationError
  self_dependency : String → ValidationError
  repeated_dependency unknown_dependency : String → String → ValidationError
  cyclic : CycleError → ValidationError
  empty_profile_id : ValidationError
  duplicate_profile : String → ValidationError
  unknown_member : String → String → ValidationError

abbrev pub is_positive : ℤ → Bool
is_positive (pos zero) = false
is_positive (pos (suc n)) = true
is_positive (negsuc n) = false

abbrev pub has_tier : Tier → Bool
has_tier (Tier.other t) = not (t == "")
has_tier _ = true

abbrev pub lacks_router : Component → Bool
lacks_router k = elim k.install.kind [
  | InstallKind.router ↦ elim k.router [ none ↦ true | some _ ↦ false ]
  | _ ↦ false
]

abbrev pub is_blank : String → Bool
is_blank s = is_empty (trim_space (codes s))

-- The ids and the preferred providers that the loop has met.
pub record Seen : Type 0 where
  pub ids : Keys
  pub preferred : Map String

-- The test on the preferred provider of the component's capability.
unfoldable pub prefer : Component → Map String → Result ValidationError (Map String)
prefer k preferred =
    if k.preferred && not (k.capability == "")
    then elim (lookup k.capability preferred) [
      | some prior ↦ err (several_preferred k.capability prior k.id)
      | none ↦ ok (insert k.capability k.id preferred)
    ]
    else ok preferred

abbrev pub locked : Result LockError (Unit {0}) → Result ValidationError (Unit {0})
locked (ok _) = ok tt
locked (err e) = err (lock e)

unfoldable pub check_tier : Library → Component → Result ValidationError (Unit {0})
check_tier l k =
    if has_tier k.tier
    then ensure (not (is_empty k.platforms)) (no_platforms k.id)
      >> locked (validate_supply_chain_lock l k)
    else ok tt

-- The body of the first loop.
unfoldable pub check_component : Library → ℕ → Component → Seen → Result ValidationError Seen
unfolding prefer check_tier
check_component l index k seen = do
  ensure (not (is_blank k.id)) (empty_id index)
  ensure (not (mem k.id seen.ids)) (duplicate_component k.id)
  preferred ← prefer k seen.preferred
  ensure (not (lacks_router k)) (router_missing k.id)
  check_tier l k
  ok (record { ids = k.id ∷ seen.ids; preferred = preferred })

unfoldable pub check_components : Library → ℕ → List Component → Seen → Result ValidationError Seen
check_components l index [] seen = ok seen
check_components l index (k ∷ ks) seen = do
  seen' ← check_component l index k seen
  check_components l (suc index) ks seen'

-- The loop over the dependencies of a component.
unfoldable pub check_dependencies :
    Keys → String → List String → Keys → Result ValidationError (Unit {0})
check_dependencies ids id [] seen = ok tt
check_dependencies ids id (d ∷ ds) seen = do
  ensure (not (d == id)) (self_dependency id)
  ensure (not (mem d seen)) (repeated_dependency id d)
  ensure (mem d ids) (unknown_dependency id d)
  check_dependencies ids id ds (d ∷ seen)

unfoldable pub check_all_dependencies : Keys → List Component → Result ValidationError (Unit {0})
check_all_dependencies ids [] = ok tt
check_all_dependencies ids (k ∷ ks) = do
  check_dependencies ids k.id k.depends_on []
  check_all_dependencies ids ks

unfoldable pub check_members : Keys → String → List String → Result ValidationError (Unit {0})
check_members ids profile [] = ok tt
check_members ids profile (id ∷ rest) = do
  ensure (mem id ids) (unknown_member profile id)
  check_members ids profile rest

unfoldable pub check_profiles : Keys → List Profile → Keys → Result ValidationError (Unit {0})
check_profiles ids [] seen = ok tt
check_profiles ids (p ∷ ps) seen = do
  ensure (not (p.id == "")) empty_profile_id
  ensure (not (mem p.id seen)) (duplicate_profile p.id)
  check_members ids p.id p.components
  check_profiles ids ps (p.id ∷ seen)

abbrev pub acyclic : Result CycleError Marks → Result ValidationError (Unit {0})
acyclic (ok _) = ok tt
acyclic (err e) = err (cyclic e)

unfoldable pub validate : Library → Catalog → Result ValidationError (Unit {0})
unfolding check_components check_all_dependencies check_profiles validate_dependency_cycles
validate l c = do
  ensure (is_positive c.version) bad_version
  seen ← check_components l 0 c.components (record { ids = []; preferred = [] })
  check_all_dependencies seen.ids c.components
  acyclic (validate_dependency_cycles c.components)
  check_profiles seen.ids c.profiles []
