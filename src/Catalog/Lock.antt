-- ===== src/Catalog/Lock.antt =====
-- internal/catalog/catalog.go: `validateSupplyChainLock`.
use Prim.Native.String.{String}
use text.Mathlib.Text.{◌==◌}
use agent_stack_manager.Prelude.{
  Bool, false, ◌&&◌, ◌||◌, not, Option, none, some, List, [], ◌∷◌, ◌++◌, map, Result, ok, err, ◌>>◌,
  ensure, leb,
}
use agent_stack_manager.Prelude.Text.{
  Text, codes, concatenated, trim_space, text_eq, after_prefix, has_prefix, byte_length, cut,
  contains_text, is_empty,
}
use agent_stack_manager.Model.{InstallKind, InstallSpec, CommandSpec, RouterServerSpec, Component}
use agent_stack_manager.ProcessControl.{LimitsError, is_disabled, validate_limits}
use agent_stack_manager.Catalog.Acquisition.{
  Library, AcquisitionError, exact_npm_version, exact_uv_version, validate_router_acquisition,
}

-- One constructor for each message, with the component that it names.
pub data LockError : Type 0 where
  winget_unlocked npm_inexact uv_inexact skill_unpinned no_router no_limits : String → LockError
  bad_limits : String → LimitsError → LockError
  floating : String → String → LockError
  acquisition : String → AcquisitionError → LockError
  not_guided no_login_hint unsupported_kind : String → LockError

abbrev pub is_version : Option Text → String → Bool
is_version none version = false
is_version (some v) version = text_eq v (codes version)

unfoldable pub is_npm_locked : Library → InstallSpec → Bool
unfolding text_eq
is_npm_locked l s =
    not (s.package_name == "")
    && (s.source == "npm"
        && (not (s.version == "")
            && (not (s.publisher == "")
                && is_version (exact_npm_version l (codes s.package_name)) s.version)))

unfoldable pub is_uv_locked : Library → InstallSpec → Bool
unfolding text_eq
is_uv_locked l s =
    not (s.package_name == "")
    && (s.source == "pypi"
        && (not (s.version == "")
            && (not (s.publisher == "")
                && is_version (exact_uv_version l (codes s.package_name)) s.version)))

unfoldable pub is_winget_locked : InstallSpec → Bool
is_winget_locked s =
    not (s.winget_id == "")
    && (not (s.source == "") && (not (s.version == "") && not (s.publisher == "")))

-- The length of what follows `git-commit:`.
abbrev pub is_commit_digest : Text → Bool
is_commit_digest digest = elim (after_prefix (codes "git-commit:") digest) [
  | none ↦ false
  | some commit ↦ leb 40 (byte_length commit) && leb (byte_length commit) 40
]

unfoldable pub is_skill_pinned : InstallSpec → Bool
unfolding after_prefix byte_length
is_skill_pinned s =
    not (s.repository == "")
    && (not (s.repository_revision == "")
        && (is_commit_digest (codes s.manifest_digest) && not (is_empty s.expected_entries)))

module _ (l : Library) where
  abbrev pub is_floating : String → Bool
  is_floating value = contains_text (codes "@latest") (map l.lower (codes value))

  unfoldable pub check_floating : String → List String → Result LockError (Unit {0})
  unfolding cut
  check_floating id [] = ok tt
  check_floating id (value ∷ values) =
      ensure (not (is_floating value)) (floating id value) >> check_floating id values

  -- `routerWarmArgs`.
  abbrev pub router_warm_args : Option CommandSpec → List String
  router_warm_args none = []
  router_warm_args (some warm) = warm.args

  unfoldable pub check_acquired : String → String → List String → Result LockError (Unit {0})
  check_acquired label command args =
      elim (validate_router_acquisition l (codes command) (map (λ a. codes a) args)) [
        | ok _ ↦ ok tt
        | err e ↦ err (acquisition label e)
      ]

  unfoldable pub check_warm : String → Option CommandSpec → Result LockError (Unit {0})
  unfolding check_acquired
  check_warm id none = ok tt
  check_warm id (some warm) =
      check_acquired (concatenated (id ∷ " warm command" ∷ [])) warm.command warm.args

  abbrev pub check_limits : String → Result LimitsError (Unit {0}) → Result LockError (Unit {0})
  check_limits id (ok _) = ok tt
  check_limits id (err e) = err (bad_limits id e)

  unfoldable pub check_router : String → Option RouterServerSpec → Result LockError (Unit {0})
  unfolding check_warm check_floating
  check_router id none = err (no_router id)
  check_router id (some r) = do
    ensure (not (is_disabled r.limits)) (no_limits id)
    check_limits id (validate_limits r.limits)
    check_floating id (r.args ++ router_warm_args r.warm)
    check_acquired id r.command r.args
    check_warm id r.warm

  -- The test that follows the switch.
  unfoldable pub check_credential : Component → Result LockError (Unit {0})
  unfolding after_prefix
  check_credential k =
      ensure
        (not k.credential_required
          || (not (is_empty (trim_space (codes k.install.login_hint)))
              && has_prefix (codes "https://") (codes k.install.documentation_url)))
        (no_login_hint k.id)

  -- The switch. `InstallNone` returns before the test that follows.
  unfoldable pub lock_of : InstallKind → Component → Result LockError (Unit {0})
  unfolding check_credential check_router
  lock_of InstallKind.winget k =
      ensure (is_winget_locked k.install) (winget_unlocked k.id) >> check_credential k
  lock_of InstallKind.npm_global k =
      ensure (is_npm_locked l k.install) (npm_inexact k.id) >> check_credential k
  lock_of InstallKind.uv_tool k =
      ensure (is_uv_locked l k.install) (uv_inexact k.id) >> check_credential k
  lock_of InstallKind.skill_pack k =
      ensure (is_skill_pinned k.install) (skill_unpinned k.id) >> check_credential k
  lock_of InstallKind.router k = check_router k.id k.router >> check_credential k
  lock_of InstallKind.manual k =
      ensure (not (k.credential_required && not k.guided_setup)) (not_guided k.id)
      >> check_credential k
  lock_of InstallKind.no_install k = ok tt
  lock_of (InstallKind.other kind) k = err (unsupported_kind k.id)

  unfoldable pub validate_supply_chain_lock : Component → Result LockError (Unit {0})
  unfolding lock_of
  validate_supply_chain_lock k = lock_of k.install.kind k
