-- ===== src/Catalog/Pinned.antt =====
-- internal/catalog/catalog.go: what a router command runs that `validateRouterAcquisition` accepts.
pub mod Npx
pub mod Uvx
use agent_stack_manager.Prelude.{
  ◌≡◌, true, false, Bool, ◌⊎◌, List, [], ◌∷◌, ◌++◌, Result, ok, ensure, ◌>>◌, MemOf, All, drop,
  refl,
}
use agent_stack_manager.Prelude.Text.{Text, codes, trim_suffix, trim_space, has_prefix}
use agent_stack_manager.Catalog.Acquisition.{
  is_flag, is_from, is_joined_from, AcquisitionError, Library, exact_npm_version, exact_uv_version,
  is_exact, is_package_flag, after_cmd, to_lower,
}

-- The command that the last tests see, and its arguments: without `.exe`, and after `cmd /c`.
abbrev pub run_of : Library → Text → List Text → Text × List Text
run_of l command args =
    after_cmd l (trim_suffix (codes ".exe") (to_lower l (trim_space command))) args

-- The package specification names an exact version.
abbrev pub IsPinnedNpm : Library → Text → Type 0
IsPinnedNpm l spec = is_exact (exact_npm_version l spec) ≡ true

abbrev pub IsPinnedUv : Library → Text → Type 0
IsPinnedUv l spec = is_exact (exact_uv_version l spec) ≡ true

-- The package to run: the first argument of `npx` that is no flag.
pub record NpxCommand (l : Library) (args : List Text) : Type 0 where
  pub front : List Text
  pub runs : Text
  pub rest : List Text
  pub parts : args ≡ front ++ runs ∷ rest
  pub flags : All (λ arg. is_flag arg ≡ true) front
  pub plain : is_flag runs ≡ false
  pub pinned : IsPinnedNpm l runs

-- An argument and the one that follows it.
pub data Follows (arg value : Text) : List Text → Type 0 where
  first : {args : List Text} → Follows arg value (arg ∷ value ∷ args)
  later :
      {other : Text} {args : List Text} → Follows arg value args → Follows arg value (other ∷ args)

-- The packages that `npx` loads by `--package` or `-p`, with the value in the next argument or
-- behind `=`. An argument that is itself a pinned package may be the value of the flag before it.
pub record NpxPackages (l : Library) (args : List Text) : Type 0 where
  pub apart :
      (flag value : Text)
      → Follows flag value args
      → is_package_flag l (to_lower l flag) ≡ true
      → IsPinnedNpm l value ⊎ IsPinnedNpm l flag
  pub joined :
      (arg : Text)
      → MemOf arg args
      → has_prefix (codes "--package=") (to_lower l arg) ≡ true
      → IsPinnedNpm l (drop 10 arg) ⊎ IsPinnedNpm l arg
  pub joined_short :
      (arg : Text)
      → MemOf arg args
      → has_prefix (codes "-p=") (to_lower l arg) ≡ true
      → IsPinnedNpm l (drop 3 arg) ⊎ IsPinnedNpm l arg

-- The options of `uvx` before that: flags, and `--from` with its value.
pub data UvxOptions (l : Library) : List Text → Type 0 where
  no_option : UvxOptions l []
  flag :
      {arg : Text} {args : List Text}
      → is_flag arg ≡ true
      → is_from arg ≡ false
      → is_joined_from (to_lower l arg) ≡ false
      → UvxOptions l args
      → UvxOptions l (arg ∷ args)
  from :
      {arg value : Text} {args : List Text}
      → is_from arg ≡ true
      → IsPinnedUv l value
      → UvxOptions l args
      → UvxOptions l (arg ∷ value ∷ args)
  joined_from :
      {arg : Text} {args : List Text}
      → is_joined_from (to_lower l arg) ≡ true
      → IsPinnedUv l (drop 7 arg)
      → UvxOptions l args
      → UvxOptions l (arg ∷ args)

-- The package to run, behind the options, and those that `--from` names there.
pub record UvxCommand (l : Library) (args : List Text) : Type 0 where
  pub front : List Text
  pub runs : Text
  pub rest : List Text
  pub parts : args ≡ front ++ runs ∷ rest
  pub options : UvxOptions l front
  pub plain : is_flag runs ≡ false
  pub pinned : IsPinnedUv l runs

pub ensured :
    (b : Bool) (e : AcquisitionError) {rest : Result AcquisitionError (Unit {0})}
    → (ensure b e >> rest) ≡ ok tt
    → (b ≡ true) × (rest ≡ ok tt)
ensured true e h = (refl, h)
ensured false e h = absurd (cc)

pub ensured_last : (b : Bool) (e : AcquisitionError) → ensure b e ≡ ok tt → b ≡ true
ensured_last true e h = refl
ensured_last false e h = absurd (cc)
