-- ===== src/Catalog/Acquisition.antt =====
-- internal/catalog/catalog.go: exact versions of packages, and `validateRouterAcquisition`.
use agent_stack_manager.Prelude.{
  ℕ, Bool, true, false, ◌&&◌, ◌||◌, not, Option, none, some, List, [], ◌∷◌, map, Result, ok, err,
  ltb, if◌then◌else◌, ◌==◌, length, drop, suc, ◌>>◌, ensure,
}
use agent_stack_manager.Prelude.Text.{
  Text, codes, trim_space, text_eq, after_prefix, has_prefix, trim_suffix, cut, is_empty,
  contains_text,
}

-- The regular expressions of the package, and the functions of Go's library on the cases of
-- letters.
pub record Library : Type 0 where
  pub lower : ℕ → ℕ
  pub equal_fold : Text → Text → Bool
  pub npm_package_name_pattern : Text → Bool
  pub npm_exact_version_pattern : Text → Bool
  pub uv_package_name_pattern : Text → Bool
  pub pep440_version_pattern : Text → Bool

-- The index of the first, and of the last, of the characters `c`.
unfoldable pub index_of : ℕ → ℕ → Text → Option ℕ
index_of c at [] = none
index_of c at (d ∷ s) = let rest = index_of c (suc at) s in if d == c then some at else rest

unfoldable pub last_cut : ℕ → Text → Option (Text × Text)
last_cut c [] = none
last_cut c (d ∷ s) =
    let rest = last_cut c s in
    elim rest [
      | some (before, after) ↦ some (d ∷ before, after)
      | none ↦ if d == c then some ([], s) else none
    ]

-- The tests on the separator: in a scoped name it follows the `/`, in another it is not the first.
abbrev pub is_separated : Text → Text → Bool
is_separated value before =
    if has_prefix (codes "@") value
    then elim (index_of b'/' 0 value) [ none ↦ true | some slash ↦ ltb slash (length before) ]
    else not (is_empty before)

-- `exactNPMVersion`: `none` where the source says `false`.
unfoldable pub exact_npm_version : Library → Text → Option Text
unfolding last_cut index_of after_prefix
exact_npm_version l value =
    let trimmed = trim_space value in
    elim (last_cut b'@' trimmed) [
      | none ↦ none
      | some (package_name, version) ↦
          if is_separated trimmed package_name
            && (l.npm_package_name_pattern package_name && l.npm_exact_version_pattern version)
          then some version
          else none
    ]

-- `exactUVVersion`. One instance of `==`: a first one, and none after it.
unfoldable pub exact_uv_version : Library → Text → Option Text
unfolding cut
exact_uv_version l value = elim (cut (codes "==") (trim_space value)) [
  | none ↦ none
  | some (package_name, version) ↦
      if not (contains_text (codes "==") version)
        && (l.uv_package_name_pattern (trim_space package_name)
            && l.pep440_version_pattern (trim_space version))
      then some (trim_space version)
      else none
]

pub data AcquisitionError : Type 0 where
  incomplete_package incomplete_from no_npx_package no_uvx_package : AcquisitionError
  inexact_npx : Text → AcquisitionError
  inexact_uvx : Text → AcquisitionError

-- `strings.HasPrefix(arg, "-")`.
unfoldable pub is_flag : Text → Bool
unfolding after_prefix
is_flag arg = has_prefix (codes "-") arg

unfoldable pub is_joined_from : Text → Bool
unfolding after_prefix
is_joined_from lowered = has_prefix (codes "--from=") lowered

unfoldable pub is_from : Text → Bool
unfolding text_eq
is_from arg = text_eq arg (codes "--from")

-- The cases of the last switch.
unfoldable pub is_npx : Text → Bool
unfolding text_eq
is_npx command = text_eq command (codes "npx")

unfoldable pub is_uvx : Text → Bool
unfolding text_eq
is_uvx command = text_eq command (codes "uvx")

abbrev pub is_exact : Option Text → Bool
is_exact none = false
is_exact (some version) = true

module _ (l : Library) where
  abbrev pub to_lower : Text → Text
  to_lower = map l.lower

  abbrev pub is_package_flag : Text → Bool
  is_package_flag arg = text_eq arg (codes "--package") || text_eq arg (codes "-p")

  abbrev pub check_npx_spec : Text → Result AcquisitionError (Unit {0})
  check_npx_spec spec = ensure (is_exact (exact_npm_version l spec)) (inexact_npx spec)

  -- The body of the loop over the two prefixes, which are ASCII: they are cut off by their characters,
  -- where the source slices bytes.
  unfoldable pub check_npx_prefix : Text → Text → Result AcquisitionError (Unit {0})
  unfolding after_prefix
  check_npx_prefix prefix arg =
      if has_prefix prefix (to_lower arg) then check_npx_spec (drop (length prefix) arg) else ok tt

  -- The first loop of `npx`.
  unfoldable pub check_npx_packages : List Text → Result AcquisitionError (Unit {0})
  unfolding check_npx_prefix text_eq
  check_npx_packages [] = ok tt
  check_npx_packages (arg ∷ []) =
      if is_package_flag (to_lower arg)
      then err incomplete_package
      else check_npx_prefix (codes "--package=") arg >> check_npx_prefix (codes "-p=") arg
  check_npx_packages (arg ∷ next ∷ args) =
      let after_value = check_npx_packages args in
      let after = check_npx_packages (next ∷ args) in
      if is_package_flag (to_lower arg)
      then check_npx_spec next >> after_value
      else check_npx_prefix (codes "--package=") arg >> check_npx_prefix (codes "-p=") arg >> after

  -- The second loop: the first argument that is no flag.
  unfoldable pub check_npx_command : List Text → Result AcquisitionError (Unit {0})
  unfolding is_flag
  check_npx_command [] = err no_npx_package
  check_npx_command (arg ∷ args) =
      let rest = check_npx_command args in
      if has_prefix (codes "-") arg then rest else check_npx_spec arg

  abbrev pub check_from : Text → Result AcquisitionError (Unit {0})
  check_from spec = ensure (is_exact (exact_uv_version l spec)) (inexact_uvx spec)

  -- The loop of `uvx`.
  unfoldable pub check_uvx : List Text → Result AcquisitionError (Unit {0})
  unfolding is_flag is_from is_joined_from
  check_uvx [] = err no_uvx_package
  check_uvx (arg ∷ []) =
      if is_joined_from (to_lower arg)
      then check_from (drop 7 arg) >> err no_uvx_package
      else if is_from arg
      then err incomplete_from
      else if is_flag arg
      then err no_uvx_package
      else check_from arg
  check_uvx (arg ∷ next ∷ args) =
      let after_value = check_uvx args in
      let after = check_uvx (next ∷ args) in
      if is_joined_from (to_lower arg)
      then check_from (drop 7 arg) >> after
      else if is_from arg
      then check_from next >> after_value
      else if is_flag arg
      then after
      else check_from arg

  -- The command, and the arguments after `cmd /c`.
  unfoldable pub after_cmd : Text → List Text → Text × List Text
  unfolding trim_suffix text_eq
  after_cmd name (first ∷ second ∷ args) =
      if text_eq name (codes "cmd") && l.equal_fold first (codes "/c")
      then (to_lower (trim_suffix (codes ".exe") second), args)
      else (name, first ∷ second ∷ args)
  after_cmd name args = (name, args)

  unfoldable pub check_acquisition : Text × List Text → Result AcquisitionError (Unit {0})
  unfolding is_npx is_uvx check_npx_packages check_npx_command check_uvx
  check_acquisition (command, args) =
      if is_npx command
      then check_npx_packages args >> check_npx_command args
      else if is_uvx command
      then check_uvx args
      else ok tt

  unfoldable pub validate_router_acquisition : Text → List Text → Result AcquisitionError (Unit {0})
  unfolding after_cmd check_acquisition trim_suffix
  validate_router_acquisition command args =
      check_acquisition
        (after_cmd (trim_suffix (codes ".exe") (to_lower (trim_space command))) args)
