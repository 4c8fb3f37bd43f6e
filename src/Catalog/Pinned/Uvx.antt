-- ===== src/Catalog/Pinned/Uvx.antt =====
-- internal/catalog/catalog.go: the packages of a `uvx` command that is accepted.
use agent_stack_manager.Prelude.{
  ◌≡◌, refl, true, false, List, [], ◌∷◌, ok, Bool-cases, inl, inr, arith, drop, ap,
}
use agent_stack_manager.Prelude.Text.{Text}
use agent_stack_manager.Catalog.Acquisition.{
  is_flag, is_from, is_joined_from, is_npx, is_uvx, inexact_uvx, Library, exact_uv_version,
  is_exact, check_uvx, check_acquisition, to_lower, validate_router_acquisition,
}
use agent_stack_manager.Catalog.Pinned.{
  IsPinnedUv, UvxCommand, no_option, flag, from, joined_from, run_of, ensured, ensured_last,
}

module _ (l : Library) where
  with_flag :
      {arg : Text} {args : List Text}
      → is_flag arg ≡ true
      → is_from arg ≡ false
      → is_joined_from (to_lower l arg) ≡ false
      → UvxCommand l args
      → UvxCommand l (arg ∷ args)
  with_flag {arg} p q r c = record {
    front = arg ∷ c.front;
    runs = c.runs;
    rest = c.rest;
    parts = ap (λ xs. arg ∷ xs) c.parts;
    options = flag p q r c.options;
    plain = c.plain;
    pinned = c.pinned;
  }

  with_from :
      {arg value : Text} {args : List Text}
      → is_from arg ≡ true
      → IsPinnedUv l value
      → UvxCommand l args
      → UvxCommand l (arg ∷ value ∷ args)
  with_from {arg} {value} p e c = record {
    front = arg ∷ value ∷ c.front;
    runs = c.runs;
    rest = c.rest;
    parts = ap (λ xs. arg ∷ value ∷ xs) c.parts;
    options = from p e c.options;
    plain = c.plain;
    pinned = c.pinned;
  }

  with_joined_from :
      {arg : Text} {args : List Text}
      → is_joined_from (to_lower l arg) ≡ true
      → IsPinnedUv l (drop 7 arg)
      → UvxCommand l args
      → UvxCommand l (arg ∷ args)
  with_joined_from {arg} p e c = record {
    front = arg ∷ c.front;
    runs = c.runs;
    rest = c.rest;
    parts = ap (λ xs. arg ∷ xs) c.parts;
    options = joined_from p e c.options;
    plain = c.plain;
    pinned = c.pinned;
  }

  runs_first :
      (arg : Text) (args : List Text)
      → is_flag arg ≡ false
      → IsPinnedUv l arg
      → UvxCommand l (arg ∷ args)
  runs_first arg args plain e = record {
    front = [];
    runs = arg;
    rest = args;
    parts = refl;
    options = no_option;
    plain = plain;
    pinned = e;
  }

  joined_alone :
      (arg : Text) → is_joined_from (to_lower l arg) ≡ true → ¬ (check_uvx l (arg ∷ []) ≡ ok tt)
  unfolding check_uvx
  joined_alone arg joined h = ground (arith, joined, h)

  check_uvx-UvxCommand : (args : List Text) → check_uvx l args ≡ ok tt → UvxCommand l args
  unfolding check_uvx
  check_uvx-UvxCommand [] h = absurd (cc)
  check_uvx-UvxCommand (arg ∷ []) h = elim (Bool-cases (is_joined_from (to_lower l arg))) [
    | inl joined ↦ absurd (joined_alone arg joined h)
    | inr apart ↦ elim (Bool-cases (is_from arg)) [
      | inl named ↦ absurd (ground (arith, apart, named, h))
      | inr other ↦ elim (Bool-cases (is_flag arg)) [
        | inl option ↦ absurd (ground (arith, apart, other, option, h))
        | inr plain ↦ runs_first arg [] plain (
            ensured_last (is_exact (exact_uv_version l arg)) (inexact_uvx arg)
              (rw plain at (rw other at (rw apart at h))))
      ]
    ]
  ]
  check_uvx-UvxCommand (arg ∷ next ∷ args) h = elim (Bool-cases (is_joined_from (to_lower l arg))) [
    | inl joined ↦
        let (pinned, rest) =
          ensured (is_exact (exact_uv_version l (drop 7 arg))) (inexact_uvx (drop 7 arg))
            (rw joined at h) in
        with_joined_from joined pinned (check_uvx-UvxCommand (next ∷ args) rest)
    | inr apart ↦ elim (Bool-cases (is_from arg)) [
      | inl named ↦
          let (pinned, rest) =
            ensured (is_exact (exact_uv_version l next)) (inexact_uvx next)
              (rw named at (rw apart at h)) in
          with_from named pinned (check_uvx-UvxCommand args rest)
      | inr other ↦ elim (Bool-cases (is_flag arg)) [
        | inl option ↦
            with_flag option other apart
              (check_uvx-UvxCommand (next ∷ args) (rw option at (rw other at (rw apart at h))))
        | inr plain ↦ runs_first arg (next ∷ args) plain (
            ensured_last (is_exact (exact_uv_version l arg)) (inexact_uvx arg)
              (rw plain at (rw other at (rw apart at h))))
      ]
    ]
  ]

  check_acquisition-UvxCommand :
      (command : Text) (args : List Text)
      → check_acquisition l (command, args) ≡ ok tt
      → is_uvx command ≡ true
      → is_npx command ≡ false
      → UvxCommand l args
  unfolding check_acquisition
  check_acquisition-UvxCommand command args h uvx other =
      check_uvx-UvxCommand args (rw uvx at (rw other at h))

-- If a router command is accepted and is, without `.exe` and after `cmd /c`, `uvx`: its
-- first argument that is no flag and no value of `--from` names an exact version of a package, and
-- so does the value of every `--from` before it.
pub validate_router_acquisition-uvx :
    (l : Library) (command : Text) (args : List Text)
    → validate_router_acquisition l command args ≡ ok tt
    → is_uvx (run_of l command args).0 ≡ true
    → is_npx (run_of l command args).0 ≡ false
    → UvxCommand l (run_of l command args).1
unfolding validate_router_acquisition
validate_router_acquisition-uvx l command args =
    let run = run_of l command args in check_acquisition-UvxCommand l run.0 run.1
