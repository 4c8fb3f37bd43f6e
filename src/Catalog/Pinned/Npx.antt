-- ===== src/Catalog/Pinned/Npx.antt =====
-- internal/catalog/catalog.go: the packages of an `npx` command that is accepted.
use agent_stack_manager.Prelude.{
  ◌≡◌, refl, true, false, ◌⊎◌, List, [], ◌∷◌, ok, with_ok, ◌>>◌, MemOf, here, there, Bool-cases,
  inl, inr, arith, drop, length, ap, subst,
}
use agent_stack_manager.Prelude.Text.{Text, codes, has_prefix, text_eq, after_prefix}
use agent_stack_manager.Catalog.Acquisition.{
  is_flag, is_npx, inexact_npx, Library, exact_npm_version, is_exact, is_package_flag,
  check_npx_spec, check_npx_prefix, check_npx_packages, check_npx_command, check_acquisition,
  to_lower, validate_router_acquisition,
}
use agent_stack_manager.Catalog.Pinned.{
  IsPinnedNpm, NpxCommand, NpxPackages, Follows, first, later, run_of, ensured, ensured_last,
}

text_eq-eq : (s t : Text) → text_eq s t ≡ true → s ≡ t
unfolding text_eq
text_eq-eq [] [] h = refl
text_eq-eq (c ∷ s) (d ∷ t) h = ground (arith, text_eq-eq s t)
text_eq-eq [] (d ∷ t) h = absurd (cc)
text_eq-eq (c ∷ s) [] h = absurd (cc)

module _ (l : Library) where
  check_npx_command-NpxCommand :
      (args : List Text) → check_npx_command l args ≡ ok tt → NpxCommand l args
  unfolding check_npx_command
  check_npx_command-NpxCommand [] h = absurd (cc)
  check_npx_command-NpxCommand (arg ∷ args) h = elim (Bool-cases (is_flag arg)) [
    | inl flag ↦
        let c = check_npx_command-NpxCommand args (ground (arith, flag, h)) in
        record {
          front = arg ∷ c.front;
          runs = c.runs;
          rest = c.rest;
          parts = ap (λ xs. arg ∷ xs) c.parts;
          flags = (flag, c.flags);
          plain = c.plain;
          pinned = c.pinned;
        }
    | inr plain ↦ record {
      front = [];
      runs = arg;
      rest = args;
      parts = refl;
      flags = tt;
      plain = plain;
      pinned =
          ensured_last (is_exact (exact_npm_version l arg)) (inexact_npx arg)
            (ground (arith, plain, h));
    }
  ]

  spec_pinned : (spec : Text) → check_npx_spec l spec ≡ ok tt → IsPinnedNpm l spec
  spec_pinned spec = ensured_last (is_exact (exact_npm_version l spec)) (inexact_npx spec)

  check_npx_prefix-pinned :
      (prefix arg : Text)
      → check_npx_prefix l prefix arg ≡ ok tt
      → has_prefix prefix (to_lower l arg) ≡ true
      → IsPinnedNpm l (drop (length prefix) arg)
  unfolding check_npx_prefix
  check_npx_prefix-pinned prefix arg h p = spec_pinned (drop (length prefix) arg) (rw p at h)

  -- What the loop has checked at an argument that it stops at, if that is no flag with a value.
  record Visited (arg : Text) : Type 0 where
    no_flag : is_package_flag l (to_lower l arg) ≡ false
    long : check_npx_prefix l (codes "--package=") arg ≡ ok tt
    short : check_npx_prefix l (codes "-p=") arg ≡ ok tt

  -- Every argument is visited, is such a flag with a pinned value behind it, or is such a value.
  data Walked : List Text → Type 0 where
    at_end : Walked []
    visited : {arg : Text} {args : List Text} → Visited arg → Walked args → Walked (arg ∷ args)
    with_value :
        {arg value : Text} {args : List Text}
        → is_package_flag l (to_lower l arg) ≡ true
        → IsPinnedNpm l value
        → Walked args
        → Walked (arg ∷ value ∷ args)

  all_checked :
      (arg : Text)
      → (check_npx_prefix l (codes "--package=") arg >> check_npx_prefix l (codes "-p=") arg)
        ≡ ok tt
      → is_package_flag l (to_lower l arg) ≡ false
      → Visited arg
  all_checked arg h plain =
      with_ok {m = check_npx_prefix l (codes "--package=") arg} h
        λ u long short. record { no_flag = plain; long = long; short = short }

  flag_alone :
      (arg : Text)
      → is_package_flag l (to_lower l arg) ≡ true
      → ¬ (check_npx_packages l (arg ∷ []) ≡ ok tt)
  unfolding check_npx_packages
  flag_alone arg flag h = absurd (cc (rw flag at h))

  walk : (args : List Text) → check_npx_packages l args ≡ ok tt → Walked args
  unfolding check_npx_packages
  walk [] h = at_end
  walk (arg ∷ []) h = elim (Bool-cases (is_package_flag l (to_lower l arg))) [
    | inl flag ↦ absurd (flag_alone arg flag h)
    | inr plain ↦ visited (all_checked arg (rw plain at h) plain) at_end
  ]
  walk (arg ∷ next ∷ args) h = elim (Bool-cases (is_package_flag l (to_lower l arg))) [
    | inl flag ↦
        let (pinned, rest) =
          ensured (is_exact (exact_npm_version l next)) (inexact_npx next) (rw flag at h) in
        with_value flag pinned (walk args rest)
    | inr plain ↦
        with_ok
          {m = check_npx_prefix l (codes "--package=") arg >> check_npx_prefix l (codes "-p=") arg}
          (rw plain at h)
          λ u both rest. visited (all_checked arg both plain) (walk (next ∷ args) rest)
  ]

  apart_pinned :
      {args : List Text} (flag value : Text)
      → Walked args
      → Follows flag value args
      → is_package_flag l (to_lower l flag) ≡ true
      → IsPinnedNpm l value ⊎ IsPinnedNpm l flag
  apart_pinned flag value at_end f p = elim f [ ]
  apart_pinned flag value (visited v w) first p = absurd (ground (arith, v.no_flag, p))
  apart_pinned flag value (visited v w) (later f) p = apart_pinned flag value w f p
  apart_pinned flag value (with_value q e w) first p = inl e
  apart_pinned flag value (with_value q e w) (later first) p = inr e
  apart_pinned flag value (with_value q e w) (later (later f)) p = apart_pinned flag value w f p

  -- A prefix that is longer than both flags without `=`, or differs from them.
  joined_pinned :
      {args : List Text} (prefix : Text)
      → ((arg : Text)
          → Visited arg
          → has_prefix prefix (to_lower l arg) ≡ true
          → IsPinnedNpm l (drop (length prefix) arg))
      → ((s : Text) → is_package_flag l s ≡ true → ¬ (has_prefix prefix s ≡ true))
      → (arg : Text) → Walked args
      → MemOf arg args
      → has_prefix prefix (to_lower l arg) ≡ true
      → IsPinnedNpm l (drop (length prefix) arg) ⊎ IsPinnedNpm l arg
  joined_pinned prefix checks never arg at_end m p = elim m [ ]
  joined_pinned prefix checks never arg (visited v w) here p = inl (checks arg v p)
  joined_pinned prefix checks never arg (visited v w) (there m) p =
      joined_pinned prefix checks never arg w m p
  joined_pinned prefix checks never arg (with_value q e w) here p =
      absurd (never (to_lower l arg) q p)
  joined_pinned prefix checks never arg (with_value q e w) (there here) p = inr e
  joined_pinned prefix checks never arg (with_value q e w) (there (there m)) p =
      joined_pinned prefix checks never arg w m p

  flag_cases : (s : Text) → is_package_flag l s ≡ true → (s ≡ codes "--package") ⊎ (s ≡ codes "-p")
  flag_cases s q = elim (Bool-cases (text_eq s (codes "--package"))) [
    | inl long ↦ inl (text_eq-eq s (codes "--package") long)
    | inr other ↦ inr (text_eq-eq s (codes "-p") (rw other at q))
  ]

  long_apart :
      (s : Text) → is_package_flag l s ≡ true → ¬ (has_prefix (codes "--package=") s ≡ true)
  unfolding after_prefix
  long_apart s q p = elim (flag_cases s q) [
    | inl long ↦
        absurd (ground (arith, subst (λ t. has_prefix (codes "--package=") t ≡ true) long p))
    | inr short ↦
        absurd (ground (arith, subst (λ t. has_prefix (codes "--package=") t ≡ true) short p))
  ]

  short_apart : (s : Text) → is_package_flag l s ≡ true → ¬ (has_prefix (codes "-p=") s ≡ true)
  unfolding after_prefix
  short_apart s q p = elim (flag_cases s q) [
    | inl long ↦ absurd (ground (arith, subst (λ t. has_prefix (codes "-p=") t ≡ true) long p))
    | inr short ↦ absurd (ground (arith, subst (λ t. has_prefix (codes "-p=") t ≡ true) short p))
  ]

  check_npx_packages-NpxPackages :
      (args : List Text) → check_npx_packages l args ≡ ok tt → NpxPackages l args
  check_npx_packages-NpxPackages args h =
      let w = walk args h in
      record {
        apart = λ flag value f p. apart_pinned flag value w f p;
        joined = λ arg m p.
            joined_pinned (codes "--package=")
              (λ other v q. check_npx_prefix-pinned (codes "--package=") other v.long q) long_apart
              arg w m p;
        joined_short = λ arg m p.
            joined_pinned (codes "-p=")
              (λ other v q. check_npx_prefix-pinned (codes "-p=") other v.short q) short_apart arg w
              m p;
      }

  check_acquisition-npx :
      (command : Text) (args : List Text)
      → check_acquisition l (command, args) ≡ ok tt
      → is_npx command ≡ true
      → NpxCommand l args × NpxPackages l args
  unfolding check_acquisition
  check_acquisition-npx command args h npx =
      with_ok {m = check_npx_packages l args} (rw npx at h) λ u packages rest.
        (check_npx_command-NpxCommand args rest, check_npx_packages-NpxPackages args packages)

-- If a router command is accepted and is, without `.exe` and after `cmd /c`, `npx`: its
-- first argument that is no flag names an exact version of a package, and so does every value of
-- `--package` or `-p`, in the next argument or behind `=`, unless the argument with the flag does.
pub validate_router_acquisition-npx :
    (l : Library) (command : Text) (args : List Text)
    → validate_router_acquisition l command args ≡ ok tt
    → is_npx (run_of l command args).0 ≡ true
    → NpxCommand l (run_of l command args).1 × NpxPackages l (run_of l command args).1
unfolding validate_router_acquisition
validate_router_acquisition-npx l command args =
    let run = run_of l command args in check_acquisition-npx l run.0 run.1
