-- ===== src/ResourceHub/Transfer.antt =====
-- internal/resourcehub/fs.go: what installing a resource changes on the disk.
use Prim.Native.String.{String}
use agent_stack_manager.Prelude.{
  ℕ, zero, suc, ◌≡◌, refl, ◌∙◌, inl, inr, Bool, true, false, Bool-cases, List, Result, ok, err,
  Result-cases, ok-subst, subst, sym, MemOf, arith, if◌then◌else◌,
}
use agent_stack_manager.ResourceHub.Files.{
  FileError, not_exist, already_exists, symlink_source, unsupported, out_of_fuel, Done, and_then,
  numbered, free_name, replace_backup, staged_in, link_stage, restore, replace_dir, replace_path,
  copy_any, copy_staged, copy_resource, link_resource, is_absent,
}
use agent_stack_manager.ResourceHub.Hub.{Hub}
use agent_stack_manager.ResourceHub.Disk.{Disk, KeepsBut}

is_absent-eq-true :
    {S : Type 0} (h : Hub S) (path : String) (s : S)
    → is_absent h.files path s ≡ true
    → h.files.lstat path s ≡ err not_exist
is_absent-eq-true h path s e = elim (Result-cases (h.files.lstat path s)) [
  | inl (info, there) ↦ absurd (ground (arith, there, e))
  | inr (not_exist, gone) ↦ gone
  | inr (_, refused) ↦ absurd (ground (arith, refused, e))
]

module _ {S : Type 0} (h : Hub S) (plan_id : String) (destinations : List String)
    (disk : Disk h plan_id destinations) where
  -- A call, and what follows if it succeeds.
  and_then-KeepsBut :
      {A B : Type 0} (d : String) (s : S) (run : Result FileError A × S)
      (next : A → S → Result FileError B × S)
      → KeepsBut h plan_id destinations disk d s run.1
      → ((a : A) → run.0 ≡ ok a → KeepsBut h plan_id destinations disk d run.1 (next a run.1).1)
      → KeepsBut h plan_id destinations disk d s (and_then run next).1
  and_then-KeepsBut d s (err e, t) next k n = k
  and_then-KeepsBut d s (ok a, t) next k n = λ p m o. n a refl p m o ∙ k p m o

  pub free_name-eq-ok :
      (fuel : ℕ) (base name : String) (n : ℕ) (s : S)
      → free_name h.files fuel base n s ≡ ok name
      → (k : ℕ) × (name ≡ numbered h.files base k) × (h.files.lstat name s ≡ err not_exist)
  unfolding free_name
  free_name-eq-ok zero base name n s e = absurd (cc)
  free_name-eq-ok (suc fuel) base name n s e =
      elim (Bool-cases (is_absent h.files (numbered h.files base n) s)) [
        | inl free ↦
            ok-subst
              (λ x. (k : ℕ) × (x ≡ numbered h.files base k) × (h.files.lstat x s ≡ err not_exist))
              (rw (free_name, free) at e)
              (n, refl, is_absent-eq-true h (numbered h.files base n) s free)
        | inr taken ↦ free_name-eq-ok fuel base name (suc n) s (rw (free_name, taken) at e)
      ]

  -- The names that are staged at, next to a destination.
  module _ (d : String) (m : MemOf d destinations) where
    abbrev Fixes : S → S → Type 0
    Fixes = KeepsBut h plan_id destinations disk d

    unchanged : (s : S) → Fixes s s
    unchanged s p q o = refl

    if-Fixes :
        (b : Bool) (s : S) (x y : Result FileError Done × S)
        → Fixes s x.1
        → Fixes s y.1
        → Fixes s (if b then x else y).1
    if-Fixes true s x y f g = f
    if-Fixes false s x y f g = g

    copy_any_keeps :
        (is_dir : Bool) (source staged : String) (s : S)
        → disk.Scratch staged
        → (p : String) → disk.Tracked p
        → disk.view (copy_any h.files is_dir source staged s).1 p ≡ disk.view s p
    copy_any_keeps true source staged s b p q = disk.copy_tree_keeps source staged p s b q
    copy_any_keeps false source staged s b p q = disk.copy_file_keeps source staged p s b q

    restore-Fixes :
        (backup : String) (s : S) (run : Result FileError Done × S)
        → disk.Scratch backup
        → Fixes s run.1
        → Fixes s (restore h.files backup d run).1
    restore-Fixes backup s (ok u, t) b k = k
    restore-Fixes backup s (err e, t) b k = λ p q o.
        disk.rename_other backup d p t (inr b) (inl (disk.destination_tracked d m)) q
          (disk.apart p backup q b) o
        ∙ k p q o

    replace_dir-Fixes :
        (source backup : String) (s : S)
        → disk.Scratch source
        → disk.Scratch backup
        → Fixes s (replace_dir h.files source d backup s).1
    unfolding replace_dir
    replace_dir-Fixes source backup s a b =
        and_then-KeepsBut d s (h.files.rename d backup s) _
          (λ p q o.
            disk.rename_other d backup p s (inl (disk.destination_tracked d m)) (inr b) q o
              (disk.apart p backup q b))
          λ _ _.
            let t = (h.files.rename d backup s).1 in
            and_then-KeepsBut d t (restore h.files backup d (h.files.rename source d t)) _
              (restore-Fixes backup t (h.files.rename source d t) b (λ p q o.
                disk.rename_other source d p t (inr a) (inl (disk.destination_tracked d m)) q
                  (disk.apart p source q a) o))
              λ _ _ p q o. disk.remove_all_other backup p _ (inr b) q (disk.apart p backup q b)

    replace_path-Fixes :
        (source : String) (s : S)
        → disk.Scratch source
        → Fixes s (replace_path h.files source d s).1
    unfolding replace_path
    replace_path-Fixes source s a =
        let moved_there : Fixes s (h.files.rename source d s).1 = (λ p q o.
          disk.rename_other source d p s (inr a) (inl (disk.destination_tracked d m)) q
            (disk.apart p source q a) o) in
        elim (Result-cases (h.files.lstat d s)) [
          | inr (not_exist, gone) ↦ rw (replace_path, gone) moved_there
          | inr (already_exists, refused) ↦ rw (replace_path, refused) (unchanged s)
          | inr (symlink_source, refused) ↦ rw (replace_path, refused) (unchanged s)
          | inr (unsupported, refused) ↦ rw (replace_path, refused) (unchanged s)
          | inr (out_of_fuel, refused) ↦ rw (replace_path, refused) (unchanged s)
          | inr (FileError.refused text, refused) ↦ rw (replace_path, refused) (unchanged s)
          | inl (info, there) ↦ elim (Bool-cases info.is_dir) [
            | inr plain ↦
                rw (replace_path, there, plain) (λ p q o. disk.replace_other source d p s a m q o)
            | inl folder ↦
                elim (Result-cases
                  (free_name h.files h.files.attempts (replace_backup h.files d) 0 s)) [
                    | inr (e, full) ↦ rw (replace_path, there, folder, full) (unchanged s)
                    | inl (backup, found) ↦
                        let (k, same, _) =
                          free_name-eq-ok h.files.attempts (replace_backup h.files d) backup 0 s
                            found in
                        rw (replace_path, there, folder, found)
                          (replace_dir-Fixes source backup s a
                            (subst disk.Scratch (sym same) (disk.replaced_scratch d k m)))
                  ]
          ]
        ]

    copy_staged-Fixes :
        (is_dir : Bool) (source stage : String) (s : S)
        → disk.Scratch stage
        → disk.Scratch (staged_in h.files stage d)
        → Fixes s (copy_staged h.files is_dir source d stage s).1
    unfolding copy_staged
    copy_staged-Fixes is_dir source stage s a b p q o =
        disk.remove_all_other stage p _ (inr a) q (disk.apart p stage q a)
        ∙ and_then-KeepsBut d s (copy_any h.files is_dir source (staged_in h.files stage d) s) _
            (λ p q o. copy_any_keeps is_dir source (staged_in h.files stage d) s b p q)
            (λ _ _. replace_path-Fixes (staged_in h.files stage d) _ b) p q o

    pub copy_resource-Fixes :
        (source : String) (s : S) → Fixes s (copy_resource h.files source d s).1
    unfolding copy_resource
    copy_resource-Fixes source s = elim (Result-cases (h.files.lstat source s)) [
      | inr (e, failed) ↦ rw (copy_resource, failed) (unchanged s)
      | inl (info, there) ↦ elim (Bool-cases info.is_symlink) [
        | inl linked ↦ rw (copy_resource, there, linked) (unchanged s)
        | inr plain ↦
            rw (copy_resource, there, plain)
              (and_then-KeepsBut d s (h.files.mkdir_all (h.files.dir d) s) _
                (λ p q o. disk.mkdir_all_keeps d p s m q)
                λ _ _.
                  let t = (h.files.mkdir_all (h.files.dir d) s).1 in
                  and_then-KeepsBut d t (h.files.mkdir_temp (h.files.dir d) t) _
                    (λ p q o. disk.mkdir_temp_keeps d p t m q)
                    λ stage made.
                      let scratch = disk.temp_scratch d stage t m made in
                      copy_staged-Fixes info.is_dir source stage _ scratch.0 scratch.1)
      ]
    ]

    pub link_resource-Fixes :
        (source : String) (s : S) → Fixes s (link_resource h.files source d s).1
    unfolding link_resource
    link_resource-Fixes source s =
        let stage = link_stage h.files d in
        let b = disk.link_scratch d m in
        let t = (h.files.mkdir_all (h.files.dir d) s).1 in
        let u = (h.files.remove stage t).1 in
        if-Fixes h.files.on_windows s _ _ (unchanged s) (
          and_then-KeepsBut d s (h.files.mkdir_all (h.files.dir d) s) _
            (λ p q o. disk.mkdir_all_keeps d p s m q)
            λ _ _ p q o.
              and_then-KeepsBut d u (h.files.symlink source stage u) _
                (λ p q o. disk.symlink_keeps source stage p u b q)
                (λ _ _. replace_path-Fixes stage _ b) p q o
              ∙ disk.remove_other stage p t (inr b) q (disk.apart p stage q b))
