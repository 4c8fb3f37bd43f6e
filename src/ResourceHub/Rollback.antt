-- ===== src/ResourceHub/Rollback.antt =====
-- Taking back what a synchronisation has done.
use Prim.Native.String.{String}
use text.Mathlib.Text.{◌==◌}
use text.Mathlib.TextEquality.{eq_iff}
use agent_stack_manager.Prelude.{
  ◌≡◌, refl, ◌∙◌, ◌≢◌, inl, inr, true, Bool-cases, Option, none, List, [], ◌∷◌, ◌++◌, Result, ok,
  err, Result-cases, arith, ◌&&◌, not, if◌then◌else◌,
}
use agent_stack_manager.ResourceHub.Files.{
  FileError, not_exist, already_exists, symlink_source, unsupported, out_of_fuel, Done,
  remove_managed_path,
}
use agent_stack_manager.ResourceHub.Hub.{Hub}
use agent_stack_manager.ResourceHub.Moving.{
  RollbackEntry, errors_of, restored, undo_entry, rollback_all,
}
use agent_stack_manager.ResourceHub.Disk.{Disk, KeepsBut}

append-nil : {A : Type 0} (xs ys : List A) → xs ++ ys ≡ [] → (xs ≡ []) × (ys ≡ [])
append-nil [] ys e = (refl, e)
append-nil (x ∷ xs) ys e = absurd (cc)

module _ {S : Type 0} (h : Hub S) (plan_id : String) (destinations : List String)
    (disk : Disk h plan_id destinations) where
  abbrev Cleared : String → S → Result FileError Done × S → Type 0
  Cleared d s run =
      KeepsBut h plan_id destinations disk d s run.1 × (run.0 ≡ ok tt → disk.view run.1 d ≡ none)

  remove_managed_path-Cleared :
      (d : String) (s : S) → disk.Tracked d → Cleared d s (remove_managed_path h.files d s)
  unfolding remove_managed_path
  remove_managed_path-Cleared d s m = elim (Result-cases (h.files.lstat d s)) [
    | inr (not_exist, gone) ↦
        rw (remove_managed_path, gone) (λ p q o. refl, λ e. disk.lstat_absent d s m gone)
    | inr (already_exists, e) ↦ rw (remove_managed_path, e) (λ p q o. refl, λ x. cc)
    | inr (symlink_source, e) ↦ rw (remove_managed_path, e) (λ p q o. refl, λ x. cc)
    | inr (unsupported, e) ↦ rw (remove_managed_path, e) (λ p q o. refl, λ x. cc)
    | inr (out_of_fuel, e) ↦ rw (remove_managed_path, e) (λ p q o. refl, λ x. cc)
    | inr (FileError.refused text, e) ↦ rw (remove_managed_path, e) (λ p q o. refl, λ x. cc)
    | inl (info, there) ↦ elim (Bool-cases (info.is_dir && not info.is_symlink)) [
      | inl folder ↦
          rw (remove_managed_path, there, folder)
            (λ p q o. disk.remove_all_other d p s (inl m) q o, disk.remove_all_ok d s m)
      | inr plain ↦
          rw (remove_managed_path, there, plain)
            (λ p q o. disk.remove_other d p s (inl m) q o, disk.remove_ok d s m)
    ]
  ]

  abbrev pub View : Type 0
  View = String → Option disk.Content

  -- The disk as it was before an entry, by the disk after it.
  unfoldable pub undone : RollbackEntry → View → View
  undone entry v p =
      if entry.destination == p
      then if entry.existed then v entry.backup else none
      else if entry.existed && entry.backup == p
      then none
      else v p

  abbrev pub Recorded : RollbackEntry → Type 0
  Recorded entry =
      disk.Tracked entry.destination
      × (entry.existed ≡ true → disk.Tracked entry.backup × (entry.backup ≢ entry.destination))

  -- Taking all entries back, the newest first, gives the disk as it was at the start.
  unfoldable pub LeadsTo : View → List RollbackEntry → View → Type 0
  LeadsTo start [] v = (p : String) → disk.Tracked p → v p ≡ start p
  LeadsTo start (entry ∷ entries) v = Recorded entry × LeadsTo start entries (undone entry v)

  abbrev pub Same : View → View → Type 0
  Same v w = (p : String) → disk.Tracked p → w p ≡ v p

  undone-Same :
      (entry : RollbackEntry) (v w : View)
      → Recorded entry
      → Same v w
      → Same (undone entry v) (undone entry w)
  unfolding undone
  undone-Same entry v w r same p m = elim (Bool-cases entry.existed) [
    | inl existed ↦ ground (arith, existed, same entry.backup (r.1 existed).0, same p m)
    | inr fresh ↦ ground (arith, fresh, same p m)
  ]

  -- What a change of its destination does not reach.
  pub undone-KeepsBut :
      (entry : RollbackEntry) (s t : S)
      → Recorded entry
      → KeepsBut h plan_id destinations disk entry.destination s t
      → Same (undone entry (disk.view s)) (undone entry (disk.view t))
  unfolding undone
  undone-KeepsBut entry s t r k p m = elim (Bool-cases (entry.destination == p)) [
    | inr apart ↦ ground (
      arith,
      apart,
      eq_iff entry.destination p,
      k p m (λ e. ground (arith, apart, e, eq_iff entry.destination p)),
    )
    | inl there ↦ elim (Bool-cases entry.existed) [
      | inl existed ↦ ground (arith, there, existed, k entry.backup (r.1 existed).0 (r.1 existed).1)
      | inr fresh ↦ ground (arith, there, fresh)
    ]
  ]

  ok_of_no_errors :
      (a b : Result FileError Done) → errors_of a ++ errors_of b ≡ [] → (a ≡ ok tt) × (b ≡ ok tt)
  ok_of_no_errors (ok u) (ok v) e = (refl, refl)
  ok_of_no_errors (ok u) (err y) e = absurd (cc)
  ok_of_no_errors (err x) b e = absurd (cc)

  undo_entry-undone :
      (entry : RollbackEntry) (s : S)
      → Recorded entry
      → (undo_entry h entry s).0 ≡ []
      → Same (undone entry (disk.view s)) (disk.view (undo_entry h entry s).1)
  unfolding undone undo_entry
  undo_entry-undone entry s r clean p m =
      let d = entry.destination in
      let run = remove_managed_path h.files d s in
      let removed = remove_managed_path-Cleared d s r.0 in
      let fine = ok_of_no_errors run.0 (restored h entry run.1).0 clean in
      elim (Bool-cases entry.existed) [
        | inr fresh ↦ elim (Bool-cases (d == p)) [
          | inl there ↦ ground (arith, fresh, there, removed.1 fine.0, eq_iff d p)
          | inr apart ↦
              ground
                (arith, fresh, apart, removed.0 p m (λ e. ground (arith, apart, e, eq_iff d p)))
        ]
        | inl existed ↦
            let b = entry.backup in
            let (tracked, other) = r.1 existed in
            let moved =
              disk.rename_ok b d run.1 tracked r.0 other (ground (arith, existed, fine.1)) in
            elim (Bool-cases (d == p)) [
              | inl there ↦
                  ground (arith, existed, there, moved.0, removed.0 b tracked other, eq_iff d p)
              | inr apart ↦ elim (Bool-cases (b == p)) [
                | inl backup ↦ ground (arith, existed, apart, backup, moved.1, eq_iff b p)
                | inr elsewhere ↦ ground (
                  arith,
                  existed,
                  apart,
                  elsewhere,
                  disk.rename_other b d p run.1 (inl tracked) (inl r.0) m
                      (λ e. ground (arith, elsewhere, e, eq_iff b p))
                      (λ e. ground (arith, apart, e, eq_iff d p)),
                  removed.0 p m (λ e. ground (arith, apart, e, eq_iff d p)),
                )
              ]
            ]
      ]

  pub LeadsTo-Same :
      (start : View) (entries : List RollbackEntry) (v w : View)
      → Same v w
      → LeadsTo start entries v
      → LeadsTo start entries w
  unfolding LeadsTo
  LeadsTo-Same start [] v w same l = λ p m. same p m ∙ l p m
  LeadsTo-Same start (entry ∷ entries) v w same l = (
    l.0,
    LeadsTo-Same start entries (undone entry v) (undone entry w) (undone-Same entry v w l.0 same)
        l.1,
  )

  -- A rollback without errors gives the disk back as it was.
  pub rollback_all_lem :
      (start : View) (entries : List RollbackEntry) (s : S)
      → LeadsTo start entries (disk.view s)
      → (rollback_all h entries s).0 ≡ []
      → Same start (disk.view (rollback_all h entries s).1)
  unfolding rollback_all LeadsTo
  rollback_all_lem start [] s l clean = l
  rollback_all_lem start (entry ∷ entries) s l clean =
      let both =
        append-nil (undo_entry h entry s).0 (rollback_all h entries (undo_entry h entry s).1).0
          clean in
      let t = (undo_entry h entry s).1 in
      rollback_all_lem start entries t
        (LeadsTo-Same start entries (undone entry (disk.view s)) (disk.view t)
          (undo_entry-undone entry s l.0 both.0) l.1)
        both.1
