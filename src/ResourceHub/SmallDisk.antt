-- ===== src/ResourceHub/SmallDisk.antt =====
-- A small disk for tests: what is at a path is a text, and there are two destinations.
use Prim.Native.String.{String}
use text.Mathlib.Text.{◌==◌}
use text.Mathlib.TextEquality.{eq_iff}
use agent_stack_manager.Prelude.{
  ℕ, zero, suc, pos, ◌≡◌, refl, ap, subst, ◌∙◌, ◌≢◌, inl, inr, true, false, none, some,
  Option-cases, List, [], ◌∷◌, Result, ok, err, MemOf, here, there, arith, if◌then◌else◌,
}
use agent_stack_manager.Prelude.Text.{concatenated}
use agent_stack_manager.Prelude.Maps.{
  Keys, Map, mem, lookup, insert, delete, lookup-insert, lookup-delete,
}
use agent_stack_manager.ResourceHub.Types.{
  Kind, Agent, SyncMode, Resource, Registry, SyncAction, SyncOperation, SyncPlan, ManagedState,
}
use agent_stack_manager.ResourceHub.Files.{
  FileError, not_exist, unsupported, FileInfo, Files, Done, numbered, rollback_base, replace_backup,
  staged_in, link_stage,
}
use agent_stack_manager.ResourceHub.Hub.{Hub}
use agent_stack_manager.ResourceHub.Disk.{Disk}

abbrev pub Paths : Type 0
Paths = Map String

abbrev found_at : String → Paths → Result FileError String
found_at path s = elim (lookup path s) [ none ↦ err not_exist | some content ↦ ok content ]

abbrev info_at : String → Paths → Result FileError FileInfo
info_at path s = elim (lookup path s) [
  | none ↦ err not_exist
  | some content ↦ ok (record { is_dir = false; is_symlink = false })
]

abbrev move_path : String → String → Paths → Result FileError Done × Paths
move_path a b s = elim (lookup a s) [
  | none ↦ (err not_exist, s)
  | some content ↦ (ok tt, insert b content (delete a s))
]

abbrev copy_path : String → String → Paths → Result FileError Done × Paths
copy_path a b s = elim (lookup a s) [
  | none ↦ (err not_exist, s)
  | some content ↦ (ok tt, insert b content s)
]

abbrev pub small_files : Files Paths
small_files = record {
  on_windows = true;
  join = concatenated;
  dir = λ path. "";
  base = λ path. path;
  decimal = λ n. "";
  attempts = 1;
  lstat = info_at;
  tree_digest = found_at;
  rename = move_path;
  remove = λ path s. (ok tt, delete path s);
  remove_all = λ path s. (ok tt, delete path s);
  mkdir_all = λ path s. (ok tt, s);
  mkdir_temp = λ path s. (ok "stage", s);
  symlink = λ a b s. (err unsupported, s);
  replace = λ a b s. (err unsupported, s);
  copy_tree = λ a b s. (err unsupported, s);
  copy_file = copy_path;
  eval_symlinks = λ path s. ok path;
  abs = λ path s. ok path;
  clean = λ path. path;
}

abbrev note : String → String → Resource
note id digest = record {
  id = id;
  kind = Kind.skill;
  name = id;
  description = "";
  digest = digest;
  entry = "";
  source = "";
  tags = [];
  targets = [];
  scope = "";
  enabled = true;
  imported_at = 0;
  updated_at = 0;
  metadata = [];
}

abbrev small_registry : Registry
small_registry = record {
  version = pos 1;
  resources = ("one", note "one" "new") ∷ ("two", note "two" "other") ∷ [];
  targets =
      (
        "here",
        record {
          id = "here";
          agent = Agent.codex;
          root = "";
          mode = SyncMode.copy;
          enabled = true;
        },
      )
      ∷ [];
  updated_at = 0;
}

abbrev operation : String → String → SyncAction → String → String → SyncOperation
operation id destination action desired current = record {
  resource_id = id;
  kind = Kind.skill;
  action = action;
  source = "";
  destination = destination;
  desired_digest = desired;
  current_digest = current;
  reason = "";
}

abbrev pub small_plan : SyncPlan
small_plan = record {
  id = "sync";
  digest = "plan";
  target_id = "here";
  generated_at = 0;
  expires_at = 9;
  registry_digest = "registry";
  allow_risk = false;
  prune = false;
  operations =
      operation "one" "d" SyncAction.update "new" "old"
      ∷ operation "two" "e" SyncAction.create "other" ""
      ∷ [];
}

abbrev small_state : ManagedState
small_state = record {
  version = pos 1;
  target_id = "here";
  entries =
      ("d", record { resource_id = "one"; destination = "d"; digest = "old"; managed_at = 0 }) ∷ [];
  updated_at = 0;
}

-- The hook stops at the second operation.
abbrev pub small_hub : Hub Paths
small_hub = record {
  files = small_files;
  root = "";
  load_registry = λ s. ok small_registry;
  is_blocked = λ id s. ok false;
  read_plan = λ path s. ok small_plan;
  write_plan = λ path plan s. (ok tt, s);
  read_state = λ path s. ok small_state;
  write_state = λ path state s. (ok tt, s);
  create_lock = λ path s. (ok tt, s);
  remove_file = λ path s. (ok tt, s);
  before_operation = λ op s. if op.destination == "e" then err "stop" else ok tt;
  registry_json = λ registry. ok "registry";
  plan_json = λ plan. ok "plan";
  sync_id = λ now. "sync";
}

abbrev pub start : Paths
start = ("d", "old") ∷ ("resourcesone", "new") ∷ ("resourcestwo", "other") ∷ []

abbrev scratch_paths : Keys
scratch_paths =
    "stage" ∷ "staged" ∷ "stagee" ∷ "d.agentstack-link" ∷ "e.agentstack-link"
    ∷ "d.agentstack-backup" ∷ "d.agentstack-backup-" ∷ "e.agentstack-backup"
    ∷ "e.agentstack-backup-" ∷ []

abbrev pub places : List String
places = "d" ∷ "e" ∷ []

abbrev IsTracked : String → Type 0
IsTracked path = mem path scratch_paths ≡ false

abbrev IsScratch : String → Type 0
IsScratch path = mem path scratch_paths ≡ true

by_place : (P : String → Type 0) → P "d" → P "e" → (d : String) → MemOf d places → P d
by_place P p q d here = p
by_place P p q d (there here) = q
by_place P p q d (there (there m)) = elim m [ ]

insert-other :
    (a p content : String) (s : Paths) → p ≢ a → lookup p (insert a content s) ≡ lookup p s
insert-other a p content s apart = lookup-insert a p content s ∙ ground (arith, eq_iff a p, apart)

delete-other : (a p : String) (s : Paths) → p ≢ a → lookup p (delete a s) ≡ lookup p s
delete-other a p s apart = lookup-delete a p s ∙ ground (arith, eq_iff a p, apart)

delete_self : (a : String) (s : Paths) → lookup a (delete a s) ≡ none
delete_self a s = lookup-delete a a s ∙ ground (arith, eq_iff a a)

info_absent : (p : String) (s : Paths) → info_at p s ≡ err not_exist → lookup p s ≡ none
info_absent p s e = elim (Option-cases (lookup p s)) [
  | inl gone ↦ gone
  | inr (content, found) ↦ absurd (ground (arith, found, e))
]

move_done :
    (a b : String) (s : Paths)
    → a ≢ b
    → (move_path a b s).0 ≡ ok tt
    → (lookup b (move_path a b s).1 ≡ lookup a s) × (lookup a (move_path a b s).1 ≡ none)
move_done a b s apart done = elim (Option-cases (lookup a s)) [
  | inl gone ↦ absurd (ground (arith, gone, done))
  | inr (content, found) ↦ (
    ground (arith, found, lookup-insert b b content (delete a s), eq_iff b b),
    ground (arith, found, insert-other b a content (delete a s) apart, delete_self a s),
  )
]

move_failed :
    (a b p : String) (s : Paths) (e : FileError)
    → (move_path a b s).0 ≡ err e
    → lookup p (move_path a b s).1 ≡ lookup p s
move_failed a b p s e failed = elim (Option-cases (lookup a s)) [
  | inl gone ↦ ground (arith, gone)
  | inr (content, found) ↦ absurd (ground (arith, found, failed))
]

move_other :
    (a b p : String) (s : Paths) → p ≢ a → p ≢ b → lookup p (move_path a b s).1 ≡ lookup p s
move_other a b p s m n = elim (Option-cases (lookup a s)) [
  | inl gone ↦ ground (arith, gone)
  | inr (content, found) ↦
      ground (arith, found, insert-other b p content (delete a s) n, delete-other a p s m)
]

copy_other : (a b p : String) (s : Paths) → p ≢ b → lookup p (copy_path a b s).1 ≡ lookup p s
copy_other a b p s n = elim (Option-cases (lookup a s)) [
  | inl gone ↦ ground (arith, gone)
  | inr (content, found) ↦ ground (arith, found, insert-other b p content s n)
]

apart : (p q : String) → IsTracked p → IsScratch q → p ≢ q
apart p q t c e = absurd (ground (arith, t, c, ap (λ x. mem x scratch_paths) e))

backups-IsTracked :
    (d : String) (index n : ℕ)
    → MemOf d places
    → IsTracked (numbered small_files (rollback_base small_files d "sync" index) n)
unfolding mem numbered
backups-IsTracked d index zero m =
    by_place (λ x. IsTracked (numbered small_files (rollback_base small_files x "sync" index) zero))
      refl refl d m
backups-IsTracked d index (suc n) m =
    by_place
      (λ x. IsTracked (numbered small_files (rollback_base small_files x "sync" index) (suc n)))
      refl refl d m

backups_apart :
    (d e : String) (index n : ℕ)
    → MemOf d places
    → MemOf e places
    → e ≢ numbered small_files (rollback_base small_files d "sync" index) n
unfolding numbered
backups_apart d e index zero m o =
    by_place (λ x. e ≢ numbered small_files (rollback_base small_files x "sync" index) zero)
      (by_place (λ y. y ≢ numbered small_files (rollback_base small_files "d" "sync" index) zero)
        (λ x. cc) (λ x. cc) e o)
      (by_place (λ y. y ≢ numbered small_files (rollback_base small_files "e" "sync" index) zero)
        (λ x. cc) (λ x. cc) e o)
      d m
backups_apart d e index (suc n) m o =
    by_place (λ x. e ≢ numbered small_files (rollback_base small_files x "sync" index) (suc n))
      (by_place (λ y. y ≢ numbered small_files (rollback_base small_files "d" "sync" index) (suc n))
        (λ x. cc) (λ x. cc) e o)
      (by_place (λ y. y ≢ numbered small_files (rollback_base small_files "e" "sync" index) (suc n))
        (λ x. cc) (λ x. cc) e o)
      d m

replaced :
    (d : String) (n : ℕ)
    → MemOf d places
    → IsScratch (numbered small_files (replace_backup small_files d) n)
unfolding mem numbered
replaced d zero m =
    by_place (λ x. IsScratch (numbered small_files (replace_backup small_files x) zero)) refl refl d
      m
replaced d (suc n) m =
    by_place (λ x. IsScratch (numbered small_files (replace_backup small_files x) (suc n))) refl
      refl d m

staged :
    (d stage : String)
    → MemOf d places
    → "stage" ≡ stage
    → IsScratch stage × IsScratch (staged_in small_files stage d)
unfolding mem
staged d stage m e =
    subst (λ x. IsScratch x × IsScratch (staged_in small_files x d)) e
      (by_place (λ x. IsScratch "stage" × IsScratch (staged_in small_files "stage" x)) (refl, refl)
        (refl, refl) d m)

made :
    (d stage : String) (s : Paths)
    → MemOf d places
    → (small_files.mkdir_temp "" s).0 ≡ ok stage
    → IsScratch stage × IsScratch (staged_in small_files stage d)
made d stage s m e = staged d stage m (cc)

pub small_disk : Disk small_hub "sync" places
small_disk = record {
  Content = String;
  view = λ s p. lookup p s;
  Tracked = IsTracked;
  Scratch = IsScratch;
  apart = apart;
  destination_tracked = unfold mem in by_place IsTracked refl refl;
  backup_tracked = backups-IsTracked;
  backup_apart = backups_apart;
  link_scratch = unfold mem in by_place (λ x. IsScratch (link_stage small_files x)) refl refl;
  replaced_scratch = replaced;
  temp_scratch = made;
  lstat_absent = λ p s t e. info_absent p s e;
  rename_ok = λ a b s t u n e. move_done a b s n e;
  rename_failed = λ a b p s e t f. move_failed a b p s e f;
  rename_other = λ a b p s t u m n o. move_other a b p s n o;
  remove_ok = λ a s t e. delete_self a s;
  remove_other = λ a p s t u n. delete-other a p s n;
  remove_all_ok = λ a s t e. delete_self a s;
  remove_all_other = λ a p s t u n. delete-other a p s n;
  mkdir_all_keeps = λ d p s m t. refl;
  mkdir_temp_keeps = λ d p s m t. refl;
  symlink_keeps = λ a b p s c t. refl;
  replace_other = λ a d p s c m t n. refl;
  copy_tree_keeps = λ a b p s c t. refl;
  copy_file_keeps = λ a b p s c t. copy_other a b p s (apart p b t c);
  create_lock_keeps = λ id p s t. refl;
  remove_lock_keeps = λ id p s t. refl;
  write_state_keeps = λ id p state s t. refl;
}
