-- ===== src/ResourceHub/Justified.antt =====
-- What may be done about one resource.
use Prim.Native.String.{String}
use text.Mathlib.Text.{◌==◌}
use text.Mathlib.TextEquality.{eq_iff}
use agent_stack_manager.Prelude.{
  ◌≡◌, ap, ◌∙◌, ◌⊎◌, inl, inr, Bool, true, false, Bool-cases, Option-cases, ◌&&◌, ok, err,
  Result-cases, ok-subst, arith, MemOf,
}
use agent_stack_manager.Prelude.Maps.{Map, lookup, lookup-MemOf}
use agent_stack_manager.ResourceHub.Types.{
  Resource, Target, SyncAction, SyncOperation, PlanOptions, ManagedEntry,
}
use agent_stack_manager.ResourceHub.Destinations.{effective_target_mode}
use agent_stack_manager.ResourceHub.Files.{not_exist, link_destination_matches}
use agent_stack_manager.ResourceHub.Hub.{Hub, resource_source}
use agent_stack_manager.ResourceHub.Choosing.{
  is_link_mode, choose_existing, choose, audited, Choice, is_managed_by, is_unchanged,
}

module _ {S : Type 0} (h : Hub S) (s : S) (allow_risk : Bool) (entries : Map ManagedEntry) where
  -- The destination holds what the program itself put there, for the resource, and nobody changed.
  abbrev pub IsOwn : String → String → Type 0
  IsOwn destination resource_id =
      (entry : ManagedEntry) × MemOf (destination, entry) entries
      × (entry.resource_id ≡ resource_id)
      × (h.files.tree_digest destination s ≡ ok entry.digest)

  abbrev pub IsAudited : String → Type 0
  IsAudited id = (allow_risk ≡ true) ⊎ (h.is_blocked id s ≡ ok false)

  -- What must hold for an operation to be planned.
  abbrev pub MayPlan : SyncAction → String → String → String → Type 0
  MayPlan SyncAction.create destination id current =
      IsAudited id × (h.files.tree_digest destination s ≡ err not_exist)
  MayPlan SyncAction.update destination id current = IsAudited id × IsOwn destination id
  MayPlan SyncAction.remove destination id current = IsOwn destination id
  MayPlan SyncAction.noop destination id current = h.files.tree_digest destination s ≡ ok current
  MayPlan SyncAction.conflict destination id current =
      h.files.tree_digest destination s ≡ ok current
  MayPlan (SyncAction.other text) destination id current = ⊥

  abbrev pub Justified : SyncOperation → Type 0
  Justified op = MayPlan op.action op.destination op.resource_id op.current_digest

  managed-IsOwn :
      (destination id current : String)
      → h.files.tree_digest destination s ≡ ok current
      → (is_managed_by id (lookup destination entries)
          && is_unchanged current (lookup destination entries))
        ≡ true
      → IsOwn destination id
  managed-IsOwn destination id current digest own =
      elim (Option-cases (lookup destination entries)) [
        | inl missing ↦ absurd (ground (arith, missing, own))
        | inr (entry, found) ↦ (
          entry,
          lookup-MemOf destination entry entries found,
          ground (arith, found, own, eq_iff entry.resource_id id),
          digest ∙ ap ok (ground (arith, found, own, eq_iff current entry.digest)),
        )
      ]

  choose_existing-MayPlan :
      (target : Target) (resource : Resource) (id destination current : String)
      → IsAudited id
      → h.files.tree_digest destination s ≡ ok current
      → let c =
          choose_existing h s target resource id destination (lookup destination entries) current in
        MayPlan c.action destination id c.current
  unfolding choose_existing
  choose_existing-MayPlan target resource id destination current audit digest =
      let managed = lookup destination entries in
      elim (Bool-cases (
        is_link_mode (effective_target_mode h.files.on_windows target)
        && (is_managed_by id managed
            && link_destination_matches h.files (resource_source h resource) destination s))) [
              | inl linked ↦ rw linked digest
              | inr unlinked ↦ elim (Bool-cases (current == resource.digest)) [
                | inl same ↦ rw unlinked (rw same digest)
                | inr differs ↦
                    elim (Bool-cases (is_managed_by id managed && is_unchanged current managed)) [
                      | inl own ↦ rw unlinked (
                          rw differs
                            (rw own (audit, managed-IsOwn destination id current digest own)))
                      | inr foreign ↦ elim (Bool-cases (is_managed_by id managed)) [
                        | inl ours ↦ rw unlinked (rw differs (rw foreign (rw ours digest)))
                        | inr theirs ↦ rw unlinked (rw differs (rw foreign (rw theirs digest)))
                      ]
                    ]
              ]
            ]

  pub choose-MayPlan :
      (target : Target) (resource : Resource) (id destination : String) (c : Choice)
      → IsAudited id
      → choose h s target resource id destination (lookup destination entries) ≡ ok c
      → MayPlan c.action destination id c.current
  unfolding choose
  choose-MayPlan target resource id destination c audit e =
      elim (Result-cases (h.files.tree_digest destination s)) [
        | inl (current, digest) ↦
            ok-subst (λ (k : Choice). MayPlan k.action destination id k.current)
              (rw (choose, digest) at e)
              (choose_existing-MayPlan target resource id destination current audit digest)
        | inr (not_exist, digest) ↦
            ok-subst (λ (k : Choice). MayPlan k.action destination id k.current)
              (rw (choose, digest) at e) (audit, digest)
        | inr (_, digest) ↦ absurd (ground (arith, digest, e))
      ]

  pub audited-IsAudited :
      (options : PlanOptions) (id : String)
      → options.allow_risk ≡ allow_risk
      → audited h s options id ≡ ok tt
      → IsAudited id
  audited-IsAudited options id same e = elim (Bool-cases allow_risk) [
    | inl risky ↦ inl risky
    | inr careful ↦ elim (Result-cases (h.is_blocked id s)) [
      | inl (true, found) ↦ absurd (ground (arith, same, careful, found, e))
      | inl (false, found) ↦ inr found
      | inr (x, failed) ↦ absurd (ground (arith, same, careful, failed, e))
    ]
  ]
