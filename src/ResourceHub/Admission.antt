-- ===== src/ResourceHub/Admission.antt =====
-- What a synchronisation has tested before it takes the lock.
use Prim.Native.String.{String}
use text.Mathlib.Text.{◌==◌}
use text.Mathlib.TextEquality.{eq_iff}
use agent_stack_manager.Prelude.{
  ℕ, ◌≡◌, refl, ap, ◌∙◌, ◌<◌, inl, inr, Bool, true, false, some, Option-cases, Result, ok, err,
  with_ok, ok-subst, ensure, arith, ltb,
}
use agent_stack_manager.Prelude.Maps.{lookup}
use agent_stack_manager.ResourceHub.Types.{Target, Registry, SyncPlan}
use agent_stack_manager.ResourceHub.Files.{FileError}
use agent_stack_manager.ResourceHub.Hub.{
  Hub, confirmation_required, bad_plan_id, digest_mismatch, bad_stored_digest, plan_expired,
  registry_changed, unavailable_target, failing, sync_plan_digest,
}
use agent_stack_manager.ResourceHub.Checks.{valid_id, load_sync_plan, target_of, admit}

-- The stored plan is the reviewed one, unchanged and not expired, made for the registry as it is and
-- for a target that is enabled; and the user has confirmed it.
pub record Admitted {S : Type 0} (h : Hub S) (plan_id digest : String) (is_confirmed : Bool)
    (now : ℕ) (s : S) (plan : SyncPlan) (registry : Registry) (target : Target) : Type 0 where
  pub confirmed : is_confirmed ≡ true
  pub loaded : load_sync_plan h plan_id s ≡ ok plan
  pub reviewed : digest ≡ plan.digest
  pub untouched : sync_plan_digest h plan ≡ ok plan.digest
  pub current : now < plan.expires_at
  pub registered : h.load_registry s ≡ ok registry
  pub unchanged : h.registry_json registry ≡ ok plan.registry_digest
  pub known : lookup plan.target_id registry.targets ≡ some target
  pub enabled : target.enabled ≡ true

ensure-eq-ok : {E : Type 0} (b : Bool) (e : E) → ensure b e ≡ ok tt → b ≡ true
ensure-eq-ok true e h = refl
ensure-eq-ok false e h = absurd (cc)

failing-eq-ok : {A : Type 0} (run : Result FileError A) (a : A) → failing run ≡ ok a → run ≡ ok a
failing-eq-ok (ok b) a h = cc
failing-eq-ok (err e) a h = absurd (cc)

target_of-eq-ok :
    {S : Type 0} (h : Hub S) (registry : Registry) (id : String) (target : Target)
    → target_of h registry id ≡ ok target
    → (lookup id registry.targets ≡ some target) × (target.enabled ≡ true)
target_of-eq-ok h registry id target e = elim (Option-cases (lookup id registry.targets)) [
  | inl missing ↦ absurd (ground (arith, missing, e))
  | inr (t, found) ↦
      with_ok {m = ensure t.enabled (unavailable_target id)} (rw (target_of, found) at e)
        λ u on last.
          ok-subst (λ x. (lookup id registry.targets ≡ some x) × (x.enabled ≡ true)) last
            (found, ensure-eq-ok t.enabled (unavailable_target id) on)
]

pub admit-Admitted :
    {S : Type 0} (h : Hub S) (plan_id digest : String) (confirmed : Bool) (now : ℕ) (s : S)
    (plan : SyncPlan) (registry : Registry) (target : Target)
    → admit h plan_id digest confirmed now s ≡ ok (plan, registry, target)
    → Admitted h plan_id digest confirmed now s plan registry target
unfolding admit
admit-Admitted h plan_id digest confirmed now s plan registry target e =
    with_ok {m = ensure confirmed confirmation_required} e λ _ c e₁.
      with_ok {m = ensure (valid_id plan_id) bad_plan_id} e₁ λ _ v e₂.
        with_ok {m = load_sync_plan h plan_id s} e₂ λ p l e₃.
          with_ok {m = ensure (digest == p.digest) digest_mismatch} e₃ λ _ d e₄.
            with_ok {m = sync_plan_digest h p} e₄ λ actual a e₅.
              with_ok {m = ensure (actual == p.digest) bad_stored_digest} e₅ λ _ b e₆.
                with_ok {m = ensure (ltb now p.expires_at) plan_expired} e₆ λ _ t e₇.
                  with_ok {m = failing (h.load_registry s)} e₇ λ r g e₈.
                    with_ok {m = failing (h.registry_json r)} e₈ λ rd j e₉.
                      with_ok {m = ensure (rd == p.registry_digest) registry_changed} e₉ λ _ k f₁.
                        with_ok {m = target_of h r p.target_id} f₁ λ x o f₂.
                          let (found, on) = target_of-eq-ok h r p.target_id x o in
                          ok-subst
                            (λ (z : SyncPlan × Registry × Target).
                              Admitted h plan_id digest confirmed now s z.0 z.1 z.2)
                            f₂
                            (record {
                              confirmed = ensure-eq-ok confirmed confirmation_required c;
                              loaded = l;
                              reviewed =
                                  (eq_iff digest p.digest).0 (ensure-eq-ok _ digest_mismatch d);
                              untouched =
                                  a
                                  ∙ ap ok (
                                      (eq_iff actual p.digest).0
                                        (ensure-eq-ok _ bad_stored_digest b));
                              current = ground (arith, ensure-eq-ok _ plan_expired t);
                              registered = failing-eq-ok (h.load_registry s) r g;
                              unchanged =
                                  failing-eq-ok (h.registry_json r) rd j
                                  ∙ ap ok (
                                      (eq_iff rd p.registry_digest).0
                                        (ensure-eq-ok _ registry_changed k));
                              known = found;
                              enabled = on;
                            })
