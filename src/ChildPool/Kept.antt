-- ===== src/ChildPool/Kept.antt =====
-- Every section keeps what holds of the pool and its callers.
use Prim.Native.String.{String}
use text.Mathlib.TextEquality.{eq_iff}
use agent_stack_manager.Prelude.{
  ℕ, ◌≡◌, refl, ◌∙◌, inl, inr, Bool, false, Bool-cases, ◌&&◌, Option, none, List, [], ◌∷◌, ◌++◌,
  ◌==◌, arith, All-imp,
}
use agent_stack_manager.Prelude.Maps.{Map, lookup, lookup-insert, lookup-delete}
use agent_stack_manager.ChildPool.Sections.{
  Worker, Pool, write, closing, is_current, finish_start, with_entered, with_new, expired,
  is_barred, leave, expire, close_all, close,
}
use agent_stack_manager.ChildPool.Invariant.{
  is_using, is_starting, IsKnown, Inv, replaced_total, total-split, IsKnown-at, IsKnown-imp,
  IsKnown-after, fresh_unused,
}
use agent_stack_manager.ChildPool.Steps.{Caller, outside, starting, entering, using}

-- A caller that neither uses nor starts a worker.
abbrev pub IsIdle : Caller → Type 0
IsIdle caller = (w : ℕ) → (is_using w caller ≡ 0) × (is_starting w caller ≡ 0)

module _ (front back : List Caller) (key : String) (p : Pool) where
  -- A caller that only moves on changes nothing.
  pub idle-Inv :
      (caller other : Caller)
      → IsIdle caller
      → IsIdle other
      → IsKnown p other
      → Inv (front ++ caller ∷ back) p
      → Inv (front ++ other ∷ back) p
  idle-Inv caller other idle quiet known i = record {
    known = IsKnown-after p p front caller other back (omega arith, λ w n. refl) known i.known;
    counts = λ v.
        ground
          (arith, replaced_total (is_using v) front caller other back, idle v, quiet v, i.counts v);
    one_start = λ v. ground (
      arith,
      replaced_total (is_starting v) front caller other back,
      idle v,
      quiet v,
      i.one_start v,
    );
    unstarted = λ v e. ground (
      arith,
      replaced_total (is_starting v) front caller other back,
      idle v,
      quiet v,
      i.unstarted v,
    );
    listed = i.listed;
    unused = i.unused;
  }

  pub finish_start-Inv :
      (w : ℕ) (session : Option ℕ) (has_failed : Bool) (other : Caller)
      → IsIdle other
      → IsKnown (finish_start key w session has_failed p).1 other
      → Inv (front ++ starting key w ∷ back) p
      → Inv (front ++ other ∷ back) (finish_start key w session has_failed p).1
  unfolding finish_start
  finish_start-Inv w session has_failed other quiet known i =
      let k = IsKnown-at p front (starting key w) back i.known in
      record {
        known =
            IsKnown-after p (finish_start key w session has_failed p).1 front (starting key w) other
              back (omega arith, λ v n. ground (arith)) known i.known;
        counts = λ v. ground (
          arith,
          replaced_total (is_using v) front (starting key w) other back,
          quiet v,
          i.counts v,
        );
        one_start = λ v. ground (
          arith,
          replaced_total (is_starting v) front (starting key w) other back,
          quiet v,
          i.one_start v,
        );
        unstarted = λ v e. ground (
          arith,
          replaced_total (is_starting v) front (starting key w) other back,
          quiet v,
          i.one_start v,
          i.unstarted v,
        );
        listed = λ asked v e.
            ground
              (arith, i.listed asked v, k, lookup-delete key asked p.workers, eq_iff key asked);
        unused = λ v e. ground (
          arith,
          i.unused v,
          i.unstarted v,
          i.one_start v,
          total-split (is_starting v) front (starting key w) back,
        );
      }

  pub with_entered-Inv :
      (w : ℕ)
      → is_barred key w p ≡ false
      → Inv (front ++ entering key w ∷ back) p
      → Inv (front ++ using key w ∷ back) (with_entered w p)
  with_entered-Inv w allowed i =
      let k = IsKnown-at p front (entering key w) back i.known in
      record {
        known =
            IsKnown-after p (with_entered w p) front (entering key w) (using key w) back
              (omega arith, λ v n. ground (arith)) (ground (arith, k)) i.known;
        counts = λ v. ground (
          arith,
          replaced_total (is_using v) front (entering key w) (using key w) back,
          i.counts v,
        );
        one_start = λ v. ground (
          arith,
          replaced_total (is_starting v) front (entering key w) (using key w) back,
          i.one_start v,
        );
        unstarted = λ v e. ground (
          arith,
          allowed,
          replaced_total (is_starting v) front (entering key w) (using key w) back,
          i.unstarted v,
        );
        listed = λ asked v e. ground (arith, i.listed asked v);
        unused = λ v e. ground (arith, allowed, i.unused v, i.listed key w);
      }

  pub with_new-Inv :
      lookup key p.workers ≡ none
      → Inv (front ++ outside ∷ back) p
      → Inv (front ++ starting key p.next ∷ back) (with_new key p)
  with_new-Inv free i =
      let fresh = fresh_unused p (front ++ outside ∷ back) p.next i.known (omega arith) in
      record {
        known =
            IsKnown-after p (with_new key p) front outside (starting key p.next) back
              (omega arith, λ v n. ground (arith)) (ground (arith)) i.known;
        counts = λ v. ground (
          arith,
          fresh,
          replaced_total (is_using v) front outside (starting key p.next) back,
          i.counts v,
        );
        one_start = λ v. ground (
          arith,
          fresh,
          replaced_total (is_starting v) front outside (starting key p.next) back,
          i.one_start v,
        );
        unstarted = λ v e. ground (
          arith,
          fresh,
          replaced_total (is_starting v) front outside (starting key p.next) back,
          i.unstarted v,
        );
        listed = λ asked v e.
            ground
              (arith, i.listed asked v, lookup-insert key asked p.next p.workers, eq_iff key asked);
        unused = λ v e. ground (arith, i.unused v);
      }

  pub leave-Inv :
      (w : ℕ) (is_invalid : Bool)
      → Inv (front ++ using key w ∷ back) p
      → Inv (front ++ outside ∷ back) (leave key w is_invalid p)
  unfolding leave
  leave-Inv w is_invalid i =
      let k = IsKnown-at p front (using key w) back i.known in
      record {
        known =
            IsKnown-after p (leave key w is_invalid p) front (using key w) outside back
              (omega arith, λ v n. ground (arith)) tt i.known;
        counts = λ v.
            ground
              (arith, replaced_total (is_using v) front (using key w) outside back, i.counts v);
        one_start = λ v.
            ground (
              arith,
              replaced_total (is_starting v) front (using key w) outside back,
              i.one_start v,
            );
        unstarted = λ v e.
            ground (
              arith,
              replaced_total (is_starting v) front (using key w) outside back,
              i.unstarted v,
            );
        listed = λ other v e.
            ground
              (arith, i.listed other v, k, lookup-delete key other p.workers, eq_iff key other);
        unused = λ v e. ground (arith, i.unused v);
      }

pub expire-Inv :
    (callers : List Caller) (key : String) (w generation : ℕ) (p : Pool)
    → Inv callers p
    → Inv callers (expire key w generation p)
unfolding expire
expire-Inv callers key w generation p i =
    elim (Bool-cases
      (is_current p key w && (p.heap w).generation == generation && (p.heap w).active == 0)) [
        | inr kept ↦ rw (expire, kept) i
        | inl over ↦
            rw (expire, over)
              (record {
                known =
                    All-imp callers
                      (λ c. IsKnown-imp p (expired key w p) c (omega arith, λ v n. ground (arith)))
                      i.known;
                counts = λ v. ground (arith, i.counts v);
                one_start = i.one_start;
                unstarted = λ v e. ground (arith, i.unstarted v e);
                listed = λ asked v e. ground (
                  arith,
                  i.listed asked v,
                  i.listed key w,
                  over,
                  lookup-delete key asked p.workers,
                  eq_iff key asked,
                );
                unused = λ v e. ground (arith, over, i.unused v);
              })
      ]

close_all_lem :
    (entries : Map ℕ) (heap : ℕ → Worker) (w : ℕ)
    → ((close_all entries heap w).key ≡ (heap w).key)
      × ((close_all entries heap w).active ≡ (heap w).active)
      × ((close_all entries heap w).session ≡ (heap w).session)
unfolding close_all
close_all_lem [] heap w = (refl, refl, refl)
close_all_lem ((key, v) ∷ entries) heap w =
    ground (arith, close_all_lem entries (write v (closing (heap v)) heap) w)

pub close-Inv : (callers : List Caller) (p : Pool) → Inv callers p → Inv callers (close p)
unfolding close lookup
close-Inv callers p i = record {
  known =
      All-imp callers
        (λ c. IsKnown-imp p (close p) c (omega arith, λ v n. (close_all_lem p.workers p.heap v).0))
        i.known;
  counts = λ v. (close_all_lem p.workers p.heap v).1 ∙ i.counts v;
  one_start = i.one_start;
  unstarted = λ v e.
      let same = close_all_lem p.workers p.heap v in
      (same.2 ∙ (i.unstarted v e).0, same.1 ∙ (i.unstarted v e).1);
  listed = λ key v e. absurd (cc);
  unused = λ v e. inl refl;
}
