-- ===== src/ChildPool/Safety.antt =====
-- What holds of every pool that callers share.
use Prim.Native.String.{String}
use agent_stack_manager.Prelude.{
  ℕ, ◌≡◌, refl, sym, ◌∙◌, ◌⊎◌, inl, inr, Bool, true, false, Bool-cases, Option, none, some, List,
  ◌∷◌, ◌++◌, if◌then◌else◌, arith,
}
use agent_stack_manager.Prelude.Maps.{lookup}
use agent_stack_manager.ChildPool.Sections.{
  begin_with, is_waiting, Pool, begin, finish_start, is_barred, enter,
}
use agent_stack_manager.ChildPool.Invariant.{total, is_using, Inv, IsKnown-at, empty_pool-Inv}
use agent_stack_manager.ChildPool.Kept.{
  IsIdle, idle-Inv, finish_start-Inv, with_entered-Inv, with_new-Inv, leave-Inv, expire-Inv,
  close-Inv,
}
use agent_stack_manager.ChildPool.Steps.{
  after_begin, System, Step, begins, starts, waits, gives_up, enters, leaves, expires, closes,
  Reach, start, later, Caller, outside, starting, waiting, entering, using,
}

outside-IsIdle : IsIdle outside
outside-IsIdle w = (refl, refl)

module _ (front back : List Caller) (key : String) (p : Pool) where
  begin_with-Inv :
      (is_closed : Bool) (found : Option ℕ)
      → lookup key p.workers ≡ found
      → Inv (front ++ outside ∷ back) p
      → Inv
          (front ++ after_begin key (begin_with is_closed found key p).0 ∷ back)
          (begin_with is_closed found key p).1
  begin_with-Inv true found e i = i
  begin_with-Inv false none e i = with_new-Inv front back key p e i
  begin_with-Inv false (some w) e i =
      let known = i.listed key w e in
      elim (Bool-cases (is_waiting (p.heap w).ready)) [
        | inl is_pending ↦ rw is_pending (
            idle-Inv front back key p outside (waiting key w) outside-IsIdle (λ v. (refl, refl))
              (known.0, known.1) i)
        | inr is_ready ↦ rw is_ready (
            idle-Inv front back key p outside (entering key w) outside-IsIdle (λ v. (refl, refl))
              (known.0, known.1) i)
      ]

  enter-Inv :
      (w : ℕ)
      → Inv (front ++ entering key w ∷ back) p
      → Inv (front ++ (if (enter key w p).0 then using key w else outside) ∷ back) (enter key w p).1
  unfolding enter
  enter-Inv w i = elim (Bool-cases (is_barred key w p)) [
    | inr allowed ↦ rw (enter, allowed) (with_entered-Inv front back key p w allowed i)
    | inl barred ↦
        rw (enter, barred)
          (idle-Inv front back key p (entering key w) outside (λ v. (refl, refl)) outside-IsIdle tt
            i)
  ]

  start-Inv :
      (w : ℕ) (session : Option ℕ) (has_failed : Bool)
      → Inv (front ++ starting key w ∷ back) p
      → Inv
          (front
            ++ (if (finish_start key w session has_failed p).0 then entering key w else outside)
              ∷ back)
          (finish_start key w session has_failed p).1
  start-Inv w session has_failed i = elim (Bool-cases (finish_start key w session has_failed p).0) [
    | inl ready ↦ rw ready (
        finish_start-Inv front back key p w session has_failed (entering key w) (λ v. (refl, refl))
          (let k = IsKnown-at p front (starting key w) back i.known in
            unfold finish_start in ground (arith, k))
          i)
    | inr failed ↦
        rw failed
          (finish_start-Inv front back key p w session has_failed outside outside-IsIdle tt i)
  ]

  wait-Inv :
      (w : ℕ)
      → Inv (front ++ waiting key w ∷ back) p
      → Inv (front ++ (if (p.heap w).start_failed then outside else entering key w) ∷ back) p
  wait-Inv w i = elim (Bool-cases (p.heap w).start_failed) [
    | inl failed ↦
        rw failed (
          idle-Inv front back key p (waiting key w) outside (λ v. (refl, refl)) outside-IsIdle tt i)
    | inr ready ↦ rw ready (
        idle-Inv front back key p (waiting key w) (entering key w) (λ v. (refl, refl))
          (λ v. (refl, refl)) (IsKnown-at p front (waiting key w) back i.known) i)
  ]

Step-Inv : {s t : System} → Step s t → Inv s.callers s.pool → Inv t.callers t.pool
Step-Inv (begins front back key p) i =
    unfold begin in begin_with-Inv front back key p p.closed (lookup key p.workers) refl i
Step-Inv (starts front back key w session has_failed p) i =
    start-Inv front back key p w session has_failed i
Step-Inv (waits front back key w p shut_channel) i = wait-Inv front back key p w i
Step-Inv (gives_up front back key w p) i =
    idle-Inv front back key p (waiting key w) outside (λ v. (refl, refl)) outside-IsIdle tt i
Step-Inv (enters front back key w p) i = enter-Inv front back key p w i
Step-Inv (leaves front back key w is_invalid p) i = leave-Inv front back key p w is_invalid i
Step-Inv (expires callers key w generation p) i = expire-Inv callers key w generation p i
Step-Inv (closes callers p) i = close-Inv callers p i

-- In every pool that callers share: a worker's count of active callers is the number of those that
-- have entered and not left it, at most one caller starts its process, and none uses it before; and
-- the map has only workers of its own keys that are not closed.
pub Reach-Inv : {s : System} → Reach s → Inv s.callers s.pool
Reach-Inv (start n) = empty_pool-Inv n
Reach-Inv (later r step) = Step-Inv step (Reach-Inv r)

-- A worker whose session was closed, or is about to be, is used by no caller, unless the whole pool
-- was closed: neither a timer nor a failed call of another caller closes a session that is in use.
pub closed_unused :
    {s : System} (w : ℕ)
    → Reach s
    → (s.pool.heap w).is_closed ≡ true
    → (s.pool.closed ≡ true) ⊎ (total (is_using w) s.callers ≡ 0)
closed_unused w r e =
    let i = Reach-Inv r in
    elim (i.unused w e) [ inl shut_down ↦ inl shut_down | inr idle ↦ inr (sym (i.counts w) ∙ idle) ]
