-- ===== src/ChildPool/Steps.antt =====
-- internal/mcp/child_pool.go: callers that share the pool, and what any of them may do next.
use Prim.Native.String.{String}
use agent_stack_manager.Prelude.{
  ℕ, zero, suc, Bool, false, Option, List, [], ◌∷◌, ◌++◌, ◌≡◌, if◌then◌else◌,
}
use agent_stack_manager.ChildPool.Sections.{
  Pool, is_pending, Begun, refused, to_start, to_wait, to_enter, new_worker, begin, finish_start,
  enter, leave, expire, close,
}

-- Where a caller is: outside the pool, starting a worker's process, waiting for another caller that
-- does, about to enter, or between entering and leaving.
pub data Caller : Type 0 where
  outside : Caller
  starting waiting entering using : String → ℕ → Caller

abbrev pub after_begin : String → Begun → Caller
after_begin key refused = outside
after_begin key (to_start w) = starting key w
after_begin key (to_wait w) = waiting key w
after_begin key (to_enter w) = entering key w

pub record System : Type 0 where
  pub callers : List Caller
  pub pool : Pool

abbrev pub system : List Caller → Caller → List Caller → Pool → System
system front caller back p = record { callers = front ++ caller ∷ back; pool = p }

-- One caller goes through one section; or a timer fires, or the pool is closed.
pub data Step : System → System → Type 0 where
  begins :
      (front back : List Caller) (key : String) (p : Pool)
      → Step
          (system front outside back p)
          (system front (after_begin key (begin key p).0) back (begin key p).1)
  starts :
      (front back : List Caller) (key : String) (w : ℕ) (session : Option ℕ) (has_failed : Bool)
      (p : Pool)
      → Step (system front (starting key w) back p) (
          system front
            (if (finish_start key w session has_failed p).0 then entering key w else outside)
            back
            (finish_start key w session has_failed p).1)
  waits :
      (front back : List Caller) (key : String) (w : ℕ) (p : Pool)
      → is_pending (p.heap w).ready ≡ false
      → Step
          (system front (waiting key w) back p)
          (system front (if (p.heap w).start_failed then outside else entering key w) back p)
  gives_up :
      (front back : List Caller) (key : String) (w : ℕ) (p : Pool)
      → Step (system front (waiting key w) back p) (system front outside back p)
  enters :
      (front back : List Caller) (key : String) (w : ℕ) (p : Pool)
      → Step
          (system front (entering key w) back p)
          (system front (if (enter key w p).0 then using key w else outside) back (enter key w p).1)
  leaves :
      (front back : List Caller) (key : String) (w : ℕ) (is_invalid : Bool) (p : Pool)
      → Step
          (system front (using key w) back p)
          (system front outside back (leave key w is_invalid p))
  expires :
      (callers : List Caller) (key : String) (w generation : ℕ) (p : Pool)
      → Step
          (record { callers = callers; pool = p })
          (record { callers = callers; pool = expire key w generation p })
  closes :
      (callers : List Caller) (p : Pool)
      → Step (record { callers = callers; pool = p }) (record { callers = callers; pool = close p })

abbrev pub empty_pool : Pool
empty_pool = record { workers = []; heap = λ w. new_worker ""; next = 0; closed = false }

abbrev pub outsiders : ℕ → List Caller
outsiders zero = []
outsiders (suc n) = outside ∷ outsiders n

-- What a new pool may come to.
pub data Reach : System → Type 0 where
  start : (n : ℕ) → Reach (record { callers = outsiders n; pool = empty_pool })
  later : {s t : System} → Reach s → Step s t → Reach t
