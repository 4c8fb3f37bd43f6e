-- ===== src/ChildPool/Sections.antt =====
-- internal/mcp/child_pool.go: what each operation does to the pool while it holds the mutex. A worker
-- is known by a number, its place in the heap. What a section decides to close, after it has let go of
-- the mutex, is marked as closed there and then. A timer is no state: any may fire at any time.
use Prim.Native.String.{String}
use Prim.Native.Nat.{◌%◌}
use agent_stack_manager.Prelude.{
  ◌^◌, ℕ, suc, ◌-◌, Bool, true, false, ◌&&◌, ◌||◌, not, Option, none, some, [], ◌∷◌, ◌==◌,
  if◌then◌else◌,
}
use agent_stack_manager.Prelude.Maps.{Map, lookup, insert, delete}

-- The channel `ready`: gone, open, or shut by the caller that has started the process.
pub data Ready : Type 0 where
  no_channel pending shut : Ready

abbrev pub is_pending : Ready → Bool
is_pending pending = true
is_pending _ = false

-- `key` is the key that the worker was made for, which the program passes along.
pub record Worker : Type 0 where
  pub key : String
  pub session : Option ℕ
  pub ready : Ready
  pub start_failed : Bool
  pub generation : ℕ
  pub active : ℕ
  pub is_closed : Bool

pub record Pool : Type 0 where
  pub workers : Map ℕ
  pub heap : ℕ → Worker
  pub next : ℕ
  pub closed : Bool

abbrev pub new_worker : String → Worker
new_worker key = record {
  key = key;
  session = none;
  ready = pending;
  start_failed = false;
  generation = 0;
  active = 0;
  is_closed = false;
}

abbrev pub write : ℕ → Worker → (ℕ → Worker) → ℕ → Worker
write w worker heap v = if v == w then worker else heap v

abbrev pub set_worker : ℕ → Worker → Pool → Pool
set_worker w worker p = record p { heap = write w worker p.heap }

abbrev pub closing : Worker → Worker
closing worker = record worker { is_closed = true }

abbrev pub is_current : Pool → String → ℕ → Bool
is_current p key w = elim (lookup key p.workers) [ none ↦ false | some v ↦ v == w ]

abbrev pub drop_key : Bool → String → Pool → Pool
drop_key test key p = record p { workers = if test then delete key p.workers else p.workers }

-- What the first section of `acquireWorker` comes to.
pub data Begun : Type 0 where
  refused : Begun
  to_start to_wait to_enter : ℕ → Begun

abbrev pub is_waiting : Ready → Bool
is_waiting no_channel = false
is_waiting _ = true

abbrev pub with_new : String → Pool → Pool
with_new key p = record p {
  workers = insert key p.next p.workers;
  heap = write p.next (new_worker key) p.heap;
  next = suc p.next;
}

abbrev pub begin_with : Bool → Option ℕ → String → Pool → Begun × Pool
begin_with true found key p = (refused, p)
begin_with false none key p = (to_start p.next, with_new key p)
begin_with false (some w) key p = (if is_waiting (p.heap w).ready then to_wait w else to_enter w, p)

unfoldable pub begin : String → Pool → Begun × Pool
begin key p = begin_with p.closed (lookup key p.workers) key p

abbrev pub started_worker : Option ℕ → Bool → Bool → Worker → Worker
started_worker session is_failed is_unwanted worker = record worker {
  session = session;
  ready = shut;
  start_failed = is_failed;
  is_closed = worker.is_closed || is_unwanted;
}

-- The section after `start`, and whether the caller goes on to enter. The first flag says that the
-- start has failed.
unfoldable pub finish_start : String → ℕ → Option ℕ → Bool → Pool → Bool × Pool
finish_start key w session has_failed p =
    let is_failed = p.closed || has_failed in
    let current = is_current p key w in
    let is_unwanted = not current || p.closed in
    (
      not is_unwanted && not is_failed,
      drop_key (is_failed && current) key
          (set_worker w (started_worker session is_failed is_unwanted (p.heap w)) p),
    )

abbrev pub has_session : Option ℕ → Bool
has_session none = false
has_session (some session) = true

abbrev pub with_entered : ℕ → Pool → Pool
with_entered w p =
    set_worker w
      (record (p.heap w) {
        ready = no_channel;
        generation = (suc (p.heap w).generation) % 2 ^ 64;
        active = suc (p.heap w).active;
      })
      p

abbrev pub is_barred : String → ℕ → Pool → Bool
is_barred key w p = p.closed || (not (is_current p key w) || not (has_session (p.heap w).session))

-- The last section of `acquireWorker`.
unfoldable pub enter : String → ℕ → Pool → Bool × Pool
enter key w p = if is_barred key w p then (false, p) else (true, with_entered w p)

-- The section of `withSession`, once the operation has returned. The flag says that its error makes
-- the session invalid.
unfoldable pub leave : String → ℕ → Bool → Pool → Pool
leave key w is_invalid p =
    let left = (p.heap w).active - 1 in
    let current = is_current p key w in
    let is_over = (is_invalid || not current) && left == 0 in
    drop_key (is_invalid && current) key (
      set_worker w
        (record (p.heap w) { active = left; is_closed = (p.heap w).is_closed || is_over }) p)

abbrev pub expired : String → ℕ → Pool → Pool
expired key w p = drop_key true key (set_worker w (closing (p.heap w)) p)

unfoldable pub expire : String → ℕ → ℕ → Pool → Pool
expire key w generation p =
    if is_current p key w && (p.heap w).generation == generation && (p.heap w).active == 0
    then expired key w p
    else p

-- `Close` closes all workers of the map.
unfoldable pub close_all : Map ℕ → (ℕ → Worker) → ℕ → Worker
close_all [] heap = heap
close_all ((key, w) ∷ entries) heap = close_all entries (write w (closing (heap w)) heap)

unfoldable pub close : Pool → Pool
unfolding close_all
close p = record p { workers = []; heap = close_all p.workers p.heap; closed = true }
