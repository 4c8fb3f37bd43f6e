-- ===== src/ChildPool/Tests.antt =====
-- Two callers of one pool.
use agent_stack_manager.Prelude.{◌≡◌, refl, ◌⊎◌, true, false, some, [], ◌∷◌}
use agent_stack_manager.Prelude.Maps.{lookup, insert}
use agent_stack_manager.ChildPool.Sections.{Pool, begin, finish_start, enter, leave, expire}
use agent_stack_manager.ChildPool.Steps.{
  outside, using, System, begins, starts, enters, leaves, expires, Reach, start, later, empty_pool,
}
use agent_stack_manager.ChildPool.Invariant.{Inv, total, is_using}
use agent_stack_manager.ChildPool.Safety.{Reach-Inv, closed_unused}

abbrev started_pool : Pool
started_pool = (finish_start "git" 0 (some 7) false (begin "git" empty_pool).1).1

abbrev used_pool : Pool
used_pool = (enter "git" 0 started_pool).1

abbrev idle_pool : Pool
idle_pool = leave "git" 0 false used_pool

abbrev expired_pool : Pool
expired_pool = expire "git" 0 1 idle_pool

abbrev in_use : System
in_use = record { callers = using "git" 0 ∷ outside ∷ []; pool = used_pool }

abbrev timed_out : System
timed_out = record { callers = outside ∷ outside ∷ []; pool = expired_pool }

reach_in_use : Reach in_use
unfolding begin finish_start enter lookup insert
reach_in_use =
    later
      (later (later (start 2) (begins [] (outside ∷ []) "git" empty_pool))
        (starts [] (outside ∷ []) "git" 0 (some 7) false (begin "git" empty_pool).1))
      (enters [] (outside ∷ []) "git" 0 started_pool)

reach_timed_out : Reach timed_out
reach_timed_out =
    later (later reach_in_use (leaves [] (outside ∷ []) "git" 0 false used_pool))
      (expires (outside ∷ outside ∷ []) "git" 0 1 idle_pool)

is_closed_now : (expired_pool.heap 0).is_closed ≡ true
unfolding begin finish_start enter leave expire lookup insert
is_closed_now = refl

Reach-Inv_example : Inv in_use.callers in_use.pool
Reach-Inv_example = Reach-Inv reach_in_use

closed_unused_example : (expired_pool.closed ≡ true) ⊎ (total (is_using 0) timed_out.callers ≡ 0)
closed_unused_example = closed_unused 0 reach_timed_out is_closed_now
