-- ===== src/ProcessControl.antt =====
-- internal/processctl/limits.go: the limits of a process tree.
use agent_stack_manager.Prelude.{ℕ, Bool, ◌&&◌, Result, ◌>>◌, ensure, not, leb, ltb, ◌==◌}
use agent_stack_manager.Model.{ProcessLimits}

abbrev pub minimum_memory_limit : ℕ
minimum_memory_limit = 67108864

abbrev pub maximum_processes : ℕ
maximum_processes = 1024

pub data LimitsError : Type 0 where
  memory_too_small cpu_too_large too_many_processes : LimitsError

unfoldable pub is_disabled : ProcessLimits → Bool
is_disabled l = l.memory_bytes == 0 && (l.cpu_percent == 0 && l.active_processes == 0)

unfoldable pub validate_limits : ProcessLimits → Result LimitsError (Unit {0})
validate_limits l = do
  ensure (not (ltb 0 l.memory_bytes && ltb l.memory_bytes minimum_memory_limit)) memory_too_small
  ensure (leb l.cpu_percent 100) cpu_too_large
  ensure (leb l.active_processes maximum_processes) too_many_processes
