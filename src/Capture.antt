-- ===== src/Capture.antt =====
-- The three bounded capture buffers: `cappedBuffer` of internal/supervisor/runtime.go,
-- `limitedBuffer` of internal/runner/limit.go and `cappedThreadSafeBuffer` of
-- internal/mcp/child_buffer.go; and `Runtime.Run`, which fills two of them. Each method holds the
-- buffer's mutex from its first line to its last, so a history of concurrent calls is a list of
-- writes. Bytes are numbers.
pub mod Refine
mod Tests
use agent_stack_manager.Prelude.{
  ℕ, ◌^◌, Bool, true, false, List, [], ◌∷◌, ◌++◌, ◌||◌, Option, none, some, length, take, ltb,
  if◌then◌else◌, ℤ, pos, negsuc, pos_part, ◌-ℤ◌, ltb_ℤ,
}

-- The fields that the three structs share, less the mutex.
pub record Buffer : Type 0 where
  pub bytes : List ℕ
  pub limit : ℤ
  pub truncated : Bool

abbrev pub default_capture_limit : ℤ
default_capture_limit = pos (2 ^ 20)

abbrev pub remaining : Buffer → ℤ
remaining b = b.limit -ℤ pos (length b.bytes)

abbrev pub is_over : List ℕ → ℤ → Bool
is_over p room = ltb_ℤ room (pos (length p))

unfoldable pub new_capped_buffer : ℤ → Buffer
new_capped_buffer limit = record { bytes = []; limit = limit; truncated = false }

-- A `Write` returns the new buffer and the count that it reports. Its error is always nil, as that
-- of `bytes.Buffer.Write` is.
unfoldable pub write_capped : Buffer → List ℕ → Buffer × ℕ
write_capped b p =
    let original = length p in
    if ltb_ℤ (pos 0) (remaining b)
    then (let chunk = if is_over p (remaining b) then take (pos_part (remaining b)) p else p in
        let truncated' = if is_over p (remaining b) then true else b.truncated in
        (record b { bytes = b.bytes ++ chunk; truncated = truncated' }, original))
    else if ltb 0 (length p)
    then (record b { truncated = true }, original)
    else (b, original)

unfoldable pub new_limited_buffer : ℤ → Buffer
new_limited_buffer limit =
    let limit' = if ltb_ℤ (pos 0) limit then limit else default_capture_limit in
    record { bytes = []; limit = limit'; truncated = false }

unfoldable pub write_limited : Buffer → List ℕ → Buffer × ℕ
write_limited b p =
    let original = length p in
    if ltb_ℤ (pos 0) (remaining b)
    then (if is_over p (remaining b)
        then (
          record b { bytes = b.bytes ++ take (pos_part (remaining b)) p; truncated = true },
          original,
        )
        else (record b { bytes = b.bytes ++ p }, original))
    else if ltb 0 (length p)
    then (record b { truncated = true }, original)
    else (b, original)

unfoldable pub new_thread_safe_buffer : ℤ → Buffer
new_thread_safe_buffer limit = record { bytes = []; limit = limit; truncated = false }

unfoldable pub write_thread_safe : Buffer → List ℕ → Buffer × ℕ
write_thread_safe b p =
    let original = length p in
    if ltb_ℤ (pos 0) (remaining b)
    then (if is_over p (remaining b)
        then (
          record b { bytes = b.bytes ++ take (pos_part (remaining b)) p; truncated = true },
          original,
        )
        else (record b { bytes = b.bytes ++ p }, original))
    else if ltb 0 (length p)
    then (record b { truncated = true }, original)
    else (b, original)

-- A history of writes by any of the three.
unfoldable pub write_all : (Buffer → List ℕ → Buffer × ℕ) → Buffer → List (List ℕ) → Buffer
write_all write b [] = b
write_all write b (p ∷ ps) = write_all write (write b p).0 ps

-- How `Start` and `Wait` end: without an error, with an exit status, or with another error.
pub data Outcome : Type 0 where
  clean : Outcome
  exit_error : ℤ → Outcome
  other_error : Outcome

pub record RunResult : Type 0 where
  pub stdout : List ℕ
  pub stderr : List ℕ
  pub exit_code : ℤ
  pub outcome : Outcome
  pub truncated : Bool

abbrev exit_code_of : Outcome → ℤ
exit_code_of clean = pos 0
exit_code_of (exit_error code) = code
exit_code_of other_error = negsuc 0

-- `Runtime.Run`, given what the child wrote to its two pipes and how it ended.
unfoldable pub run : ℤ → List (List ℕ) → List (List ℕ) → Outcome → RunResult
unfolding new_capped_buffer write_capped write_all
run max_output_bytes out err outcome =
    let limit =
      if ltb_ℤ (pos 0) max_output_bytes then max_output_bytes else default_capture_limit in
    let stdout = write_all write_capped (new_capped_buffer limit) out in
    let stderr = write_all write_capped (new_capped_buffer limit) err in
    record {
      stdout = stdout.bytes;
      stderr = stderr.bytes;
      exit_code = exit_code_of outcome;
      outcome = outcome;
      truncated = stdout.truncated || stderr.truncated;
    }
