-- ===== src/Capture/Tests.antt =====
-- The capture buffers at concrete inputs.
use mathlib.Core.List.{flatten}
use agent_stack_manager.Prelude.{◌≡◌, refl, List, [], ◌∷◌, ℕ, ℤ, pos, negsuc, false}
use agent_stack_manager.Capture.{
  exit_error, clean, other_error, new_capped_buffer, new_limited_buffer, new_thread_safe_buffer,
  write_capped, write_limited, write_thread_safe, write_all, run,
}
use agent_stack_manager.Capture.Refine.{Holds, write_all_prefix, run_lem}

abbrev chunks : List (List ℕ)
chunks = (1 ∷ 2 ∷ []) ∷ (3 ∷ 4 ∷ []) ∷ (5 ∷ []) ∷ []

write_all_cut : (write_all write_capped (new_capped_buffer (pos 3)) chunks).bytes ≡ 1 ∷ 2 ∷ 3 ∷ []
unfolding write_all write_capped new_capped_buffer
write_all_cut = refl

write_all_prefix_example :
    Holds 3 (1 ∷ 2 ∷ 3 ∷ 4 ∷ 5 ∷ []) (write_all write_capped (new_capped_buffer (pos 3)) chunks)
    × Holds 3
        (1 ∷ 2 ∷ 3 ∷ 4 ∷ 5 ∷ [])
        (write_all write_thread_safe (new_thread_safe_buffer (pos 3)) chunks)
    × Holds 3 (1 ∷ 2 ∷ 3 ∷ 4 ∷ 5 ∷ []) (write_all write_limited (new_limited_buffer (pos 3)) chunks)
unfolding flatten
write_all_prefix_example = write_all_prefix (pos 3) chunks

run_lem_example :
    let r = run (negsuc 0) chunks [] (exit_error (pos 2)) in
    (r.stdout ≡ 1 ∷ 2 ∷ 3 ∷ 4 ∷ 5 ∷ [])
    × (r.stderr ≡ [])
    × (r.truncated ≡ false)
    × ((exit_error (pos 2) ≡ clean) → r.exit_code ≡ pos 0)
    × ((exit_error (pos 2) ≡ other_error) → r.exit_code ≡ negsuc 0)
    × ((code : ℤ) → exit_error (pos 2) ≡ exit_error code → r.exit_code ≡ code)
unfolding flatten
run_lem_example = run_lem (negsuc 0) chunks [] (exit_error (pos 2))
