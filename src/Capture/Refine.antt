-- ===== src/Capture/Refine.antt =====
-- The buffers against one description: a prefix of all that was written, and a flag that tells
-- whether anything was cut.
use mathlib.Core.Path.{fun_ext}
use mathlib.Core.List.{flatten, append_assoc, append-nil}
use agent_stack_manager.Prelude.{
  ℕ, ◌-◌, ◌≡◌, refl, sym, ap, List, [], ◌∷◌, ◌++◌, ◌||◌, arith, length, take, ltb, if◌then◌else◌, ℤ,
  pos, negsuc, pos_part, ltb_ℤ, length-append, length-take, take-nil, Bool-cases, inl, inr,
  take-eq_self, take-append, take-append_short,
}
use agent_stack_manager.Capture.{
  Buffer, Outcome, clean, exit_error, other_error, new_capped_buffer, new_limited_buffer,
  new_thread_safe_buffer, write_capped, write_limited, write_thread_safe, write_all, run,
  default_capture_limit,
}

-- What a buffer of room `n` holds after the bytes `all` were written, however they were split.
abbrev pub Holds : ℕ → List ℕ → Buffer → Type 0
Holds n all b = (b.bytes ≡ take n all) × (b.truncated ≡ ltb n (length all)) × (pos_part b.limit ≡ n)

-- The facts on prefixes that a write of `p` after `all` turns on.
module _ (n : ℕ) (all p : List ℕ) (b : Buffer) (h : Holds n all b) where
  write_capped-Holds : Holds n (all ++ p) (write_capped b p).0
  unfolding write_capped
  write_capped-Holds = ground (
    arith,
    ap (λ (t : List ℕ). length t) h.0,
    length-take n all,
    length-append all p,
    take-append n all p,
    take-append_short n all p,
    take-eq_self n all,
    take-eq_self (n - length all) p,
    append-nil b.bytes,
  )

-- The runner's and the MCP client's buffers are the supervisor's, in every state.
pub write_limited-eq-write_capped : (b : Buffer) (p : List ℕ) → write_limited b p ≡ write_capped b p
unfolding write_limited write_capped
write_limited-eq-write_capped b p = ground arith

pub write_thread_safe-eq-write_capped :
    (b : Buffer) (p : List ℕ) → write_thread_safe b p ≡ write_capped b p
unfolding write_thread_safe write_capped
write_thread_safe-eq-write_capped b p = ground arith

-- `Write` reports that it took all of its argument, as `io.Writer` asks of a write with no error.
pub write_capped_count : (b : Buffer) (p : List ℕ) → (write_capped b p).1 ≡ length p
unfolding write_capped
write_capped_count b p = ground arith

write_all-Holds :
    (n : ℕ) (all : List ℕ) (ps : List (List ℕ)) (b : Buffer)
    → Holds n all b
    → Holds n (all ++ flatten ps) (write_all write_capped b ps)
unfolding write_all flatten
write_all-Holds n all [] b h = rw append-nil h
write_all-Holds n all (p ∷ ps) b h =
    rw (← append_assoc)
      (write_all-Holds n (all ++ p) ps (write_capped b p).0 (write_capped-Holds n all p b h))

write_all-new_capped :
    (limit : ℤ) (ps : List (List ℕ))
    → Holds (pos_part limit) (flatten ps) (write_all write_capped (new_capped_buffer limit) ps)
unfolding new_capped_buffer
write_all-new_capped limit ps =
    write_all-Holds (pos_part limit) [] ps (new_capped_buffer limit)
      (sym (take-nil (pos_part limit)), ground arith, refl)

module _ (ps : List (List ℕ)) where
  write_all-limited : (b : Buffer) → write_all write_limited b ps ≡ write_all write_capped b ps
  write_all-limited b = rw (fun_ext (λ (c : Buffer). fun_ext (write_limited-eq-write_capped c)))

  write_all-thread_safe :
      (b : Buffer) → write_all write_thread_safe b ps ≡ write_all write_capped b ps
  write_all-thread_safe b =
      rw (fun_ext (λ (c : Buffer). fun_ext (write_thread_safe-eq-write_capped c)))

-- The default stands in for a limit that is not positive.
abbrev pub effective_limit : ℤ → ℕ
effective_limit limit = if ltb_ℤ (pos 0) limit then pos_part limit else 1048576

-- After any history of writes, a new buffer of each kind holds the first bytes of all that was
-- written, up to its limit, and its flag is set exactly when more than that was written. A limit
-- below 0 acts as 0 in the supervisor's and the MCP client's buffers, and one that is not positive
-- as 1 MiB in the runner's.
pub write_all_prefix :
    (limit : ℤ) (ps : List (List ℕ))
    → Holds (pos_part limit) (flatten ps) (write_all write_capped (new_capped_buffer limit) ps)
      × Holds
          (pos_part limit)
          (flatten ps)
          (write_all write_thread_safe (new_thread_safe_buffer limit) ps)
      × Holds
          (effective_limit limit)
          (flatten ps)
          (write_all write_limited (new_limited_buffer limit) ps)
unfolding new_capped_buffer new_limited_buffer new_thread_safe_buffer
write_all_prefix limit ps = (
  write_all-new_capped limit ps,
  rw (write_all-thread_safe ps) (write_all-new_capped limit ps),
  rw (write_all-limited ps) (elim (Bool-cases (ltb_ℤ (pos 0) limit)) [
    | inl big ↦ rw big (write_all-new_capped limit ps)
    | inr small ↦ rw small (write_all-new_capped default_capture_limit ps)
  ]),
)

run_buffer-Holds :
    (m : ℤ) (ps : List (List ℕ))
    → let limit = if ltb_ℤ (pos 0) m then m else default_capture_limit in
      Holds (effective_limit m) (flatten ps) (write_all write_capped (new_capped_buffer limit) ps)
run_buffer-Holds m ps = elim (Bool-cases (ltb_ℤ (pos 0) m)) [
  | inl big ↦ rw big (write_all-new_capped m ps)
  | inr small ↦ rw small (write_all-new_capped default_capture_limit ps)
]

-- `Runtime.Run` returns the first bytes of each stream, up to the limit it was given or 1 MiB, says
-- so when it cut either of them, and gives the exit code: the child's own for an exit error, -1 for
-- any other error, 0 for none.
pub run_lem :
    (max_output_bytes : ℤ) (out err : List (List ℕ)) (outcome : Outcome)
    → let n = effective_limit max_output_bytes in
      let r = run max_output_bytes out err outcome in
      (r.stdout ≡ take n (flatten out))
      × (r.stderr ≡ take n (flatten err))
      × (r.truncated ≡ (ltb n (length (flatten out)) || ltb n (length (flatten err))))
      × ((outcome ≡ clean) → r.exit_code ≡ pos 0)
      × ((outcome ≡ other_error) → r.exit_code ≡ negsuc 0)
      × ((code : ℤ) → outcome ≡ exit_error code → r.exit_code ≡ code)
unfolding run
run_lem max_output_bytes out err outcome =
    let o = run_buffer-Holds max_output_bytes out in
    let e = run_buffer-Holds max_output_bytes err in
    (o.0, e.0, cc (o.1, e.1), λ h. cc, λ h. cc, λ code h. cc)
