-- ===== src/PathEnv/Laws.antt =====
-- internal/pathenv/path.go: what follows from appending a segment to a search path.
use agent_stack_manager.Prelude.{
  ℕ, ◌≡◌, refl, inl, inr, Bool, true, false, Bool-cases, ◌||◌, List, [], ◌∷◌, ◌++◌, ◌==◌, arith,
}
use agent_stack_manager.Prelude.Text.{Text, is_empty, any, trim_space, text_eq, cons_head, split}
use agent_stack_manager.Prelude.TextLaws.{Lacks, split-Lacks}
use agent_stack_manager.PathEnv.Segments.{
  Cleaning, normalize_windows, ends_with, has_segment, append_trimmed, append_windows,
}

pub text_eq_self : (s : Text) → text_eq s s ≡ true
unfolding text_eq
text_eq_self [] = refl
text_eq_self (c ∷ s) = ground (arith, text_eq_self s)

-- Is there one behind the first?
abbrev any_later : (Text → Bool) → List Text → Bool
any_later p [] = false
any_later p (w ∷ ws) = any p ws

any_later-any : (p : Text → Bool) (ws : List Text) → any_later p ws ≡ true → any p ws ≡ true
any_later-any p [] h = absurd (cc)
any_later-any p (w ∷ ws) h = ground (arith, h)

any_later-cons_head :
    (p : Text → Bool) (c : ℕ) (ws : List Text) → any_later p (cons_head c ws) ≡ any_later p ws
any_later-cons_head p c [] = refl
any_later-cons_head p c (w ∷ ws) = refl

module _ (p : Text → Bool) (c : ℕ) (t : Text) (lacks : Lacks c t) (holds : p t ≡ true) where
  -- One more character in front.
  later-split :
      (d : ℕ) (s : Text) → any_later p (split c s) ≡ true → any_later p (split c (d ∷ s)) ≡ true
  unfolding split
  later-split d s h = elim (Bool-cases (d == c)) [
    | inl same ↦ rw (split, same) (any_later-any p (split c s) h)
    | inr other ↦ rw (split, other, any_later-cons_head p d (split c s)) h
  ]

  at_separator : any_later p (split c (c ∷ t)) ≡ true
  unfolding split
  at_separator = ground (arith, split-Lacks c t lacks, holds)

  after_separator : (s : Text) → any_later p (split c (s ++ c ∷ t)) ≡ true
  after_separator [] = at_separator
  after_separator (d ∷ s) = later-split d (s ++ c ∷ t) (after_separator s)

  after_end : (s : Text) → ends_with c s ≡ true → any_later p (split c (s ++ t)) ≡ true
  unfolding ends_with
  after_end [] h = absurd (cc)
  after_end (d ∷ []) h = unfold split in ground (arith, h, split-Lacks c t lacks, holds)
  after_end (d ∷ e ∷ s) h = later-split d (e ∷ s ++ t) (after_end (e ∷ s) h)

module _ (k : Cleaning) (t : Text) (lacks : Lacks b';' t) where
  abbrev Found : Text → Type 0
  Found path = has_segment k (normalize_windows k t) path ≡ true

  own_key : text_eq (normalize_windows k t) (normalize_windows k t) ≡ true
  own_key = text_eq_self (normalize_windows k t)

  append_trimmed-Found :
      (current : Text) → is_empty t ≡ false → Found (append_trimmed k current t).0
  unfolding append_trimmed
  append_trimmed-Found current some_target =
      let key = normalize_windows k t in
      let p : Text → Bool = (λ raw. text_eq (normalize_windows k raw) key) in
      elim (Bool-cases (has_segment k key current)) [
        | inl present ↦ rw (append_trimmed, some_target, present) present
        | inr absent ↦ elim (Bool-cases (is_empty (trim_space current))) [
          | inl blank ↦
              rw (append_trimmed, some_target, absent, blank)
                (ground (arith, split-Lacks b';' t lacks, own_key))
          | inr filled ↦ elim (Bool-cases (ends_with b';' current)) [
            | inl ended ↦
                rw (append_trimmed, some_target, absent, filled, ended)
                  (any_later-any p (split b';' (current ++ t))
                    (after_end p b';' t lacks own_key current ended))
            | inr unended ↦
                rw (append_trimmed, some_target, absent, filled, unended)
                  (any_later-any p (split b';' (current ++ b';' ∷ t))
                    (after_separator p b';' t lacks own_key current))
          ]
        ]
      ]

  append_trimmed-present :
      (current : Text)
      → (is_empty t || has_segment k (normalize_windows k t) current) ≡ true
      → append_trimmed k current t ≡ (current, false)
  unfolding append_trimmed
  append_trimmed-present current h = rw (append_trimmed, h) refl

  or_right : (a b : Bool) → b ≡ true → (a || b) ≡ true
  or_right true b h = refl
  or_right false b h = h

  append_trimmed_twice :
      (current : Text)
      → append_trimmed k (append_trimmed k current t).0 t ≡ ((append_trimmed k current t).0, false)
  append_trimmed_twice current =
      let path = (append_trimmed k current t).0 in
      append_trimmed-present path (elim (Bool-cases (is_empty t)) [
        | inl nothing ↦ rw nothing refl
        | inr some_target ↦
            or_right (is_empty t) (has_segment k (normalize_windows k t) path)
              (append_trimmed-Found current some_target)
      ])

-- Appending the same segment to a search path a second time changes nothing, if the segment, once
-- trimmed, has no semicolon.
pub append_windows_twice :
    (k : Cleaning) (current target : Text)
    → Lacks b';' (trim_space target)
    → append_windows k (append_windows k current target).0 target
      ≡ ((append_windows k current target).0, false)
unfolding append_windows
append_windows_twice k current target lacks =
    append_trimmed_twice k (trim_space target) lacks current
