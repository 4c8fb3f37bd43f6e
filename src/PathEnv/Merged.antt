-- ===== src/PathEnv/Merged.antt =====
-- internal/pathenv/path.go: the segments of a merged search path.
use agent_stack_manager.Prelude.{
  ◌≡◌, refl, sym, subst, inl, inr, Bool, true, false, Bool-cases, ◌||◌, List, [], ◌∷◌, map, arith,
  All, All-imp,
}
use agent_stack_manager.Prelude.Text.{Text, is_empty, any, trim_space, text_eq}
use agent_stack_manager.PathEnv.Segments.{Cleaning, normalize_windows, merge_segments, segments_of}
use agent_stack_manager.PathEnv.Laws.{text_eq_self}

or_last : (a b c : Bool) → (a || (b || c)) ≡ false → c ≡ false
or_last a b c h = ground (arith, h)

shuffle :
    (a b c d e : Bool) → (a || (b || (c || (d || e)))) ≡ true → (a || (b || ((d || c) || e))) ≡ true
shuffle a b c d e h = ground (arith, h)

widen : (a b c d : Bool) → (a || (b || d)) ≡ true → (a || (b || (c || d))) ≡ true
widen a b c d h = ground (arith, h)

own : (a b c d e : Bool) → c ≡ true → (a || (b || ((c || d) || e))) ≡ true
own a b c d e h = ground (arith, h)

drop_last : (a b c : Bool) → (a || (b || (c || false))) ≡ true → (a || (b || c)) ≡ true
drop_last a b c h = ground (arith, h)

module _ (k : Cleaning) where
  abbrev key_of : Text → Text
  key_of raw = normalize_windows k (trim_space raw)

  abbrev is_key_in : Text → List Text → Bool
  is_key_in key keys = any (text_eq key) keys

  -- No segment has the key of one before it, or one of those given.
  abbrev pub Separate : List Text → List Text → Type 0
  Separate seen [] = Unit
  Separate seen (segment ∷ segments) =
      (any (text_eq (normalize_windows k segment)) seen ≡ false)
      × Separate (normalize_windows k segment ∷ seen) segments

  abbrev is_blank : Text → Bool
  is_blank raw = is_empty (trim_space raw) || is_empty (key_of raw)

  -- A segment is blank, or has the key of one of these.
  abbrev pub IsIn : List Text → Text → Type 0
  IsIn segments raw =
      (is_empty (trim_space raw)
        || (is_empty (normalize_windows k (trim_space raw))
            || any (text_eq (normalize_windows k (trim_space raw)))
                (map (normalize_windows k) segments)))
      ≡ true

  abbrev IsSeenOrIn : List Text → List Text → Text → Type 0
  IsSeenOrIn seen segments raw =
      (is_empty (trim_space raw)
        || (is_empty (key_of raw)
            || (is_key_in (key_of raw) (map (normalize_windows k) segments)
                || is_key_in (key_of raw) seen)))
      ≡ true

  abbrev is_skipped : List Text → Text → Bool
  is_skipped seen raw =
      is_empty (trim_space raw) || (is_empty (key_of raw) || is_key_in (key_of raw) seen)

  merge-skipped :
      (seen raws : List Text) (raw : Text)
      → is_skipped seen raw ≡ true
      → merge_segments k seen (raw ∷ raws) ≡ merge_segments k seen raws
  unfolding merge_segments
  merge-skipped seen raws raw e = rw (merge_segments, e) refl

  merge-kept :
      (seen raws : List Text) (raw : Text)
      → is_skipped seen raw ≡ false
      → merge_segments k seen (raw ∷ raws)
        ≡ trim_space raw ∷ merge_segments k (key_of raw ∷ seen) raws
  unfolding merge_segments
  merge-kept seen raws raw e = rw (merge_segments, e) refl

  merge-Separate : (seen raws : List Text) → Separate seen (merge_segments k seen raws)
  unfolding merge_segments
  merge-Separate seen [] = tt
  merge-Separate seen (raw ∷ raws) = elim (Bool-cases (is_skipped seen raw)) [
    | inl skipped ↦ rw (merge_segments, skipped) (merge-Separate seen raws)
    | inr kept ↦
        rw (merge_segments, kept)
          (
            or_last (is_empty (trim_space raw)) (is_empty (key_of raw)) _ kept,
            merge-Separate (key_of raw ∷ seen) raws,
          )
  ]

  pushed :
      (seen rest : List Text) (segment raw : Text)
      → IsSeenOrIn (normalize_windows k segment ∷ seen) rest raw
      → IsSeenOrIn seen (segment ∷ rest) raw
  pushed seen rest segment raw h =
      shuffle (is_empty (trim_space raw)) (is_empty (key_of raw)) _
        (text_eq (key_of raw) (normalize_windows k segment)) _ h

  merge-IsSeenOrIn :
      (seen raws : List Text) → All (IsSeenOrIn seen (merge_segments k seen raws)) raws
  unfolding merge_segments
  merge-IsSeenOrIn seen [] = tt
  merge-IsSeenOrIn seen (raw ∷ raws) = elim (Bool-cases (is_skipped seen raw)) [
    | inl skipped ↦
        subst (λ r. All (IsSeenOrIn seen r) (raw ∷ raws))
          (sym (merge-skipped seen raws raw skipped))
          (
            widen (is_empty (trim_space raw)) (is_empty (key_of raw)) _ _ skipped,
            merge-IsSeenOrIn seen raws,
          )
    | inr kept ↦
        subst (λ r. All (IsSeenOrIn seen r) (raw ∷ raws)) (sym (merge-kept seen raws raw kept))
          (
            own (is_empty (trim_space raw)) (is_empty (key_of raw)) _ _ _
                (text_eq_self (key_of raw)),
            All-imp raws (pushed seen (merge_segments k (key_of raw ∷ seen) raws) (trim_space raw))
                (merge-IsSeenOrIn (key_of raw ∷ seen) raws),
          )
  ]

  -- The segments of a merged search path have different keys, and every segment that was merged is
  -- blank or has the key of one of them.
  pub merge_segments_lem :
      (values : List Text)
      → Separate [] (merge_segments k [] (segments_of k values))
        × All (IsIn (merge_segments k [] (segments_of k values))) (segments_of k values)
  merge_segments_lem values = (
    merge-Separate [] (segments_of k values),
    All-imp (segments_of k values)
        (λ raw h. drop_last (is_empty (trim_space raw)) (is_empty (key_of raw)) _ h)
        (merge-IsSeenOrIn [] (segments_of k values)),
  )
