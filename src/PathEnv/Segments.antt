-- ===== src/PathEnv/Segments.antt =====
-- internal/pathenv/path.go: search paths of Windows, as texts of code points. Go's letter case and
-- `path.Clean` are parameters.
use agent_stack_manager.Prelude.{
  ℕ, Bool, true, false, ◌&&◌, ◌||◌, leb, List, [], ◌∷◌, ◌++◌, map, if◌then◌else◌, ◌==◌,
}
use agent_stack_manager.Prelude.Text.{
  Text, codes, is_empty, any, trim, trim_left, trim_space, text_eq, has_prefix, split,
}

pub record Cleaning : Type 0 where
  pub lower : ℕ → ℕ
  pub clean : Text → Text

abbrev pub is_slash : ℕ → Bool
is_slash c = c == b'/'

abbrev pub to_slash : ℕ → ℕ
to_slash c = if c == 92 then b'/' else c

unfoldable pub ends_with : ℕ → Text → Bool
ends_with c [] = false
ends_with c (d ∷ []) = d == c
ends_with c (d ∷ e ∷ s) = ends_with c (e ∷ s)

module _ (k : Cleaning) where
  abbrev pub lower_clean : Text → Text → Text
  lower_clean prefix candidate = prefix ++ map k.lower (k.clean candidate)

  -- A drive is one byte before a colon.
  abbrev pub drive_key : ℕ → Text → Text
  drive_key letter rest =
      let drive = map k.lower (letter ∷ b':' ∷ []) in
      if has_prefix (codes "/") rest
      then lower_clean (codes "drive-absolute:" ++ drive) (b'/' ∷ trim_left is_slash rest)
      else lower_clean (codes "drive-relative:" ++ drive ++ codes ":") rest

  abbrev pub rooted_key : Text → Text
  rooted_key value =
      if has_prefix (codes "/") value
      then lower_clean (codes "rooted:") (b'/' ∷ trim_left is_slash value)
      else lower_clean (codes "relative:") value

  abbrev pub drive_or_rooted : Text → Text
  drive_or_rooted [] = rooted_key []
  drive_or_rooted (c ∷ []) = rooted_key (c ∷ [])
  drive_or_rooted (c ∷ d ∷ rest) =
      if leb c 127 && d == b':' then drive_key c rest else rooted_key (c ∷ d ∷ rest)

  abbrev pub namespace_key : Text → Text
  namespace_key value =
      if has_prefix (codes "//") value
      then lower_clean (codes "unc:") (b'/' ∷ trim_left is_slash value)
      else drive_or_rooted value

  unfoldable pub normalize_windows : Text → Text
  unfolding trim_space trim
  normalize_windows value =
      let bare = trim_space (trim (λ c. c == b'"') value) in
      if is_empty bare then [] else namespace_key (map to_slash bare)

  -- The loop over the segments, with the keys seen.
  unfoldable pub merge_segments : List Text → List Text → List Text
  unfolding normalize_windows text_eq
  merge_segments seen [] = []
  merge_segments seen (raw ∷ raws) =
      let segment = trim_space raw in
      let key = normalize_windows segment in
      let skipped = merge_segments seen raws in
      let kept = segment ∷ merge_segments (key ∷ seen) raws in
      if is_empty segment || (is_empty key || any (text_eq key) seen) then skipped else kept

  abbrev pub segments_of : List Text → List Text
  segments_of [] = []
  segments_of (value ∷ values) = split b';' value ++ segments_of values

  abbrev pub join_segments : List Text → Text
  join_segments [] = []
  join_segments (segment ∷ []) = segment
  join_segments (segment ∷ next ∷ segments) = segment ++ b';' ∷ join_segments (next ∷ segments)

  unfoldable pub merge_windows : List Text → Text
  unfolding merge_segments split
  merge_windows values = join_segments (merge_segments [] (segments_of values))

  abbrev pub has_segment : Text → Text → Bool
  has_segment key current = any (λ raw. text_eq (normalize_windows raw) key) (split b';' current)

  -- The new path, and whether it has changed, for a target that is trimmed.
  unfoldable pub append_trimmed : Text → Text → Text × Bool
  unfolding ends_with normalize_windows text_eq split
  append_trimmed current target =
      if is_empty target || has_segment (normalize_windows target) current
      then (current, false)
      else if is_empty (trim_space current)
      then (target, true)
      else if ends_with b';' current
      then (current ++ target, true)
      else (current ++ b';' ∷ target, true)

  unfoldable pub append_windows : Text → Text → Text × Bool
  unfolding append_trimmed trim_space
  append_windows current target = append_trimmed current (trim_space target)
