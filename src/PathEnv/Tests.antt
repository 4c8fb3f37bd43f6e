-- ===== src/PathEnv/Tests.antt =====
-- A search path with a drive, and a folder that is appended to it.
use agent_stack_manager.Prelude.{
  ◌≡◌, refl, true, false, ◌&&◌, leb, List, [], ◌∷◌, All, if◌then◌else◌, ◌+◌,
}
use agent_stack_manager.Prelude.Text.{Text, codes, trim_space, after_prefix}
use agent_stack_manager.Prelude.TextLaws.{Lacks}
use agent_stack_manager.PathEnv.Segments.{Cleaning, append_windows, merge_segments, segments_of}
use agent_stack_manager.PathEnv.Merged.{Separate, IsIn, merge_segments_lem}
use agent_stack_manager.PathEnv.Laws.{append_windows_twice}

abbrev cleaning : Cleaning
cleaning = record {
  lower = λ c. if leb b'A' c && leb c b'Z' then c + 32 else c;
  clean = λ path. path;
}

abbrev tools : Text
tools = codes "C:/Tools"

tools-Lacks : Lacks b';' (trim_space tools)
unfolding trim_space
tools-Lacks = refl

appended : append_windows cleaning (codes "C:/Windows;") tools ≡ (codes "C:/Windows;C:/Tools", true)
unfolding append_windows after_prefix
appended = refl

append_windows_twice_example :
    append_windows cleaning (append_windows cleaning (codes "C:/Windows;") tools).0 tools
    ≡ ((append_windows cleaning (codes "C:/Windows;") tools).0, false)
append_windows_twice_example = append_windows_twice cleaning (codes "C:/Windows;") tools tools-Lacks

abbrev both : List Text
both = codes "C:/Windows;C:/Tools" ∷ codes "c:/tools; ;D:" ∷ []

merge_segments_lem_example :
    Separate cleaning [] (merge_segments cleaning [] (segments_of cleaning both))
    × All
        (IsIn cleaning (merge_segments cleaning [] (segments_of cleaning both)))
        (segments_of cleaning both)
merge_segments_lem_example = merge_segments_lem cleaning both
