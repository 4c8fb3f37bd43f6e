-- ===== src/PathEnv.antt =====
-- internal/pathenv/path.go: search paths of Windows.
pub mod Segments
pub mod Laws
pub mod Merged
mod Tests
