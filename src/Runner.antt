-- ===== src/Runner.antt =====
-- internal/runner/runner.go: the engine that applies the actions of a plan.
pub mod Invocations
pub mod Engine
pub mod Apply
pub mod Steps
pub mod Journal
pub mod Status
pub mod Effects
pub mod Tests
