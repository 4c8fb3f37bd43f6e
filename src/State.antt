-- ===== src/State.antt =====
-- internal/state: the files that AgentStack keeps.
pub mod Store
pub mod Persisted
pub mod Tests
