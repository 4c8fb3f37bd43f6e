-- ===== src/ChildPool.antt =====
-- internal/mcp/child_pool.go: the pool of child processes that MCP servers share.
pub mod Sections
pub mod Steps
pub mod Invariant
pub mod Kept
pub mod Safety
mod Tests
