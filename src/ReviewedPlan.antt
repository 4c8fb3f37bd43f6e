-- ===== src/ReviewedPlan.antt =====
-- internal/reviewedplan/executor.go: the execution of a reviewed plan.
pub mod Executor
pub mod Applied
pub mod Authorized
pub mod Passed
pub mod Gone
pub mod Once
pub mod Tests
