-- ===== src/Planner.antt =====
-- internal/planner/planner.go: `Build`, in the children that model its steps, and what holds of the
-- plans that it returns. `Seal` is with the digests, in ReviewedPlan.
pub mod Selection
pub mod Providers
pub mod Actions
pub mod Visits
pub mod Build
pub mod Closure
pub mod Placement
pub mod Topological
pub mod Selected
pub mod Run
pub mod Sound
pub mod Safety
pub mod Total
pub mod OnValid
mod Tests
