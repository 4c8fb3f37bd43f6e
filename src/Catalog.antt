-- ===== src/Catalog.antt =====
-- internal/catalog/catalog.go: the validation of a catalog.
pub mod Acquisition
pub mod Lock
pub mod Cycles
pub mod Validate
pub mod Grounded
pub mod Components
pub mod Sound
pub mod Pinned
pub mod Tests
