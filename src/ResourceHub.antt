-- ===== src/ResourceHub.antt =====
-- internal/resourcehub: the synchronisation of reviewed resources to the directories of coding agents.
pub mod Types
pub mod Destinations
pub mod Files
pub mod Hub
pub mod Choosing
pub mod Planning
pub mod Checks
pub mod Moving
pub mod Applying
pub mod Syncing
pub mod Justified
pub mod Planned
pub mod Disk
pub mod Transfer
pub mod Rollback
pub mod Moves
pub mod Atomic
pub mod Admission
pub mod AllOrNothing
pub mod SmallDisk
mod Tests
