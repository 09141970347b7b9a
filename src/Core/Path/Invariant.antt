-- ===== src/Core/Path/Invariant.antt =====
-- internal/core/path.go: what holds of a path between two events, and that no event breaks it.
pub mod Updates
pub mod Defs
pub mod OnDemand
pub mod Readers
pub mod Publishers
pub mod Finish
pub mod Steps
pub mod Lives
