-- ===== src/Core/PathManager.antt =====
-- internal/core/path_manager.go: the paths by name and by configuration.
pub mod Defs
pub mod Sets
pub mod Invariant
pub mod Events
pub mod Requests
pub mod Reload
pub mod Orphans
pub mod Survive
pub mod Lives
mod Tests
