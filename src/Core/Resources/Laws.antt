-- ===== src/Core/Resources/Laws.antt =====
-- What a reload of internal/core/core.go leaves of the parts of the server.
pub mod Watched
pub mod Bound
pub mod Closed
pub mod Made
pub mod Progress
pub mod Told
pub mod Reload
pub mod Run
