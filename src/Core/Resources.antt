-- ===== src/Core/Resources.antt =====
-- internal/core/core.go: the parts of the server that it creates and closes.
pub mod Settings
pub mod Inputs
pub mod Defs
pub mod Run
pub mod Laws
mod Tests
