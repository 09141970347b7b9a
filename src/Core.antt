-- ===== src/Core.antt =====
-- internal/core.
pub mod Api
pub mod Hls
pub mod Path
pub mod PathManager
pub mod Resources
pub mod Stream
pub mod StaticLoop
