-- ===== src/Core/Path.antt =====
-- internal/core/path.go: one path, its source, its readers and the requests that wait for a stream.
pub mod State
pub mod Source
pub mod OnDemand
pub mod Handlers
pub mod Run
pub mod Invariant
pub mod Requests
mod Tests
