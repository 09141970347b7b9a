-- ===== src/Core/Path/Requests.antt =====
-- internal/core/path.go: every request is answered once, however long it was on hold.
pub mod Defs
pub mod Quiet
pub mod Held
pub mod Answered
pub mod Once
pub mod Lives
