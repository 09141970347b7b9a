-- ===== src/Core/Api.antt =====
-- internal/core/api.go: the requests that change the configuration.
pub mod Fields
pub mod Config
pub mod Laws
mod Tests
