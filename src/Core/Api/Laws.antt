-- ===== src/Core/Api/Laws.antt =====
-- What the requests of internal/core/api.go do to the configuration.
pub mod Outcome
pub mod Paths
pub mod Settled
