-- ===== src/Conf.antt =====
-- internal/conf.
pub mod PathConf
pub mod PathName
pub mod Samples
pub mod Settings
pub mod Check
pub mod General
pub mod Values
