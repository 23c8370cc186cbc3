-- ===== src/Certificates.antt =====
-- The package certificates.
pub mod Names
pub mod Creator
pub mod Password
pub mod Work
pub mod New
