-- ===== src/Secrets.antt =====
-- The package secrets: the workers that create and delete secrets.
pub mod Requests
pub mod Creator
pub mod Deleter
pub mod Work
pub mod Promise
pub mod New
