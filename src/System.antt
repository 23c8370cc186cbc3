-- ===== src/System.antt =====
-- How the components meet: the names that the mutating webhook, the validating webhook and the workers
-- must agree on, and what becomes of the secrets.
pub mod Agreement
pub mod Truststore
pub mod Cleanup
pub mod Deployed
pub mod Pipeline
