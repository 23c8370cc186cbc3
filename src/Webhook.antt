-- ===== src/Webhook.antt =====
-- The package webhook: the owner search, the configuration values, the mutating and the validating
-- webhook.
pub mod Owner
pub mod Config
pub mod Review
pub mod Mutator
pub mod Validator
pub mod Log
