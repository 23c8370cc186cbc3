-- ===== src/Webhook/Mutator.antt =====
-- webhook/mutator.go: the mutating webhook, its state, the two injections and the handler.
pub mod State
pub mod Sources
pub mod Volumes
pub mod SecretVolumes
pub mod Env
pub mod JvmEnv
pub mod Handler
pub mod EnvExtends
pub mod Extends
pub mod Outcomes
pub mod Python
pub mod Truststore
pub mod Injection
pub mod Mutation
pub mod Patched
pub mod Idempotence
pub mod Expected
pub mod Bundle
