-- ===== src/Kube.antt =====
-- The Kubernetes API objects and the client, as far as the program reads and writes them.
pub mod Meta
pub mod Pods
pub mod Client
pub mod Secrets
pub mod Metrics
pub mod Server
