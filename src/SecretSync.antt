-- ===== src/SecretSync.antt =====
-- internal/secretsync/secretsync.go: Secrets synced into a workload cluster.
pub mod Desired
pub mod Client
pub mod Ownership
pub mod Server
pub mod Repeat
