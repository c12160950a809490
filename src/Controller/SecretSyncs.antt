-- ===== src/Controller/SecretSyncs.antt =====
-- internal/controller/omnisecretsync_controller.go: the reconciler of an OmniSecretSync.
pub mod Status
pub mod Reconcile
pub mod Deletion
pub mod Run
