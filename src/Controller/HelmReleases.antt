-- ===== src/Controller/HelmReleases.antt =====
-- internal/controller/omnihelmrelease_controller.go: the reconciler of an OmniHelmRelease.
pub mod Status
pub mod Reconcile
pub mod Deletion
pub mod Run
