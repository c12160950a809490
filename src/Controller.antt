-- ===== src/Controller.antt =====
-- internal/controller: the reconcilers.
pub mod Kube
pub mod Omni
pub mod Objects
pub mod Children
pub mod Accepted
pub mod Watches
pub mod Stages
pub mod SecretSyncs
pub mod HelmReleases
pub mod Connections
pub mod Wakes
pub mod Reported
pub mod SpecErrors
pub mod Admission
pub mod Cluster
pub mod KubeconfigExport
