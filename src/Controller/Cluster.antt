-- ===== src/Controller/Cluster.antt =====
-- internal/controller/omnicluster_controller.go: the reconciler of an OmniCluster.
pub mod Status
pub mod Inputs
pub mod Deletion
pub mod Reconcile
pub mod Safety
pub mod Calls
pub mod Latest
