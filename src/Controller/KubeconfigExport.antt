-- ===== src/Controller/KubeconfigExport.antt =====
-- internal/controller/omnikubeconfigexport_controller.go: the target Secret of an export, and
-- when an exported kubeconfig is kept.
pub mod State
pub mod Written
pub mod Reuse
pub mod Cycle
pub mod Previous
pub mod Status
pub mod Generated
pub mod Reconcile
pub mod Later
pub mod Looks
pub mod Rotation
pub mod Once
pub mod Deletion
pub mod Validator
