-- ===== src/Controller/Connections.antt =====
-- internal/controller/omniconnection_controller.go: the reconciler of an OmniConnection.
pub mod Reconcile
pub mod References
