-- ===== src/HelmClient.antt =====
-- internal/helmrelease/client.go and internal/helmchart: Helm releases in a workload cluster.
pub mod Library
pub mod Directory
pub mod Client
pub mod Choice
