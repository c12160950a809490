-- ===== src/Api.antt =====
-- api/v1alpha1: the operator's custom resources.
pub mod Meta
pub mod Common
pub mod Template
pub mod Workload
