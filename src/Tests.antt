-- ===== src/Tests.antt =====
-- Concrete inputs, and the theorems applied to them.
mod Samples
mod Server
mod Cluster
mod Template
mod Webhook
mod SecretSync
mod Controller
mod Export
mod Syncs
mod Helm
mod Watches
mod Rotation
mod Omni
mod Roots
