-- ===== src/OmniClient.antt =====
-- internal/omniapi/client.go: the client of Omni that the controllers use.
pub mod Key
pub mod Real
pub mod Reached
pub mod Roots
