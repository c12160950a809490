-- ===== src/Template.antt =====
-- internal/omnitemplate: the rendering of a cluster template.
pub mod Docs
pub mod Parts
pub mod Root
pub mod Render
pub mod Names
pub mod Laws
pub mod OrderIndependence
