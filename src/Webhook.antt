-- ===== src/Webhook.antt =====
-- internal/webhook/v1alpha1: admission validation of the custom resources.
pub mod Field
pub mod Sources
pub mod Validation
pub mod Laws
pub mod SourceLaws
pub mod Hooks
pub mod Immutable
