-- ===== src/Api.antt =====
-- The custom resource of api/v1beta1: its types, and its admission webhook.
pub mod Types
pub mod Webhook
