-- ===== src/Api.antt =====
-- api/v1alpha1: the objects of the API and the webhooks that validate them.
pub mod Errors
pub mod TroubleshootWebhook
pub mod TeamHealth
pub mod TeamHealthWebhook
pub mod CheckPluginWebhook
mod Tests
