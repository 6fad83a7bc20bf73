-- ===== src/Webhook.antt =====
-- From a webhook to a build.
pub mod Scm
pub mod Events
pub mod GitHook
pub mod Handler
