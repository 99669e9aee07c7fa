-- ===== src/Webhook.antt =====
-- internal/trigger/webhook.go: the HTTP server of webhook triggers.
pub mod Request
pub mod Auth
pub mod Serve
mod Guards
mod Privacy
mod Answers
mod Scenarios
