-- ===== src/Github.antt =====
-- internal/github: the poller and the webhook, which enqueue tasks for issues.
pub mod Poller
pub mod Dedup
pub mod Webhook
pub mod Verifier
