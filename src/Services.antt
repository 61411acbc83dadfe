-- ===== src/Services.antt =====
-- services/: what the handlers share.
pub mod Access
pub mod Events
pub mod Notifications
pub mod Mentions
pub mod Echo
pub mod Webhooks
